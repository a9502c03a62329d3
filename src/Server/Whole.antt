-- ===== src/Server/Whole.antt =====
-- The bytes that `do_send` of `client/src/test_file_transfer.cpp` writes after the acceptance, through the
-- read loop of the server to the stored file.
use computer_network_final_p.Base.{
  ℕ, ◌+◌, ◌*◌, ◌^◌, ◌<◌, ◌≡◌, refl, sym, ap, ◌∙◌, subst, true, List, [], ◌∷◌, ◌++◌, length,
  length-append, map, All, IsPlain, Result-cases, inl, inr, some, ok, ok-injective, arith,
}
use computer_network_final_p.Wire.{little, put, put64_portable}
use computer_network_final_p.Protocol.Fields.{length-put, length-put64_portable}
use computer_network_final_p.Protocol.Message.{file_accept_req, file_chunk, file_done, type_code}
use computer_network_final_p.Protocol.FileAcceptReq
use computer_network_final_p.Protocol.FileAcceptReq.{FileAcceptReq}
use computer_network_final_p.Protocol.FileChunk
use computer_network_final_p.Protocol.FileChunk.{FileChunk}
use computer_network_final_p.Protocol.FileDone
use computer_network_final_p.Protocol.FileDone.{FileDone}
use computer_network_final_p.Transfer.{TransferSession, get_transfer}
use computer_network_final_p.FileStore.{ensure_directory}
use computer_network_final_p.Client.Requests.{make_file_chunk, make_file_done}
use computer_network_final_p.Client.Chunks.{pieces, concat, IsPiece}
use computer_network_final_p.Client.Loop.{announced_chunks-length}
use computer_network_final_p.Client.Bounds.{announced_chunks-pieces}
use computer_network_final_p.Client.Exchange.Upload.{chunk_frames}
use computer_network_final_p.Auth.PasswordHash.{HexReader}
use computer_network_final_p.Db.{Services}
use computer_network_final_p.Server.Sessions.{is_authenticated}
use computer_network_final_p.Server.{World, FileAnswers, self_of}
use computer_network_final_p.Server.Upload.{IsWritten, handle_chunks}
use computer_network_final_p.Server.Delivery.{Delivered, handle_message-handle_chunks}
use computer_network_final_p.Server.Dispatch.{header, handle_message}
use computer_network_final_p.Server.Streaming.{
  Message, IsMessage, read_loop, handle_all, frames, read_loop-frames,
}

-- The messages of an upload: the chunks from `first` on and the end.
unfoldable messages_of : ℕ → ℕ → List (List ℕ) → FileDone → List Message
messages_of id first [] d = (file_done, FileDone.serialize little d) ∷ []
messages_of id first (bytes ∷ rest) d =
    (
      file_chunk,
      FileChunk.serialize little (record { transfer_id = id; chunk_index = first; bytes = bytes }),
    )
    ∷ messages_of id (first + 1) rest d

-- Their frames, as the client writes them.
frames-messages_of :
    (id first : ℕ) (parts : List (List ℕ)) (d : FileDone)
    → frames little (messages_of id first parts d)
      ≡ concat (
          chunk_frames little id first parts
          ++ (make_file_done little d.transfer_id d.total_chunks d.file_size ∷ []))
unfolding frames messages_of chunk_frames concat make_file_done make_file_chunk FileDone.serialize
    FileChunk.serialize type_code
frames-messages_of id first [] d = refl
frames-messages_of id first (bytes ∷ rest) d =
    ap (λ k. make_file_chunk little id first bytes ++ k) (frames-messages_of id (first + 1) rest d)

length-messages_of :
    (id first : ℕ) (parts : List (List ℕ)) (d : FileDone)
    → length (messages_of id first parts d) ≡ length parts + 1
unfolding messages_of
length-messages_of id first [] d = refl
length-messages_of id first (bytes ∷ rest) d =
    omega (arith, length-messages_of id (first + 1) rest d)

messages_of-IsMessage :
    (id first : ℕ) (parts : List (List ℕ)) (d : FileDone)
    → All (IsPiece (256 * 1024)) parts
    → All IsMessage (messages_of id first parts d)
unfolding messages_of FileDone.serialize FileChunk.serialize
messages_of-IsMessage id first [] d small = (
  (
    (λ c e. cc),
    omega (
      arith,
      length-append (put64_portable little d.transfer_id)
          (put little 4 d.total_chunks ++ put64_portable little d.file_size),
      length-append (put little 4 d.total_chunks) (put64_portable little d.file_size),
      length-put64_portable d.transfer_id,
      length-put64_portable d.file_size,
      length-put little 4 d.total_chunks,
    ),
  ),
  tt,
)
messages_of-IsMessage id first (bytes ∷ rest) d small = (
  (
    (λ c e. cc),
    omega (
      arith,
      small.0.1,
      length-append (put64_portable little id) (put little 4 first ++ bytes),
      length-append (put little 4 first) bytes,
      length-put64_portable id,
      length-put little 4 first,
    ),
  ),
  messages_of-IsMessage id (first + 1) rest d small.1,
)

-- The parts, each with what the system answers when its chunk is handled.
unfoldable pub with_answers : (ℕ → FileAnswers) → ℕ → List (List ℕ) → List (FileAnswers × List ℕ)
with_answers a n [] = []
with_answers a n (bytes ∷ rest) = (a n, bytes) ∷ with_answers a (n + 1) rest

parts_of :
    (a : ℕ → FileAnswers) (n : ℕ) (parts : List (List ℕ))
    → map (λ c. c.1) (with_answers a n parts) ≡ parts
unfolding with_answers
parts_of a n [] = refl
parts_of a n (bytes ∷ rest) = ap (λ k. bytes ∷ k) (parts_of a (n + 1) rest)

module _ {S : Services} (read : HexReader) (a : ℕ → FileAnswers) (self id : ℕ) (d : FileDone) where
  handle_all-messages_of :
      (parts : List (List ℕ)) (n first : ℕ) (w w2 w3 : World S)
      → handle_chunks read w self id first (with_answers a n parts) ≡ ok w2
      → handle_message read (a (n + length parts)) w2 self file_done (FileDone.serialize little d)
        ≡ ok w3
      → handle_all read a self n w (messages_of id first parts d) ≡ ok w3
  unfolding handle_all messages_of handle_chunks with_answers
  handle_all-messages_of [] n first w w2 w3 chunks done =
      let here : w2 ≡ w = sym (ok-injective chunks) in
      let at_n : n + 0 ≡ n = omega arith in
      let done_here : handle_message read (a n) w self file_done (FileDone.serialize little d)
          ≡ ok w3 =
        subst
          (λ k. handle_message read (a k) w self file_done (FileDone.serialize little d) ≡ ok w3)
          at_n
          (subst
            (λ v.
              handle_message read (a (n + 0)) v self file_done (FileDone.serialize little d)
              ≡ ok w3)
            here done) in
      rw done_here refl
  handle_all-messages_of (bytes ∷ rest) n first w w2 w3 chunks done =
      let at_n : n + length (bytes ∷ rest) ≡ n + 1 + length rest = omega arith in
      elim (Result-cases (
        handle_message read (a n) w self file_chunk (
          FileChunk.serialize little
            (record { transfer_id = id; chunk_index = first; bytes = bytes })))) [
              | inl (w1, handled) ↦ rw handled (
                  handle_all-messages_of rest (n + 1) (first + 1) w1 w2 w3 (rw handled at chunks) (
                    subst
                      (λ k.
                        handle_message read (a k) w2 self file_done (FileDone.serialize little d)
                        ≡ ok w3)
                      at_n done))
              | inr (inl (what, thrown)) ↦ absurd (let e = rw thrown at chunks in cc)
              | inr (inr broken) ↦ absurd (let e = rw broken at chunks in cc)
            ]

module _ {S : Services} (read : HexReader) (accepts : FileAnswers) (a : ℕ → FileAnswers)
    (w : World S) (receiver self id : ℕ) (t : TransferSession) (contents : List ℕ) where
  -- Where the receiver of a transfer that has had no chunk accepts it, the bytes that the `do_send`
  -- of a little-endian client writes from then on for a file below 2 ^ 49 bytes, its chunk frames
  -- and its FILE_DONE, take the read loop of the sender's connection, in more rounds than twice the
  -- frames, to a world in which the file stands under its final path with its contents and the
  -- transfer is completed, and the loop waits for a header. Both sessions are logged in, base path
  -- and file name hold no zero byte, and the system makes the directory, opens the file, takes every
  -- chunk and renames the file.
  pub read_loop-chunk_frames :
      (rounds : ℕ)
      → 2 * (length (pieces contents) + 1) < rounds
      → is_authenticated (self_of w receiver) ≡ true
      → is_authenticated (self_of w self) ≡ true
      → get_transfer w.transfers id ≡ some t
      → t.receiver_user_id ≡ (self_of w receiver).user_id
      → t.sender_user_id ≡ (self_of w self).user_id
      → t.expected_chunk_index ≡ 0
      → t.bytes_received ≡ 0
      → id < 2 ^ 64
      → length contents < 2 ^ 49
      → IsPlain w.store.base_path
      → IsPlain t.filename
      → ensure_directory accepts.directory ≡ true
      → accepts.opens ≡ true
      → All IsWritten (with_answers a 0 (pieces contents))
      → (a (0 + length (pieces contents))).renames ≡ true
      → (w1 w2 : World S) × (handle_message read accepts w receiver file_accept_req
            (FileAcceptReq.serialize little (record { transfer_id = id; accept = true }))
          ≡ ok w1)
        × (read_loop read a self rounds 0 w1 header (
              concat (
                chunk_frames little id 0 (pieces contents)
                ++ (make_file_done little id (length (pieces contents)) (length contents) ∷ [])))
            ≡ ok (w2, header))
        × Delivered w2 id w.store.base_path t.filename contents
  read_loop-chunk_frames rounds enough receiver_in sender_in found receives sends next received
        id_fits small hb hf there opens good renames =
      let parts = pieces contents in
      let d : FileDone = record {
        transfer_id = id;
        total_chunks = length parts;
        file_size = length contents;
      } in
      let (w1, w2, w3, accepted, chunks, done, delivered) =
        handle_message-handle_chunks read accepts (a (0 + length parts)) w receiver self id t
          contents (with_answers a 0 parts) receiver_in sender_in found receives sends next received
          id_fits small (parts_of a 0 parts) hb hf there opens good renames in
      let announced = announced_chunks-length contents small in
      let ends : handle_message read (a (0 + length parts)) w2 self file_done
            (FileDone.serialize little d)
          ≡ ok w3 =
        subst
          (λ n.
            handle_message read (a (0 + length parts)) w2 self file_done
              (FileDone.serialize little (record d { total_chunks = n }))
            ≡ ok w3)
          announced done in
      let handled = handle_all-messages_of read a self id d parts 0 0 w1 w2 w3 chunks ends in
      let looped =
        read_loop-frames read a self little (messages_of id 0 parts d) rounds 0 w1
          (messages_of-IsMessage id 0 parts d (announced_chunks-pieces contents small).1)
          (omega (arith, length-messages_of id 0 parts d)) in
      (
        w1,
        w3,
        accepted,
        subst (λ bytes. read_loop read a self rounds 0 w1 header bytes ≡ ok (w3, header))
            (frames-messages_of id 0 parts d) (looped ∙ (rw handled refl)),
        delivered,
      )
