-- ===== src/Client/Exchange/Upload.antt =====
-- A whole upload by `do_send` against a peer that answers with success.
use computer_network_final_p.Base.{
  ℕ, ◌+◌, ◌^◌, ◌<◌, ◌≡◌, refl, ap, ◌∙◌, true, List, [], ◌∷◌, ◌++◌, length, append_assoc, append-nil,
  ok, text,
}
use computer_network_final_p.Base.Action.{Action, pure, ◌>>=◌, ◌>>◌, bind-runs}
use computer_network_final_p.Wire.{Endian}
use computer_network_final_p.Protocol.Message.{file_offer_resp, file_accept_resp, file_result}
use computer_network_final_p.Protocol.Fields.{FitsU16}
use computer_network_final_p.Client.Sending.{
  default_chunk_size, filename_of, send_chunks, announced_chunks, read_accepted, read_offered,
  read_saved, do_send,
}
use computer_network_final_p.Client.Requests.{make_file_offer_req, make_file_chunk, make_file_done}
use computer_network_final_p.Client.Chunks.{pieces, write_pieces}
use computer_network_final_p.Client.Loop.{send_chunks-write_pieces, announced_chunks-length}
use computer_network_final_p.Client.Frames.{frame}
use computer_network_final_p.Client.Exchange.{Script, scripted}
use computer_network_final_p.Client.Exchange.Replies.{
  offer_answer, accept_answer, result_answer, read_offered-frame, read_accepted-frame,
  read_saved-frame,
}

-- The frames of the chunks with the indices from `first` on.
unfoldable pub chunk_frames : Endian → ℕ → ℕ → List (List ℕ) → List (List ℕ)
chunk_frames h transfer_id first [] = []
chunk_frames h transfer_id first (bytes ∷ rest) =
    make_file_chunk h transfer_id first bytes ∷ chunk_frames h transfer_id (first + 1) rest

write_pieces-chunk_frames :
    (h : Endian) (transfer_id first : ℕ) (parts : List (List ℕ)) (input : List ℕ)
    (output : List (List ℕ))
    → write_pieces h scripted transfer_id first parts (input, output)
      ≡ ((input, output ++ chunk_frames h transfer_id first parts), ok tt)
unfolding write_pieces chunk_frames
write_pieces-chunk_frames h transfer_id first [] input output = rw (append-nil output) refl
write_pieces-chunk_frames h transfer_id first (bytes ∷ rest) input output =
    let chunk = make_file_chunk h transfer_id first bytes in
    write_pieces-chunk_frames h transfer_id (first + 1) rest input (output ++ (chunk ∷ []))
    ∙ ap (λ o. ((input, o), ok tt))
        (append_assoc output (chunk ∷ []) (chunk_frames h transfer_id (first + 1) rest))

module _ (h : Endian) (receiver filepath contents : List ℕ) (transfer_id : ℕ) (path : List ℕ)
    (small : length contents < 2 ^ 49) (id_fits : transfer_id < 2 ^ 64)
    (path_fits : FitsU16 path) where
  abbrev done_frame : List ℕ
  done_frame = make_file_done h transfer_id (length (pieces contents)) (length contents)

  abbrev offer_frame : List ℕ
  offer_frame =
      make_file_offer_req h receiver (filename_of filepath) (length contents) default_chunk_size

  loop-scripted :
      (input : List ℕ) (output : List (List ℕ))
      → send_chunks
          (length contents + 1)
          h
          scripted
          transfer_id
          (length contents)
          contents
          0
          0
          (input, output)
        ≡ (
          (input, output ++ chunk_frames h transfer_id 0 (pieces contents)),
          ok (length (pieces contents), length contents),
        )
  loop-scripted input output =
      send_chunks-write_pieces h scripted transfer_id contents (input, output) small
      ∙ bind-runs (write_pieces h scripted transfer_id 0 (pieces contents)) (input, output)
          (λ sent. pure (length (pieces contents), length contents)) _ _ _
          (write_pieces-chunk_frames h transfer_id 0 (pieces contents) input output) refl

  after_accept : Action Script (List ℕ)
  after_accept = do
    (chunk_index, total_sent) ←
        send_chunks (length contents + 1) h scripted transfer_id (length contents) contents 0 0
    scripted.write (
        make_file_done h transfer_id (announced_chunks (length contents) chunk_index)
          (length contents))
    read_saved h scripted

  after_accept-runs :
      (rest : List ℕ) (output : List (List ℕ))
      → after_accept (frame h file_result (result_answer h transfer_id path) ++ rest, output) ≡ (
        (rest, (output ++ chunk_frames h transfer_id 0 (pieces contents)) ++ (done_frame ∷ [])),
        ok path,
      )
  unfolding after_accept
  after_accept-runs rest output =
      bind-runs
        (send_chunks (length contents + 1) h scripted transfer_id (length contents) contents 0 0)
        (frame h file_result (result_answer h transfer_id path) ++ rest, output)
        (λ r. do
          scripted.write (
              make_file_done h transfer_id (announced_chunks (length contents) r.0)
                (length contents))
          read_saved h scripted)
        _ _ _ (loop-scripted _ output)
        (rw (announced_chunks-length contents small)
          (read_saved-frame h rest _ transfer_id path id_fits path_fits))

  -- With the three answers of a peer of its own byte order before it, each a success, for an id below
  -- 2 ^ 64 and a path shorter than 65536 bytes, `do_send` of a file that is there, opens and has fewer than 2 ^ 49 bytes returns the path,
  -- reads no byte behind the answers, and writes the offer, the pieces of the file as chunks from 0 on, and a
  -- FILE_DONE with their number, and nothing else.
  pub do_send-answered :
      (rest : List ℕ)
      → do_send h scripted receiver filepath
          (record { exists = true; file_size = length contents; opens = true; contents = contents })
          (
            frame h file_offer_resp (offer_answer h transfer_id)
                ++ (frame h file_accept_resp (accept_answer h)
                    ++ (frame h file_result (result_answer h transfer_id path) ++ rest)),
            [],
          )
        ≡ (
          (
            rest,
            ((offer_frame ∷ []) ++ chunk_frames h transfer_id 0 (pieces contents))
                ++ (done_frame ∷ []),
          ),
          ok path,
        )
  unfolding do_send after_accept
  do_send-answered rest =
      let result = frame h file_result (result_answer h transfer_id path) ++ rest in
      let accepted = frame h file_accept_resp (accept_answer h) ++ result in
      let refusal = text "Receiver rejected: " in
      bind-runs (read_offered h scripted)
        (frame h file_offer_resp (offer_answer h transfer_id) ++ accepted, offer_frame ∷ [])
        (λ id. do
          read_accepted h scripted refusal
          (chunk_index, total_sent) ←
              send_chunks (length contents + 1) h scripted id (length contents) contents 0 0
          scripted.write (
              make_file_done h id (announced_chunks (length contents) chunk_index)
                (length contents))
          read_saved h scripted)
        _ _ _ (read_offered-frame h accepted (offer_frame ∷ []) transfer_id id_fits)
        (bind-runs (read_accepted h scripted refusal) (accepted, offer_frame ∷ [])
          (λ done. after_accept) _ _ _ (read_accepted-frame h result (offer_frame ∷ []) refusal)
          (after_accept-runs rest (offer_frame ∷ [])))
