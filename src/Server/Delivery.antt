-- ===== src/Server/Delivery.antt =====
-- A file from its FILE_ACCEPT_REQ to its place under the storage directory.
use computer_network_final_p.Base.{
  ℕ, suc, ◌+◌, ◌^◌, ◌<◌, ◌≡◌, refl, sym, ap, ◌∙◌, subst, true, some, List, [], ◌∷◌, length, map,
  All, IsPlain, ==_iff, ok, arith,
}
use computer_network_final_p.Base.Dict.{nat_eq, bytes_eq}
use computer_network_final_p.Wire.{little}
use computer_network_final_p.Protocol.Message.{file_accept_req, file_done}
use computer_network_final_p.Protocol.FileAcceptReq
use computer_network_final_p.Protocol.FileAcceptReq.{FileAcceptReq}
use computer_network_final_p.Protocol.FileDone
use computer_network_final_p.Protocol.FileDone.{FileDone}
use computer_network_final_p.Protocol.RoundTrip.Transfer.{
  deserialize-serialize_accept_req, deserialize-serialize_done,
}
use computer_network_final_p.Transfer.{completed, TransferSession, get_transfer}
use computer_network_final_p.FileStore.{ensure_directory, get_file_path}
use computer_network_final_p.FileStore.Storing.{path_contents, finalize-Closed}
use computer_network_final_p.Client.Chunks.{pieces, concat}
use computer_network_final_p.Client.Loop.{length-pieces, announced_chunks-length}
use computer_network_final_p.Client.Bounds.{concat-pieces}
use computer_network_final_p.Client.Sending.{announced_chunks}
use computer_network_final_p.Auth.PasswordHash.{HexReader}
use computer_network_final_p.Db.{Services}
use computer_network_final_p.Server.Sessions.{is_authenticated}
use computer_network_final_p.Server.{World, FileAnswers, self_of, send}
use computer_network_final_p.Server.Files.{
  answer_done, mark_state, accept_offer, accept_parsed, accept_found, handle_file_accept_req,
  finish_transfer, handle_file_done,
}
use computer_network_final_p.Server.Finishing.{mark_state-get_transfer, done_finishes}
use computer_network_final_p.Server.Upload.{
  Uploading, IsWritten, handle_chunks, handle_chunks-Uploading,
}
use computer_network_final_p.Server.Dispatch.{handle_message}
use computer_network_final_p.Server.Accepting.{accept_offer-Uploading}

-- What a file that is stored leaves: its final path holds its bytes, and its transfer is completed.
pub record Delivered {S : Services} (w : World S) (id : ℕ) (base filename bytes : List ℕ)
    : Type 0 where
  pub transfer : TransferSession
  pub stored : path_contents w.store.disk (get_file_path base id filename) ≡ some bytes
  pub found : get_transfer w.transfers id ≡ some transfer
  pub done : transfer.state ≡ completed

module _ {S : Services} (a : FileAnswers) (w : World S) (self : ℕ) (base filename : List ℕ)
    (hb : IsPlain base) (hf : IsPlain filename) (renames : a.renames ≡ true) where
  handle_file_done-Delivered :
      (d : FileDone) (first : ℕ) (bytes : List ℕ)
      → Uploading w self d.transfer_id base filename first bytes
      → d.transfer_id < 2 ^ 64
      → d.total_chunks < 2 ^ 32
      → d.file_size < 2 ^ 64
      → (w' : World S) × (handle_file_done a w self (FileDone.serialize little d) ≡ ok w')
        × Delivered w' d.transfer_id base filename bytes
  unfolding finish_transfer answer_done send mark_state
  handle_file_done-Delivered d first bytes u id_fits total_fits size_fits =
      let id = d.transfer_id in
      let (disk, finalized, c) =
        finalize-Closed w.store id u.transfer.filename bytes u.handle
          (subst IsPlain (sym u.based) hb) (subst IsPlain (sym u.named) hf)
          (rw (u.based, u.named) u.writing) in
      let finished : World S = record w { store = record w.store { disk = disk } } in
      (
        answer_done (mark_state finished id completed) self id true u.transfer.final_file_path,
        done_finishes a w self (FileDone.serialize little d) d u.transfer u.logged_in
              (deserialize-serialize_done d id_fits total_fits size_fits) u.found u.sender
            ∙ rw (u.held, renames, finalized),
        record {
          transfer = record u.transfer { state = completed };
          stored =
              subst (λ path. path_contents disk path ≡ some bytes) (rw (u.based, u.named)) c.holds;
          found = mark_state-get_transfer finished id completed u.transfer u.found;
          done = refl;
        },
      )

length-map_bytes :
    (chunks : List (FileAnswers × List ℕ)) → length (map (λ c. c.1) chunks) ≡ length chunks
length-map_bytes [] = refl
length-map_bytes (c ∷ rest) = ap suc (length-map_bytes rest)

module _ {S : Services} (read : HexReader) (accepts dones : FileAnswers) (w : World S)
    (receiver self id : ℕ) (t : TransferSession) (contents : List ℕ)
    (chunks : List (FileAnswers × List ℕ)) where
  accepted_first :
      is_authenticated (self_of w receiver) ≡ true
      → get_transfer w.transfers id ≡ some t
      → t.receiver_user_id ≡ (self_of w receiver).user_id
      → id < 2 ^ 64
      → handle_message read accepts w receiver file_accept_req
          (FileAcceptReq.serialize little (record { transfer_id = id; accept = true }))
        ≡ ok (accept_offer accepts w receiver id t)
  unfolding handle_message handle_file_accept_req accept_parsed accept_found
  accepted_first logged found receives id_fits = rw (
    logged,
    deserialize-serialize_accept_req (record { transfer_id = id; accept = true }) id_fits,
    accept_parsed,
    found,
    accept_found,
    (==_iff _ _).1 receives,
  )

  -- Where the receiver of a transfer that has had no chunk accepts it and the sender sends the pieces
  -- of a file below 2 ^ 49 bytes in turn and then FILE_DONE with the number that `do_send` announces,
  -- each message is handled without an error, the file stands under its final path with its contents,
  -- and the transfer is completed. Both sessions are logged in, base path and file name hold no zero
  -- byte, and the system makes the directory, opens the file, takes every chunk and renames the file.
  pub handle_message-handle_chunks :
      is_authenticated (self_of w receiver) ≡ true
      → is_authenticated (self_of w self) ≡ true
      → get_transfer w.transfers id ≡ some t
      → t.receiver_user_id ≡ (self_of w receiver).user_id
      → t.sender_user_id ≡ (self_of w self).user_id
      → t.expected_chunk_index ≡ 0
      → t.bytes_received ≡ 0
      → id < 2 ^ 64
      → length contents < 2 ^ 49
      → map (λ c. c.1) chunks ≡ pieces contents
      → IsPlain w.store.base_path
      → IsPlain t.filename
      → ensure_directory accepts.directory ≡ true
      → accepts.opens ≡ true
      → All IsWritten chunks
      → dones.renames ≡ true
      → (w1 w2 w3 : World S) × (handle_message read accepts w receiver file_accept_req
            (FileAcceptReq.serialize little (record { transfer_id = id; accept = true }))
          ≡ ok w1)
        × (handle_chunks read w1 self id 0 chunks ≡ ok w2)
        × (handle_message read dones w2 self file_done (
              FileDone.serialize little (record {
                transfer_id = id;
                total_chunks = announced_chunks (length contents) (length (pieces contents));
                file_size = length contents;
              }))
            ≡ ok w3)
        × Delivered w3 id w.store.base_path t.filename contents
  unfolding handle_message
  handle_message-handle_chunks receiver_in sender_in found receives sends next received id_fits
        small whole hb hf there opens good renames =
      let counted : length chunks ≡ length (pieces contents) =
        sym (length-map_bytes chunks) ∙ ap length whole in
      let count = length-pieces contents in
      let joined : concat (map (λ c. c.1) chunks) ≡ contents =
        ap concat whole ∙ concat-pieces contents in
      let u =
        accept_offer-Uploading accepts w receiver self id t found sender_in sends next received hb
          hf there opens in
      let (w2, handled, uploaded) =
        handle_chunks-Uploading read self id w.store.base_path t.filename id_fits chunks
          (accept_offer accepts w receiver id t) 0 [] u good (omega arith)
          (rw joined (omega arith)) in
      let announced = announced_chunks-length contents small in
      let (w3, done, delivered) =
        handle_file_done-Delivered dones w2 self w.store.base_path t.filename hb hf renames
          (record {
            transfer_id = id;
            total_chunks = announced_chunks (length contents) (length (pieces contents));
            file_size = length contents;
          })
          (0 + length chunks) contents
          (subst
            (λ bytes. Uploading w2 self id w.store.base_path t.filename (0 + length chunks) bytes)
            joined uploaded)
          id_fits (omega arith) (omega arith) in
      (
        accept_offer accepts w receiver id t,
        w2,
        w3,
        accepted_first receiver_in found receives id_fits,
        handled,
        done,
        delivered,
      )
