-- ===== src/Server/Files.antt =====
-- The handlers of FILE_ACCEPT_REQ, FILE_CHUNK and FILE_DONE of `core/src/net/tcp_session.cpp`.
use computer_network_final_p.Base.{
  ℕ, Bool, true, false, Option, none, some, List, [], ◌++◌, length, ◌==◌, if◌then◌else◌, Result, ok,
  err, fault, ◌>>=◌, text,
}
use computer_network_final_p.Base.Dict.{nat_eq}
use computer_network_final_p.Wire.{little}
use computer_network_final_p.Protocol.Message.{file_accept_resp, file_result}
use computer_network_final_p.Protocol.FileAcceptReq
use computer_network_final_p.Protocol.FileAcceptReq.{FileAcceptReq}
use computer_network_final_p.Protocol.FileAcceptResp
use computer_network_final_p.Protocol.FileChunk
use computer_network_final_p.Protocol.FileChunk.{FileChunk}
use computer_network_final_p.Protocol.FileDone
use computer_network_final_p.Protocol.FileDone.{FileDone}
use computer_network_final_p.Protocol.FileResult
use computer_network_final_p.Transfer.{
  TransferState, offered, accepted, receiving, completed, failed, TransferSession, get_transfer,
  adjust_session, update_state, mark_chunk_received,
}
use computer_network_final_p.FileStore.{FileStore, open_for_write, write_chunk, finalize_file}
use computer_network_final_p.Db.{Services}
use computer_network_final_p.Server.Sessions.{is_authenticated, get_session}
use computer_network_final_p.Server.{World, FileAnswers, self_of, send}

unfoldable pub is_accepted_or_receiving : TransferState → Bool
is_accepted_or_receiving offered = false
is_accepted_or_receiving accepted = true
is_accepted_or_receiving receiving = true
is_accepted_or_receiving completed = false
is_accepted_or_receiving failed = false

module _ {S : Services} where
  unfoldable pub answer_accept : World S → ℕ → Bool → List ℕ → World S
  answer_accept w id is_ok reason =
      send w id file_accept_resp
        (FileAcceptResp.serialize little (record { is_ok = is_ok; reason = reason }))

  unfoldable pub answer_done : World S → ℕ → ℕ → Bool → List ℕ → World S
  answer_done w self id is_ok path_or_reason = send w self file_result (
      FileResult.serialize little
        (record { transfer_id = id; is_ok = is_ok; path_or_reason = path_or_reason }))

  -- The answer that the sender is sent, if its session is still there.
  unfoldable pub notify_sender : World S → TransferSession → Bool → List ℕ → World S
  unfolding answer_accept
  notify_sender w t is_ok reason =
      if length t.sender_token == 0
      then w
      else elim (get_session w.sessions w.objects t.sender_token) [
        | none ↦ w
        | some sender ↦ answer_accept w sender is_ok reason
      ]

  unfoldable pub mark_state : World S → ℕ → TransferState → World S
  mark_state w id state = record w { transfers = (update_state w.transfers id state).0 }

  -- The store and the handle that `open_for_write` gives.
  unfoldable pub accept_opened : World S → ℕ → ℕ → TransferSession → FileStore × Option ℕ → World S
  unfolding answer_accept notify_sender mark_state
  accept_opened w self id t (store, none) =
      answer_accept (mark_state (record w { store = store }) id failed) self false
        (text "Failed to open file")
  accept_opened w self id t (store, some h) =
      let held = record w {
        store = store;
        transfers = adjust_session w.transfers id (λ t. record t { file_handle = some h });
      } in
      answer_accept (notify_sender (mark_state held id accepted) t true []) self true []

  unfoldable pub accept_offer : FileAnswers → World S → ℕ → ℕ → TransferSession → World S
  unfolding accept_opened
  accept_offer a w self id t =
      accept_opened w self id t (open_for_write a.directory a.opens w.store id t.filename)

  unfoldable pub reject_offer : World S → ℕ → ℕ → TransferSession → World S
  unfolding answer_accept notify_sender mark_state
  reject_offer w self id t =
      answer_accept (notify_sender (mark_state w id failed) t false (text "Receiver rejected")) self
        true []

  unfoldable pub accept_found :
      FileAnswers → World S → ℕ → FileAcceptReq → Option TransferSession → World S
  unfolding accept_offer reject_offer answer_accept
  accept_found a w self req none = answer_accept w self false (text "Transfer not found")
  accept_found a w self req (some t) =
      if t.receiver_user_id == (self_of w self).user_id
      then (if req.accept
          then accept_offer a w self req.transfer_id t
          else reject_offer w self req.transfer_id t)
      else answer_accept w self false (text "Not the receiver")

  unfoldable pub accept_parsed : FileAnswers → World S → ℕ → Result FileAcceptReq → Result (World S)
  unfolding accept_found answer_accept
  accept_parsed a w self fault = fault
  accept_parsed a w self (err what) = ok (answer_accept w self false (text "error: " ++ what))
  accept_parsed a w self (ok req) =
      ok (accept_found a w self req (get_transfer w.transfers req.transfer_id))

  unfoldable pub handle_file_accept_req : FileAnswers → World S → ℕ → List ℕ → Result (World S)
  unfolding accept_parsed answer_accept
  handle_file_accept_req a w self payload =
      if is_authenticated (self_of w self)
      then accept_parsed a w self (FileAcceptReq.deserialize little payload)
      else ok (answer_accept w self false (text "Not authenticated"))

  unfoldable pub store_chunk :
      FileAnswers → World S → FileChunk → TransferSession → Result (World S)
  unfolding mark_state
  store_chunk a w c t = do
    (store, written) ← write_chunk a.write w.store t.file_handle c.bytes
    let after = record w { store = store }
    ok (elim written [
      | none ↦ mark_state after c.transfer_id failed
      | some n ↦ record after {
        transfers =
            (mark_chunk_received w.transfers c.transfer_id c.chunk_index (length c.bytes)).0;
      }
    ])

  unfoldable pub chunk_found :
      FileAnswers → World S → ℕ → FileChunk → Option TransferSession → Result (World S)
  unfolding store_chunk is_accepted_or_receiving
  chunk_found a w self c none = ok w
  chunk_found a w self c (some t) =
      if t.sender_user_id == (self_of w self).user_id
      then (if is_accepted_or_receiving t.state then store_chunk a w c t else ok w)
      else ok w

  unfoldable pub chunk_parsed : FileAnswers → World S → ℕ → Result FileChunk → Result (World S)
  unfolding chunk_found
  chunk_parsed a w self fault = fault
  chunk_parsed a w self (err what) = ok w
  chunk_parsed a w self (ok c) = chunk_found a w self c (get_transfer w.transfers c.transfer_id)

  unfoldable pub handle_file_chunk : FileAnswers → World S → ℕ → List ℕ → Result (World S)
  unfolding chunk_parsed
  handle_file_chunk a w self payload =
      if is_authenticated (self_of w self)
      then chunk_parsed a w self (FileChunk.deserialize little payload)
      else ok w

  unfoldable pub finish_transfer :
      FileAnswers → World S → ℕ → FileDone → TransferSession → Result (World S)
  unfolding mark_state answer_done
  finish_transfer a w self d t = do
    (store, success) ← finalize_file a.renames w.store d.transfer_id t.filename t.file_handle
    let after = record w { store = store }
    ok (
        if success
        then answer_done (mark_state after d.transfer_id completed) self d.transfer_id true
            t.final_file_path
        else answer_done (mark_state after d.transfer_id failed) self d.transfer_id false
            (text "Failed to finalize file"))

  unfoldable pub done_found :
      FileAnswers → World S → ℕ → FileDone → Option TransferSession → Result (World S)
  unfolding finish_transfer
  done_found a w self d none = ok w
  done_found a w self d (some t) =
      if t.sender_user_id == (self_of w self).user_id then finish_transfer a w self d t else ok w

  unfoldable pub done_parsed : FileAnswers → World S → ℕ → Result FileDone → Result (World S)
  unfolding done_found
  done_parsed a w self fault = fault
  done_parsed a w self (err what) = ok w
  done_parsed a w self (ok d) = done_found a w self d (get_transfer w.transfers d.transfer_id)

  unfoldable pub handle_file_done : FileAnswers → World S → ℕ → List ℕ → Result (World S)
  unfolding done_parsed
  handle_file_done a w self payload =
      if is_authenticated (self_of w self)
      then done_parsed a w self (FileDone.deserialize little payload)
      else ok w
