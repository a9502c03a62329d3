-- ===== src/Server/Finishing.antt =====
-- What FILE_DONE leaves behind.
use computer_network_final_p.Base.{
  ℕ, ◌≡◌, refl, sym, ap, ◌∙◌, subst, inl, inr, Bool, true, false, Bool-cases, some, List, ◌==◌,
  ==_iff, ok, fault, ok-injective, Result-cases,
}
use computer_network_final_p.Base.Dict.{nat_eq, bytes_eq, find-adjust_self}
use computer_network_final_p.Wire.{little}
use computer_network_final_p.Protocol.FileChunk
use computer_network_final_p.Protocol.FileChunk.{FileChunk}
use computer_network_final_p.Protocol.FileDone
use computer_network_final_p.Protocol.FileDone.{FileDone}
use computer_network_final_p.Transfer.{
  TransferState, completed, failed, TransferSession, get_transfer, adjust_session, update_state,
}
use computer_network_final_p.FileStore.{FileStore, finalize_file}
use computer_network_final_p.FileStore.Shutting.{finalize_file-shut, finalize_file-fault}
use computer_network_final_p.FileStore.Files.{open_stream}
use computer_network_final_p.Db.{Services}
use computer_network_final_p.Server.Sessions.{is_authenticated}
use computer_network_final_p.Server.{World, FileAnswers, self_of, send}
use computer_network_final_p.Server.Login.{self_of-send, is_authenticated-send}
use computer_network_final_p.Server.Files.{
  answer_done, mark_state, is_accepted_or_receiving, handle_file_chunk, chunk_parsed, chunk_found,
  handle_file_done, done_parsed, done_found, finish_transfer,
}

module _ {S : Services} where
  pub mark_state-get_transfer :
      (w : World S) (id : ℕ) (state : TransferState) (t : TransferSession)
      → get_transfer w.transfers id ≡ some t
      → get_transfer (mark_state w id state).transfers id ≡ some (record t { state = state })
  unfolding mark_state get_transfer update_state adjust_session
  mark_state-get_transfer w id state t found =
      rw (found, update_state) (find-adjust_self id _ w.transfers.transfers t found)

  -- A transfer after its FILE_DONE.
  record IsFinished (w w' : World S) (self id : ℕ) (t : TransferSession) : Type 0 where
    state : TransferState
    over : is_accepted_or_receiving state ≡ false
    there : get_transfer w'.transfers id ≡ some (record t { state = state })
    shut : (handle : ℕ) → t.file_handle ≡ some handle → open_stream w'.store.disk handle ≡ fault
    user_kept : (self_of w' self).user_id ≡ (self_of w self).user_id
    in_kept : is_authenticated (self_of w' self) ≡ is_authenticated (self_of w self)

  answered-IsFinished :
      (w : World S) (after : FileStore) (self id : ℕ) (t : TransferSession) (state : TransferState)
      (is_ok : Bool) (reason : List ℕ)
      → get_transfer w.transfers id ≡ some t
      → is_accepted_or_receiving state ≡ false
      → ((handle : ℕ) → t.file_handle ≡ some handle → open_stream after.disk handle ≡ fault)
      → IsFinished w
          (answer_done (mark_state (record w { store = after }) id state) self id is_ok reason)
          self
          id
          t
  unfolding answer_done send mark_state self_of
  answered-IsFinished w after self id t state is_ok reason found over shut = record {
    state = state;
    over = over;
    there = mark_state-get_transfer (record w { store = after }) id state t found;
    shut = shut;
    user_kept =
        self_of-send (λ s. s.user_id) (mark_state (record w { store = after }) id state) self _ _
          self (λ s q. refl);
    in_kept =
        is_authenticated-send (mark_state (record w { store = after }) id state) self _ _ self;
  }

  finish_transfer-IsFinished :
      (a : FileAnswers) (w w' : World S) (self : ℕ) (d : FileDone) (t : TransferSession)
      → get_transfer w.transfers d.transfer_id ≡ some t
      → finish_transfer a w self d t ≡ ok w'
      → IsFinished w w' self d.transfer_id t
  unfolding finish_transfer is_accepted_or_receiving
  finish_transfer-IsFinished a w w' self d t found e =
      elim (Result-cases (finalize_file a.renames w.store d.transfer_id t.filename t.file_handle)) [
        | inr (inl (what, thrown)) ↦ absurd (let e1 = rw (thrown, finish_transfer) at e in cc)
        | inr (inr broken) ↦ absurd (let e1 = rw (broken, finish_transfer) at e in cc)
        | inl ((after, true), finalized) ↦
            subst (λ v. IsFinished w v self d.transfer_id t)
              (ok-injective (rw (finalized, finish_transfer) at e))
              (answered-IsFinished w after self d.transfer_id t completed true _ found refl
                (shut after true finalized))
        | inl ((after, false), finalized) ↦
            subst (λ v. IsFinished w v self d.transfer_id t)
              (ok-injective (rw (finalized, finish_transfer) at e))
              (answered-IsFinished w after self d.transfer_id t failed false _ found refl
                (shut after false finalized))
      ]
    where
      shut :
          (after : FileStore) (success : Bool)
          → finalize_file a.renames w.store d.transfer_id t.filename t.file_handle
            ≡ ok (after, success)
          → (handle : ℕ) → t.file_handle ≡ some handle
          → open_stream after.disk handle ≡ fault
      shut after success finalized handle held =
          finalize_file-shut a.renames w.store after d.transfer_id t.filename handle success
            (rw held at finalized)

  pub done_finishes :
      (a : FileAnswers) (w : World S) (self : ℕ) (payload : List ℕ) (d : FileDone)
      (t : TransferSession)
      → is_authenticated (self_of w self) ≡ true
      → FileDone.deserialize little payload ≡ ok d
      → get_transfer w.transfers d.transfer_id ≡ some t
      → t.sender_user_id ≡ (self_of w self).user_id
      → handle_file_done a w self payload ≡ finish_transfer a w self d t
  unfolding handle_file_done done_parsed done_found
  done_finishes a w self payload d t logged parsed found sender =
      rw (logged, parsed, done_parsed, found, done_found, (==_iff _ _).1 sender)

  chunk_after_done :
      (a : FileAnswers) (w : World S) (self : ℕ) (c : FileChunk) (t : TransferSession)
      → is_accepted_or_receiving t.state ≡ false
      → chunk_found a w self c (some t) ≡ ok w
  unfolding chunk_found
  chunk_after_done a w self c t over =
      elim (Bool-cases (t.sender_user_id == (self_of w self).user_id)) [
        | inl sender ↦ rw (sender, over)
        | inr other ↦ rw other
      ]

  module _ (a : FileAnswers) (w w' : World S) (self : ℕ) (payload : List ℕ) (d : FileDone)
      (t : TransferSession) (logged : is_authenticated (self_of w self) ≡ true)
      (parsed : FileDone.deserialize little payload ≡ ok d)
      (found : get_transfer w.transfers d.transfer_id ≡ some t)
      (sender : t.sender_user_id ≡ (self_of w self).user_id)
      (handled : handle_file_done a w self payload ≡ ok w') where
    finished : IsFinished w w' self d.transfer_id t
    finished =
        finish_transfer-IsFinished a w w' self d t found
          (sym (done_finishes a w self payload d t logged parsed found sender) ∙ handled)

    -- After the sender's FILE_DONE for a transfer was handled, a FILE_CHUNK of that transfer, whoever
    -- sends it, changes nothing.
    pub handle_file_chunk-handle_file_done :
        (b : FileAnswers) (from : ℕ) (chunk : List ℕ) (c : FileChunk)
        → FileChunk.deserialize little chunk ≡ ok c
        → c.transfer_id ≡ d.transfer_id
        → handle_file_chunk b w' from chunk ≡ ok w'
    unfolding handle_file_chunk chunk_parsed
    handle_file_chunk-handle_file_done b from chunk c read same =
        elim (Bool-cases (is_authenticated (self_of w' from))) [
          | inr out ↦ rw out
          | inl here ↦
              let there = ap (λ id. get_transfer w'.transfers id) same ∙ finished.there in
              rw (here, read, chunk_parsed, there)
                (chunk_after_done b w' from c (record t { state = finished.state }) finished.over)
        ]

    -- After the sender's FILE_DONE for a transfer with an open file was handled, the same FILE_DONE from
    -- the same session uses the closed file, whatever the system answers.
    pub handle_file_done_twice :
        (b : FileAnswers) (handle : ℕ)
        → t.file_handle ≡ some handle
        → handle_file_done b w' self payload ≡ fault
    unfolding finish_transfer
    handle_file_done_twice b handle held =
        let again : TransferSession = record t { state = finished.state } in
        done_finishes b w' self payload d again (finished.in_kept ∙ logged) parsed finished.there
          (sender ∙ sym finished.user_kept)
        ∙ rw (
          held,
          finalize_file-fault b.renames w'.store d.transfer_id t.filename handle
              (finished.shut handle held),
        )
