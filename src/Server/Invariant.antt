-- ===== src/Server/Invariant.antt =====
-- The states that a server reaches, and what holds in all of them.
use computer_network_final_p.Base.{
  ℕ, ◌≡◌, ◌≢◌, refl, ap, subst, Bool, true, false, Bool-cases, inl, inr, Option, none, some, List,
  ◌==◌, Result, ok, err, fault, Result-cases, ok-injective,
}
use computer_network_final_p.Base.Dict.{nat_eq}
use computer_network_final_p.Wire.{little}
use computer_network_final_p.Protocol.FileChunk.{FileChunk}
use computer_network_final_p.Protocol.FileDone.{FileDone}
use computer_network_final_p.Transfer.{
  completed, failed, TransferState, TransferSession, get_transfer,
}
use computer_network_final_p.FileStore.{FileStore, finalize_file}
use computer_network_final_p.FileStore.Streams.{finalize_file-ok}
use computer_network_final_p.Db.{Services}
use computer_network_final_p.Server.Sessions.{is_authenticated}
use computer_network_final_p.Server.{World, FileAnswers, self_of}
use computer_network_final_p.Server.Access.{send-Keeps}
use computer_network_final_p.Server.Files.{
  is_accepted_or_receiving, answer_done, mark_state, chunk_found, chunk_parsed, handle_file_chunk,
  finish_transfer, done_found, done_parsed, handle_file_done,
}
use computer_network_final_p.Server.Held.{close-Holds}
use computer_network_final_p.Protocol.Safety.{deserialize-ne-fault}
use computer_network_final_p.Server.Keeping.{
  Held, HeldIf, HeldIf-ok, Keeps-Held, failed_is_over, completed_is_over, mark_over-Held,
  store_chunk-Held,
}

module _ {S : Services} where
  chunk_found-Held :
      (a : FileAnswers) (w : World S) (self : ℕ) (c : FileChunk) (o : Option TransferSession)
      → get_transfer w.transfers c.transfer_id ≡ o
      → Held w
      → (w' : World S) × (chunk_found a w self c o ≡ ok w') × Held w'
  unfolding chunk_found
  chunk_found-Held a w self c none e v = (w, refl, v)
  chunk_found-Held a w self c (some t) e v =
      elim (Bool-cases (t.sender_user_id == (self_of w self).user_id)) [
        | inr other ↦ (w, rw other, v)
        | inl sender ↦ elim (Bool-cases (is_accepted_or_receiving t.state)) [
          | inr over ↦ (w, rw (sender, over), v)
          | inl alive ↦
              let (w', stored, v') = store_chunk-Held a w c t e alive v in
              (w', rw (sender, alive) stored, v')
        ]
      ]

  chunk_parsed-Held :
      (a : FileAnswers) (w : World S) (self : ℕ) (r : Result FileChunk)
      → r ≢ fault
      → Held w
      → (w' : World S) × (chunk_parsed a w self r ≡ ok w') × Held w'
  unfolding chunk_parsed
  chunk_parsed-Held a w self fault sound v = absurd (sound refl)
  chunk_parsed-Held a w self (err what) sound v = (w, refl, v)
  chunk_parsed-Held a w self (ok c) sound v = chunk_found-Held a w self c _ refl v

  pub handle_file_chunk-Held :
      (a : FileAnswers) (w : World S) (self : ℕ) (payload : List ℕ)
      → Held w
      → (w' : World S) × (handle_file_chunk a w self payload ≡ ok w') × Held w'
  unfolding handle_file_chunk
  handle_file_chunk-Held a w self payload v =
      elim (Bool-cases (is_authenticated (self_of w self))) [
        | inr out ↦ (w, rw out, v)
        | inl logged ↦
            let (w', handled, v') =
              chunk_parsed-Held a w self _ (deserialize-ne-fault little payload).4 v in
            (w', rw logged handled, v')
      ]

  answer_done-Held :
      (w : World S) (self id : ℕ) (is_ok : Bool) (path_or_reason : List ℕ)
      → Held w
      → Held (answer_done w self id is_ok path_or_reason)
  unfolding answer_done
  answer_done-Held w self id is_ok path_or_reason = Keeps-Held w _ (send-Keeps w self _ _)

  finished-Held :
      (a : FileAnswers) (w : World S) (id : ℕ) (t : TransferSession) (after : FileStore)
      (success : Bool) (state : TransferState) (handle : Option ℕ)
      → t.file_handle ≡ handle
      → get_transfer w.transfers id ≡ some t
      → finalize_file a.renames w.store id t.filename handle ≡ ok (after, success)
      → is_accepted_or_receiving state ≡ false
      → Held w
      → Held (mark_state (record w { store = after }) id state)
  unfolding finalize_file
  finished-Held a w id t after success state none held there e over v =
      let same : w.store ≡ after = ap (λ p. p.0) (ok-injective e) in
      subst (λ s. Held (mark_state (record w { store = s }) id state)) same
        (mark_over-Held w id state over v)
  finished-Held a w id t after success state (some h) held there e over v =
      unfold mark_state in
      (close-Holds w.transfers w.store.disk after.disk id h t state there held
        (finalize_file-ok a.renames w.store after id t.filename h success e) over v)

  finish_transfer-Held :
      (a : FileAnswers) (w : World S) (self : ℕ) (d : FileDone) (t : TransferSession)
      → get_transfer w.transfers d.transfer_id ≡ some t
      → Held w
      → HeldIf (finish_transfer a w self d t)
  unfolding finish_transfer
  finish_transfer-Held a w self d t there v w' e =
      elim (Result-cases (finalize_file a.renames w.store d.transfer_id t.filename t.file_handle)) [
        | inr (inl (what, thrown)) ↦ absurd (let e1 = rw (thrown, finish_transfer) at e in cc)
        | inr (inr broken) ↦ absurd (let e1 = rw (broken, finish_transfer) at e in cc)
        | inl ((after, true), finalized) ↦
            subst Held (ok-injective (rw (finalized, finish_transfer) at e)) (
              answer_done-Held _ self d.transfer_id true _ (
                finished-Held a w d.transfer_id t after true completed _ refl there finalized
                  completed_is_over v))
        | inl ((after, false), finalized) ↦
            subst Held (ok-injective (rw (finalized, finish_transfer) at e)) (
              answer_done-Held _ self d.transfer_id false _ (
                finished-Held a w d.transfer_id t after false failed _ refl there finalized
                  failed_is_over v))
      ]

  done_found-Held :
      (a : FileAnswers) (w : World S) (self : ℕ) (d : FileDone) (o : Option TransferSession)
      → get_transfer w.transfers d.transfer_id ≡ o
      → Held w
      → HeldIf (done_found a w self d o)
  unfolding done_found
  done_found-Held a w self d none e v = HeldIf-ok w v
  done_found-Held a w self d (some t) e v =
      elim (Bool-cases (t.sender_user_id == (self_of w self).user_id)) [
        | inr other ↦ rw other (HeldIf-ok w v)
        | inl sender ↦ rw sender (finish_transfer-Held a w self d t e v)
      ]

  done_parsed-Held :
      (a : FileAnswers) (w : World S) (self : ℕ) (r : Result FileDone)
      → Held w
      → HeldIf (done_parsed a w self r)
  unfolding done_parsed
  done_parsed-Held a w self fault v = λ w' e. absurd cc
  done_parsed-Held a w self (err what) v = HeldIf-ok w v
  done_parsed-Held a w self (ok d) v = done_found-Held a w self d _ refl v

  pub handle_file_done-Held :
      (a : FileAnswers) (w : World S) (self : ℕ) (payload : List ℕ)
      → Held w
      → HeldIf (handle_file_done a w self payload)
  unfolding handle_file_done
  handle_file_done-Held a w self payload v = elim (Bool-cases (is_authenticated (self_of w self))) [
    | inr out ↦ rw out (HeldIf-ok w v)
    | inl logged ↦ rw logged (done_parsed-Held a w self _ v)
  ]
