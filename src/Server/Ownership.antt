-- ===== src/Server/Ownership.antt =====
-- Whose messages change a transfer or its file.
use computer_network_final_p.Base.{
  ℕ, ◌≡◌, ◌≢◌, refl, sym, ◌∙◌, ◌⊎◌, inl, inr, true, false, Bool-cases, Option, none, some, List,
  ◌==◌, ==_iff, Result, ok, err, fault, text,
}
use computer_network_final_p.Wire.{little}
use computer_network_final_p.Protocol.FileAcceptReq
use computer_network_final_p.Protocol.FileAcceptReq.{FileAcceptReq}
use computer_network_final_p.Protocol.FileChunk
use computer_network_final_p.Protocol.FileChunk.{FileChunk}
use computer_network_final_p.Protocol.FileDone
use computer_network_final_p.Protocol.FileDone.{FileDone}
use computer_network_final_p.Protocol.Safety.{deserialize-ne-fault}
use computer_network_final_p.Transfer.{TransferSession, get_transfer}
use computer_network_final_p.Db.{Services}
use computer_network_final_p.Server.Sessions.{is_authenticated}
use computer_network_final_p.Server.{World, FileAnswers, self_of}
use computer_network_final_p.Server.Files.{
  answer_accept, is_accepted_or_receiving, handle_file_accept_req, accept_parsed, accept_found,
  handle_file_chunk, chunk_parsed, chunk_found, store_chunk, handle_file_done, done_parsed,
  done_found, finish_transfer,
}
use computer_network_final_p.Server.Access.{Keeps, answer_accept-Keeps, KeepsIf-ok}

module _ {S : Services} where
  chunk_found_cases :
      (a : FileAnswers) (w : World S) (self : ℕ) (c : FileChunk) (o : Option TransferSession)
      → chunk_found a w self c o ≢ ok w
      → (t : TransferSession) × (o ≡ some t)
        × (t.sender_user_id ≡ (self_of w self).user_id)
        × (is_accepted_or_receiving t.state ≡ true)
        × (chunk_found a w self c o ≡ store_chunk a w c t)
  unfolding chunk_found
  chunk_found_cases a w self c none changed = absurd (changed refl)
  chunk_found_cases a w self c (some t) changed =
      elim (Bool-cases (t.sender_user_id == (self_of w self).user_id)) [
        | inr other ↦ absurd (changed (rw other))
        | inl sender ↦ elim (Bool-cases (is_accepted_or_receiving t.state)) [
          | inr closed ↦ absurd (changed (rw (sender, closed)))
          | inl live ↦ (t, refl, (==_iff _ _).0 sender, live, rw (sender, live))
        ]
      ]

  chunk_parsed_cases :
      (a : FileAnswers) (w : World S) (self : ℕ) (r : Result FileChunk)
      → r ≢ fault
      → chunk_parsed a w self r ≢ ok w
      → (c : FileChunk) × (t : TransferSession) × (r ≡ ok c)
        × (get_transfer w.transfers c.transfer_id ≡ some t)
        × (t.sender_user_id ≡ (self_of w self).user_id)
        × (is_accepted_or_receiving t.state ≡ true)
        × (chunk_parsed a w self r ≡ store_chunk a w c t)
  unfolding chunk_parsed
  chunk_parsed_cases a w self fault sound changed = absurd (sound refl)
  chunk_parsed_cases a w self (err what) sound changed = absurd (changed refl)
  chunk_parsed_cases a w self (ok c) sound changed =
      let (t, found, sender, live, e) = chunk_found_cases a w self c _ changed in
      (c, t, refl, found, sender, live, e)

  -- A chunk is written or counted only for the logged-in sender of a transfer that was accepted: any
  -- other FILE_CHUNK leaves everything as it was.
  pub handle_file_chunk_cases :
      (a : FileAnswers) (w : World S) (self : ℕ) (payload : List ℕ)
      → handle_file_chunk a w self payload ≢ ok w
      → (c : FileChunk) × (t : TransferSession) × (is_authenticated (self_of w self) ≡ true)
        × (FileChunk.deserialize little payload ≡ ok c)
        × (get_transfer w.transfers c.transfer_id ≡ some t)
        × (t.sender_user_id ≡ (self_of w self).user_id)
        × (is_accepted_or_receiving t.state ≡ true)
        × (handle_file_chunk a w self payload ≡ store_chunk a w c t)
  handle_file_chunk_cases a w self payload changed =
      elim (Bool-cases (is_authenticated (self_of w self))) [
        | inr out ↦ absurd (changed (unfold handle_file_chunk in (rw out)))
        | inl logged ↦
            let opened : handle_file_chunk a w self payload
                ≡ chunk_parsed a w self (FileChunk.deserialize little payload) =
              unfold handle_file_chunk in (rw logged) in
            let (c, t, parsed, found, sender, live, e) =
              chunk_parsed_cases a w self _ (deserialize-ne-fault little payload).4
                (λ h. changed (opened ∙ h)) in
            (c, t, logged, parsed, found, sender, live, opened ∙ e)
      ]

  -- What an accept that changes a transfer or a file rests on.
  AcceptedBy : World S → ℕ → FileAcceptReq → Type 0
  AcceptedBy w self req =
      (t : TransferSession) × (get_transfer w.transfers req.transfer_id ≡ some t)
      × (t.receiver_user_id ≡ (self_of w self).user_id)

  accept_found_cases :
      (a : FileAnswers) (w : World S) (self : ℕ) (req : FileAcceptReq) (o : Option TransferSession)
      → get_transfer w.transfers req.transfer_id ≡ o
      → Keeps w (accept_found a w self req o) ⊎ AcceptedBy w self req
  unfolding accept_found AcceptedBy
  accept_found_cases a w self req none e = inl (answer_accept-Keeps w self _ _)
  accept_found_cases a w self req (some t) e =
      elim (Bool-cases (t.receiver_user_id == (self_of w self).user_id)) [
        | inr other ↦ rw other (inl (answer_accept-Keeps w self _ _))
        | inl receiver ↦ inr (t, e, (==_iff _ _).0 receiver)
      ]

  accept_parsed_cases :
      (a : FileAnswers) (w w' : World S) (self : ℕ) (r : Result FileAcceptReq)
      → accept_parsed a w self r ≡ ok w'
      → Keeps w w' ⊎ ((req : FileAcceptReq) × (r ≡ ok req) × AcceptedBy w self req)
  unfolding accept_parsed
  accept_parsed_cases a w w' self fault e = absurd cc
  accept_parsed_cases a w w' self (err what) e =
      inl (KeepsIf-ok w _ (answer_accept-Keeps w self _ _) w' e)
  accept_parsed_cases a w w' self (ok req) e = elim (accept_found_cases a w self req _ refl) [
    | inl k ↦ inl (KeepsIf-ok w _ k w' e)
    | inr by ↦ inr (req, refl, by)
  ]

  -- A FILE_ACCEPT_REQ that is handled either leaves all transfers and files as they were, or it comes
  -- from a session that is logged in, it parses, and it names a transfer that is there and whose
  -- receiver is that session's user.
  pub handle_file_accept_req_cases :
      (a : FileAnswers) (w w' : World S) (self : ℕ) (payload : List ℕ)
      → handle_file_accept_req a w self payload ≡ ok w'
      → ((w'.transfers ≡ w.transfers) × (w'.store ≡ w.store))
        ⊎ ((req : FileAcceptReq) × (t : TransferSession) × (is_authenticated (self_of w self)
              ≡ true)
            × (FileAcceptReq.deserialize little payload ≡ ok req)
            × (get_transfer w.transfers req.transfer_id ≡ some t)
            × (t.receiver_user_id ≡ (self_of w self).user_id))
  unfolding AcceptedBy
  handle_file_accept_req_cases a w w' self payload e =
      elim (Bool-cases (is_authenticated (self_of w self))) [
        | inr out ↦
            let refused : handle_file_accept_req a w self payload
                ≡ ok (answer_accept w self false (text "Not authenticated")) =
              unfold handle_file_accept_req in (rw out) in
            let k = KeepsIf-ok w _ (answer_accept-Keeps w self _ _) w' (sym refused ∙ e) in
            inl (k.transfers_kept, k.store_kept)
        | inl logged ↦
            let opened : handle_file_accept_req a w self payload
                ≡ accept_parsed a w self (FileAcceptReq.deserialize little payload) =
              unfold handle_file_accept_req in (rw logged) in
            elim (accept_parsed_cases a w w' self _ (sym opened ∙ e)) [
              | inl k ↦ inl (k.transfers_kept, k.store_kept)
              | inr (req, parsed, (t, found, receiver)) ↦
                  inr (req, t, logged, parsed, found, receiver)
            ]
      ]

  done_found_cases :
      (a : FileAnswers) (w : World S) (self : ℕ) (d : FileDone) (o : Option TransferSession)
      → done_found a w self d o ≢ ok w
      → (t : TransferSession) × (o ≡ some t)
        × (t.sender_user_id ≡ (self_of w self).user_id)
        × (done_found a w self d o ≡ finish_transfer a w self d t)
  unfolding done_found
  done_found_cases a w self d none changed = absurd (changed refl)
  done_found_cases a w self d (some t) changed =
      elim (Bool-cases (t.sender_user_id == (self_of w self).user_id)) [
        | inr other ↦ absurd (changed (rw other))
        | inl sender ↦ (t, refl, (==_iff _ _).0 sender, rw sender)
      ]

  done_parsed_cases :
      (a : FileAnswers) (w : World S) (self : ℕ) (r : Result FileDone)
      → r ≢ fault
      → done_parsed a w self r ≢ ok w
      → (d : FileDone) × (t : TransferSession) × (r ≡ ok d)
        × (get_transfer w.transfers d.transfer_id ≡ some t)
        × (t.sender_user_id ≡ (self_of w self).user_id)
        × (done_parsed a w self r ≡ finish_transfer a w self d t)
  unfolding done_parsed
  done_parsed_cases a w self fault sound changed = absurd (sound refl)
  done_parsed_cases a w self (err what) sound changed = absurd (changed refl)
  done_parsed_cases a w self (ok d) sound changed =
      let (t, found, sender, e) = done_found_cases a w self d _ changed in
      (d, t, refl, found, sender, e)

  -- A FILE_DONE whose payload is not read outside its bounds finishes a transfer only for the
  -- logged-in sender of a transfer that is there: any other leaves everything as it was.
  pub handle_file_done_cases :
      (a : FileAnswers) (w : World S) (self : ℕ) (payload : List ℕ)
      → FileDone.deserialize little payload ≢ fault
      → handle_file_done a w self payload ≢ ok w
      → (d : FileDone) × (t : TransferSession) × (is_authenticated (self_of w self) ≡ true)
        × (FileDone.deserialize little payload ≡ ok d)
        × (get_transfer w.transfers d.transfer_id ≡ some t)
        × (t.sender_user_id ≡ (self_of w self).user_id)
        × (handle_file_done a w self payload ≡ finish_transfer a w self d t)
  handle_file_done_cases a w self payload sound changed =
      elim (Bool-cases (is_authenticated (self_of w self))) [
        | inr out ↦ absurd (changed (unfold handle_file_done in (rw out)))
        | inl logged ↦
            let opened : handle_file_done a w self payload
                ≡ done_parsed a w self (FileDone.deserialize little payload) =
              unfold handle_file_done in (rw logged) in
            let (d, t, parsed, found, sender, e) =
              done_parsed_cases a w self _ sound (λ h. changed (opened ∙ h)) in
            (d, t, logged, parsed, found, sender, opened ∙ e)
      ]
