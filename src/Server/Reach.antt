-- ===== src/Server/Reach.antt =====
-- What holds in every world that the server reaches: the files of the transfers, and the messages that use
-- them.
use computer_network_final_p.Base.{
  ℕ, ◌≡◌, ◌≢◌, sym, ap, ◌∙◌, subst, ◌⊎◌, Bool, true, false, Bool-cases, inl, inr, some,
  Option-cases, List, ◌==◌, ==_iff, if◌then◌else◌, ok, fault, Result-cases, text,
}
use native.Mathlib.Decide.{ℕ_discrete}
use computer_network_final_p.Base.Dict.{find, nat_eq}
use computer_network_final_p.Wire.{little}
use computer_network_final_p.Protocol.FileDone
use computer_network_final_p.Protocol.FileDone.{FileDone}
use computer_network_final_p.Transfer.{completed, failed, TransferSession, init, get_transfer}
use computer_network_final_p.FileStore.Streams.{IsOpen, finalize_file-Closes}
use computer_network_final_p.Db.{Services}
use computer_network_final_p.Server.Sessions.{is_authenticated}
use computer_network_final_p.Server.{World, FileAnswers, self_of, drop_auth}
use computer_network_final_p.Server.Files.{
  is_accepted_or_receiving, handle_file_chunk, handle_file_done, done_parsed, done_found,
  finish_transfer, answer_done, mark_state,
}
use computer_network_final_p.FileStore.{FileStore, finalize_file}
use computer_network_final_p.Server.Finishing.{done_finishes}
use computer_network_final_p.Server.Handles.{Holds}
use computer_network_final_p.Server.Keeping.{Held}
use computer_network_final_p.Server.Invariant.{handle_file_chunk-Held}
use computer_network_final_p.Server.Reachable.{handle_message-Held}
use computer_network_final_p.Server.Dispatch.{accept_connection, destroy}
use computer_network_final_p.Server.Steps.{Reach, IsKept, Reach-induction}

module _ {S : Services} where
  drop_auth-Held : (w : World S) (self : ℕ) → Held w → Held (drop_auth w self)
  unfolding drop_auth
  drop_auth-Held w self v = elim (Bool-cases (is_authenticated (self_of w self))) [
    | inl here ↦ rw here v
    | inr out ↦ rw out v
  ]

  Held-IsKept : (first : World S) → IsKept first Held
  unfolding accept_connection destroy
  Held-IsKept first = record {
    handled = λ read a w self type payload r v. handle_message-Held read a w self type payload v;
    dropped = λ w self v. drop_auth-Held w self v;
    popped = λ w id v. v;
    connected = λ w id v. v;
    gone = λ w id v. v;
  }

  Reach-Holds : {first w : World S} → Reach first w → Holds w.transfers w.store.disk
  unfolding init get_transfer find
  Reach-Holds {first} {w} r =
      Reach-induction first Held (Held-IsKept first)
        (λ fresh. rw fresh (record {
          live = λ id t found alive. absurd cc;
          apart = λ i j h s t found_i found_j held_i held_j. absurd cc;
          below = λ id h t found held. absurd cc;
        }))
        r

  -- In every world that the server reaches by steps without a fault, such as the use of a closed
  -- stream, two transfers that are accepted or receiving each have a file handle whose stream is
  -- open, and they are the same transfer or the handles differ.
  pub Reach-Held :
      {first w : World S} (r : Reach first w) (i j : ℕ) (s t : TransferSession)
      → get_transfer w.transfers i ≡ some s
      → get_transfer w.transfers j ≡ some t
      → is_accepted_or_receiving s.state ≡ true
      → is_accepted_or_receiving t.state ≡ true
      → (h : ℕ) × (k : ℕ) × (s.file_handle ≡ some h)
        × IsOpen w.store.disk.streams h
        × (t.file_handle ≡ some k)
        × IsOpen w.store.disk.streams k
        × ((i ≡ j) ⊎ (h ≢ k))
  Reach-Held {first} {w} r i j s t found_i found_j alive_i alive_j =
      let v = Reach-Holds r in
      let (h, held_h, open_h) = v.live i s found_i alive_i in
      let (k, held_k, open_k) = v.live j t found_j alive_j in
      (
        h,
        k,
        held_h,
        open_h,
        held_k,
        open_k,
        elim (ℕ_discrete i j) [
          | yes same ↦ inl same
          | no other ↦
              inr (λ e. other (v.apart i j h s t found_i found_j held_h (held_k ∙ ap some (sym e))))
        ],
      )

  -- In every world that the server reaches, a FILE_CHUNK is handled without a fault, whoever sends it,
  -- whatever its payload is, and whatever the system answers.
  handle_file_chunk-Reach :
      {first w : World S} (r : Reach first w) (a : FileAnswers) (self : ℕ) (payload : List ℕ)
      → (w' : World S) × (handle_file_chunk a w self payload ≡ ok w')
  handle_file_chunk-Reach {first} {w} r a self payload =
      let (w', handled, v) = handle_file_chunk-Held a w self payload (Reach-Holds r) in
      (w', handled)

  finish_transfer-returns :
      (a : FileAnswers) (w : World S) (self : ℕ) (d : FileDone) (t : TransferSession)
      (after : FileStore) (success : Bool)
      → finalize_file a.renames w.store d.transfer_id t.filename t.file_handle ≡ ok (after, success)
      → (w' : World S) × (finish_transfer a w self d t ≡ ok w')
  unfolding finish_transfer
  finish_transfer-returns a w self d t after success finalized =
      let marked : World S = record w { store = after } in
      (
        (if success
            then answer_done (mark_state marked d.transfer_id completed) self d.transfer_id true
                t.final_file_path
            else answer_done (mark_state marked d.transfer_id failed) self d.transfer_id false
                (text "Failed to finalize file")),
        rw finalized,
      )

  -- In every world that the server reaches, a FILE_DONE of the logged-in sender that parses and names
  -- a transfer that is accepted or receiving is handled without a fault.
  handle_file_done-Reach :
      {first w : World S} (r : Reach first w) (a : FileAnswers) (self : ℕ) (payload : List ℕ)
      (d : FileDone) (t : TransferSession)
      → is_authenticated (self_of w self) ≡ true
      → FileDone.deserialize little payload ≡ ok d
      → get_transfer w.transfers d.transfer_id ≡ some t
      → t.sender_user_id ≡ (self_of w self).user_id
      → is_accepted_or_receiving t.state ≡ true
      → (w' : World S) × (handle_file_done a w self payload ≡ ok w')
  handle_file_done-Reach {first} {w} r a self payload d t logged parsed found sender alive =
      let (h, held, usable) = (Reach-Holds r).live d.transfer_id t found alive in
      let (after, success, finalized, closes) =
        finalize_file-Closes a.renames w.store d.transfer_id t.filename h usable in
      let (w', finished) = finish_transfer-returns a w self d t after success (
        subst
          (λ k. finalize_file a.renames w.store d.transfer_id t.filename k ≡ ok (after, success))
          (sym held) finalized) in
      (w', done_finishes a w self payload d t logged parsed found sender ∙ finished)

  -- What a FILE_DONE can be that is not handled: it is read outside its payload, or it is the sender's for a
  -- transfer that is neither accepted nor receiving.
  abbrev pub IsMisplaced : World S → ℕ → List ℕ → Type 0
  IsMisplaced w self payload =
      (FileDone.deserialize little payload ≡ fault)
      ⊎ ((d : FileDone) × (t : TransferSession) × (FileDone.deserialize little payload ≡ ok d)
          × (get_transfer w.transfers d.transfer_id ≡ some t)
          × (t.sender_user_id ≡ (self_of w self).user_id)
          × (is_accepted_or_receiving t.state ≡ false))

  handle_file_done-Reach_cases :
      {first w : World S} (r : Reach first w) (a : FileAnswers) (self : ℕ) (payload : List ℕ)
      → ((w' : World S) × (handle_file_done a w self payload ≡ ok w')) ⊎ IsMisplaced w self payload
  unfolding handle_file_done done_parsed done_found
  handle_file_done-Reach_cases {first} {w} r a self payload =
      elim (Bool-cases (is_authenticated (self_of w self))) [
        | inr out ↦ inl (w, rw out)
        | inl logged ↦ elim (Result-cases (FileDone.deserialize little payload)) [
          | inr (inr broken) ↦ inr (inl broken)
          | inr (inl (what, bad)) ↦ inl (w, rw (logged, bad))
          | inl (d, parsed) ↦ elim (Option-cases (get_transfer w.transfers d.transfer_id)) [
            | inl missing ↦ inl (w, rw (logged, parsed, missing))
            | inr (t, found) ↦ elim (Bool-cases (t.sender_user_id == (self_of w self).user_id)) [
              | inr other ↦ inl (w, rw (logged, parsed, found, other))
              | inl same ↦
                  let sender = (==_iff _ _).0 same in
                  elim (Bool-cases (is_accepted_or_receiving t.state)) [
                    | inr over ↦ inr (inr (d, t, parsed, found, sender, over))
                    | inl alive ↦ inl (
                        handle_file_done-Reach r a self payload d t logged parsed found sender
                          alive)
                  ]
            ]
          ]
        ]
      ]

  -- In every world that the server reaches by steps without a fault, a FILE_CHUNK is handled
  -- without a fault, whoever sends it, whatever its payload is, and whatever the system answers;
  -- and so is a FILE_DONE, unless its payload is read outside or its sender is that of a transfer
  -- that it names and that is neither accepted nor receiving.
  pub handle_file_messages-Reach :
      {first w : World S} (r : Reach first w) (a : FileAnswers) (self : ℕ) (payload : List ℕ)
      → ((w' : World S) × (handle_file_chunk a w self payload ≡ ok w'))
        × (((w' : World S) × (handle_file_done a w self payload ≡ ok w'))
            ⊎ IsMisplaced w self payload)
  handle_file_messages-Reach r a self payload =
      (handle_file_chunk-Reach r a self payload, handle_file_done-Reach_cases r a self payload)
