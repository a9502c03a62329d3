-- ===== src/Server/Keeping.antt =====
-- Every handler keeps what the transfers and the streams promise each other.
use computer_network_final_p.Base.{
  some-injective, ℕ, ◌+◌, ◌≡◌, refl, sym, ap, ◌∙◌, subst, ◌⊎◌, Bool, true, false, Bool-cases, inl,
  inr, Option, none, some, Option-cases, List, [], length, c_str, ◌&&◌, ◌==◌, Result, ok, err,
  fault, ok-injective, text,
}
use computer_network_final_p.Base.Dict.{nat_eq}
use computer_network_final_p.Protocol.FileAcceptReq.{FileAcceptReq}
use computer_network_final_p.Protocol.FileChunk.{FileChunk}
use computer_network_final_p.Transfer.{
  accepted, completed, failed, TransferState, TransferSession, get_transfer, adjust_session,
  mark_chunk_received,
}
use computer_network_final_p.FileStore.{
  FileStore, DirectoryAnswer, ensure_directory, get_temp_path, open_for_write,
}
use computer_network_final_p.FileStore.Files.{fopen_wb}
use computer_network_final_p.FileStore.Streams.{IsOpen, Opens, fopen-Opens, write_chunk-Opens}
use computer_network_final_p.Db.{Services}
use computer_network_final_p.Server.Sessions.{is_authenticated, get_session}
use computer_network_final_p.Server.{World, FileAnswers, self_of}
use computer_network_final_p.Server.Access.{Keeps, answer_accept-Keeps}
use computer_network_final_p.Server.Files.{
  is_accepted_or_receiving, answer_accept, notify_sender, mark_state, accept_opened, accept_offer,
  reject_offer, accept_found, accept_parsed, handle_file_accept_req, store_chunk,
}
use computer_network_final_p.Server.Handles.{
  Holds, Opens-Holds, changed_cases, update_state-Holds, mark_chunk_received-Holds,
}
use computer_network_final_p.Server.Held.{hold_new-Holds}

pub failed_is_over : is_accepted_or_receiving failed ≡ false
unfolding is_accepted_or_receiving
failed_is_over = refl

pub completed_is_over : is_accepted_or_receiving completed ≡ false
unfolding is_accepted_or_receiving
completed_is_over = refl

open_for_write_cases :
    (a : DirectoryAnswer) (opens : Bool) (store : FileStore) (id : ℕ) (filename : List ℕ)
    → ((after : FileStore) × (open_for_write a opens store id filename
          ≡ (after, some store.disk.next_stream))
        × Opens store.disk after.disk
        × (after.disk.next_stream ≡ store.disk.next_stream + 1)
        × IsOpen after.disk.streams store.disk.next_stream)
      ⊎ (open_for_write a opens store id filename ≡ (store, none))
unfolding open_for_write
open_for_write_cases a opens store id filename =
    let path = c_str (get_temp_path store.base_path id filename) in
    let (kept, given, next, fresh) = fopen-Opens store.disk path in
    elim (Bool-cases (ensure_directory a && opens)) [
      | inl good ↦ inl (
        record store { disk = (fopen_wb store.disk path).0 },
        rw (good, given),
        kept,
        next,
        fresh,
      )
      | inr bad ↦ inr (rw bad)
    ]

module _ {S : Services} where
  abbrev pub Held : World S → Type 0
  Held w = Holds w.transfers w.store.disk

  -- The outcome of a handler that returns.
  abbrev pub HeldIf : Result (World S) → Type 0
  HeldIf r = (w' : World S) → r ≡ ok w' → Held w'

  pub HeldIf-ok : (w : World S) → Held w → HeldIf (ok w)
  HeldIf-ok w v w' e = subst Held (ok-injective e) v

  pub Keeps-Held : (w w' : World S) → Keeps w w' → Held w → Held w'
  Keeps-Held w w' k v = rw (k.transfers_kept, k.store_kept) v

  answer_accept-Held :
      (w : World S) (to : ℕ) (is_ok : Bool) (reason : List ℕ)
      → Held w
      → Held (answer_accept w to is_ok reason)
  answer_accept-Held w to is_ok reason =
      Keeps-Held w (answer_accept w to is_ok reason) (answer_accept-Keeps w to is_ok reason)

  notify_sender-Held :
      (w : World S) (t : TransferSession) (is_ok : Bool) (reason : List ℕ)
      → Held w
      → Held (notify_sender w t is_ok reason)
  unfolding notify_sender
  notify_sender-Held w t is_ok reason v = elim (Bool-cases (length t.sender_token == 0)) [
    | inl unnamed ↦ rw unnamed v
    | inr named ↦ elim (Option-cases (get_session w.sessions w.objects t.sender_token)) [
      | inl gone ↦ rw (named, gone) v
      | inr (sender, there) ↦ rw (named, there) (answer_accept-Held w sender is_ok reason v)
    ]
  ]

  -- A state in which no chunk is taken.
  pub mark_over-Held :
      (w : World S) (id : ℕ) (state : TransferState)
      → is_accepted_or_receiving state ≡ false
      → Held w
      → Held (mark_state w id state)
  unfolding mark_state
  mark_over-Held w id state over v =
      update_state-Holds w.transfers w.store.disk id state (λ t there alive. absurd cc) v

  mark_accepted-Held :
      (w : World S) (store : FileStore) (id : ℕ) (t : TransferSession)
      → get_transfer w.transfers id ≡ some t
      → Opens w.store.disk store.disk
      → store.disk.next_stream ≡ w.store.disk.next_stream + 1
      → IsOpen store.disk.streams w.store.disk.next_stream
      → Held w
      → Held (
          mark_state
            (record w {
              store = store;
              transfers =
                  adjust_session w.transfers id
                    λ t. record t { file_handle = some w.store.disk.next_stream };
            })
            id
            accepted)
  unfolding mark_state
  mark_accepted-Held w store id t there opens next fresh v =
      let h = w.store.disk.next_stream in
      let f : TransferSession → TransferSession = λ t. record t { file_handle = some h } in
      update_state-Holds (adjust_session w.transfers id f) store.disk id accepted
        (λ s found alive. elim (changed_cases w.transfers id f t there id s found) [
          | inl (here, e) ↦ (h, ap (λ x. x.file_handle) e, fresh)
          | inr (other, old) ↦ absurd (other refl)
        ])
        (hold_new-Holds w.transfers w.store.disk store.disk id t there opens next fresh v)

  accept_opened-Held :
      (w : World S) (self id : ℕ) (t : TransferSession) (store : FileStore)
      → get_transfer w.transfers id ≡ some t
      → Opens w.store.disk store.disk
      → store.disk.next_stream ≡ w.store.disk.next_stream + 1
      → IsOpen store.disk.streams w.store.disk.next_stream
      → Held w
      → Held (accept_opened w self id t (store, some w.store.disk.next_stream))
  unfolding accept_opened
  accept_opened-Held w self id t store there opens next fresh v =
      answer_accept-Held _ self true []
        (notify_sender-Held _ t true [] (mark_accepted-Held w store id t there opens next fresh v))

  accept_offer-Held :
      (a : FileAnswers) (w : World S) (self id : ℕ) (t : TransferSession)
      → get_transfer w.transfers id ≡ some t
      → Held w
      → Held (accept_offer a w self id t)
  unfolding accept_offer
  accept_offer-Held a w self id t there v =
      elim (open_for_write_cases a.directory a.opens w.store id t.filename) [
        | inl (store, opened, opens, next, fresh) ↦
            subst (λ r. Held (accept_opened w self id t r)) (sym opened)
              (accept_opened-Held w self id t store there opens next fresh v)
        | inr closed ↦
            subst (λ r. Held (accept_opened w self id t r)) (sym closed)
              (unfold accept_opened in
                (answer_accept-Held (mark_state w id failed) self false _
                  (mark_over-Held w id failed failed_is_over v)))
      ]

  reject_offer-Held :
      (w : World S) (self id : ℕ) (t : TransferSession) → Held w → Held (reject_offer w self id t)
  unfolding reject_offer
  reject_offer-Held w self id t v = answer_accept-Held _ self true [] (
      notify_sender-Held _ t false (text "Receiver rejected")
        (mark_over-Held w id failed failed_is_over v))

  accept_found-Held :
      (a : FileAnswers) (w : World S) (self : ℕ) (req : FileAcceptReq) (o : Option TransferSession)
      → get_transfer w.transfers req.transfer_id ≡ o
      → Held w
      → Held (accept_found a w self req o)
  unfolding accept_found
  accept_found-Held a w self req none e v = answer_accept-Held w self false _ v
  accept_found-Held a w self req (some t) e v =
      elim (Bool-cases (t.receiver_user_id == (self_of w self).user_id)) [
        | inr other ↦ rw other (answer_accept-Held w self false _ v)
        | inl receiver ↦ elim (Bool-cases req.accept) [
          | inl accepts ↦ rw (receiver, accepts) (accept_offer-Held a w self req.transfer_id t e v)
          | inr rejects ↦ rw (receiver, rejects) (reject_offer-Held w self req.transfer_id t v)
        ]
      ]

  accept_parsed-Held :
      (a : FileAnswers) (w : World S) (self : ℕ) (r : Result FileAcceptReq)
      → Held w
      → HeldIf (accept_parsed a w self r)
  unfolding accept_parsed
  accept_parsed-Held a w self fault v = λ w' e. absurd cc
  accept_parsed-Held a w self (err what) v = HeldIf-ok _ (answer_accept-Held w self false _ v)
  accept_parsed-Held a w self (ok req) v = HeldIf-ok _ (accept_found-Held a w self req _ refl v)

  pub handle_file_accept_req-Held :
      (a : FileAnswers) (w : World S) (self : ℕ) (payload : List ℕ)
      → Held w
      → HeldIf (handle_file_accept_req a w self payload)
  unfolding handle_file_accept_req
  handle_file_accept_req-Held a w self payload v =
      elim (Bool-cases (is_authenticated (self_of w self))) [
        | inr out ↦ rw out (HeldIf-ok _ (answer_accept-Held w self false _ v))
        | inl logged ↦ rw logged (accept_parsed-Held a w self _ v)
      ]

  -- A chunk of a live transfer is handled without a fault.
  pub store_chunk-Held :
      (a : FileAnswers) (w : World S) (c : FileChunk) (t : TransferSession)
      → get_transfer w.transfers c.transfer_id ≡ some t
      → is_accepted_or_receiving t.state ≡ true
      → Held w
      → (w' : World S) × (store_chunk a w c t ≡ ok w') × Held w'
  unfolding store_chunk mark_state
  store_chunk-Held a w c t there alive v =
      let (h, held, open_h) = v.live c.transfer_id t there alive in
      let (after, result, wrote, opens) =
        write_chunk-Opens a.write w.store t.file_handle c.bytes
          (λ k e. subst (IsOpen w.store.disk.streams) (some-injective h k (sym held ∙ e)) open_h) in
      let v1 = Opens-Holds w.transfers w.store.disk after.disk opens v in
      elim (Option-cases result) [
        | inl short ↦ (
          mark_state (record w { store = after }) c.transfer_id failed,
          rw (wrote, short),
          mark_over-Held (record w { store = after }) c.transfer_id failed failed_is_over v1,
        )
        | inr (n, whole) ↦ (
          record w {
            store = after;
            transfers =
                (mark_chunk_received w.transfers c.transfer_id c.chunk_index (length c.bytes)).0;
          },
          rw (wrote, whole),
          mark_chunk_received-Holds w.transfers after.disk c.transfer_id c.chunk_index
              (length c.bytes) v1,
        )
      ]
