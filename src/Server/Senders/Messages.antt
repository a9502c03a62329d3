-- ===== src/Server/Senders/Messages.antt =====
-- The handlers of the messages, and what holds of the senders of all transfers.
use computer_network_final_p.Base.{
  ℕ, ◌≡◌, sym, subst, Bool, true, false, Bool-cases, inl, inr, Option, none, some, Option-cases,
  List, [], length, ◌==◌, Result, Result-cases, ok, err, fault, ok-injective,
}
use computer_network_final_p.Base.Dict.{nat_eq}
use computer_network_final_p.Protocol.FileOfferReq.{FileOfferReq}
use computer_network_final_p.Protocol.FileAcceptReq.{FileAcceptReq}
use computer_network_final_p.Protocol.FileChunk.{FileChunk}
use computer_network_final_p.Protocol.FileDone.{FileDone}
use computer_network_final_p.Protocol.Message.{
  MsgType, ping, register_req, login_req, online_list_req, file_offer_req, file_accept_req,
  file_chunk, file_done,
}
use computer_network_final_p.Transfer.{TransferState, TransferSession, create_transfer}
use computer_network_final_p.FileStore.{FileStore, write_chunk, finalize_file}
use computer_network_final_p.Auth.PasswordHash.{HexReader}
use computer_network_final_p.Db.{Services}
use computer_network_final_p.Db.Users.{UserRow}
use computer_network_final_p.Server.Sessions.{is_authenticated, get_session}
use computer_network_final_p.Server.{World, FileAnswers, self_of, send}
use computer_network_final_p.Server.Access.{register_parsed-Keeps, login_parsed-Keeps}
use computer_network_final_p.Server.Offers.{
  offer_of, answer_offer, offer_to, offer_found, offer_parsed, handle_file_offer_req,
}
use computer_network_final_p.Server.Files.{
  is_accepted_or_receiving, answer_accept, answer_done, notify_sender, mark_state, accept_opened,
  accept_offer, reject_offer, accept_found, accept_parsed, handle_file_accept_req, store_chunk,
  chunk_found, chunk_parsed, handle_file_chunk, finish_transfer, done_found, done_parsed,
  handle_file_done,
}
use computer_network_final_p.Server.Dispatch.{handle_message, handle_online_list}
use computer_network_final_p.Server.Senders.{
  OfSenders, adjust_session-OfSenders, update_state-OfSenders, mark_chunk_received-OfSenders,
  create_transfer-OfSenders,
}

module _ {S : Services} (Q : ℕ → List ℕ → List ℕ → Type 0) where
  abbrev Senders : World S → Type 0
  Senders w = OfSenders Q w.transfers

  -- The outcome of a handler that returns.
  abbrev SendersIf : Result (World S) → Type 0
  SendersIf r = (w' : World S) → r ≡ ok w' → Senders w'

  SendersIf-ok : (w : World S) → Senders w → SendersIf (ok w)
  SendersIf-ok w v w' e = subst Senders (ok-injective e) v

  send-Senders :
      (w : World S) (id : ℕ) (type : MsgType) (payload : List ℕ)
      → Senders w
      → Senders (send w id type payload)
  unfolding send
  send-Senders w id type payload v = v

  -- What the sender of an offer has to have.
  abbrev pub Offers : World S → ℕ → Type 0
  Offers w self =
      is_authenticated (self_of w self) ≡ true
      → Q ((self_of w self).user_id) ((self_of w self).username) ((self_of w self).token)

  offer_found-Senders :
      (w : World S) (self : ℕ) (req : FileOfferReq) (r : Result (Option UserRow))
      → Q ((self_of w self).user_id) ((self_of w self).username) ((self_of w self).token)
      → Senders w
      → SendersIf (offer_found w self req r)
  unfolding offer_found offer_to answer_offer offer_of
  offer_found-Senders w self req fault q v = λ w' e. absurd cc
  offer_found-Senders w self req (err what) q v = SendersIf-ok _ (send-Senders w self _ _ v)
  offer_found-Senders w self req (ok none) q v = SendersIf-ok _ (send-Senders w self _ _ v)
  offer_found-Senders w self req (ok (some receiver)) q v =
      let offer = offer_of (self_of w self) req receiver in
      let (manager, id) = create_transfer w.transfers offer in
      let created = create_transfer-OfSenders Q w.transfers offer q v in
      elim (Bool-cases (id == 0)) [
        | inl wrapped ↦
            rw wrapped
              (SendersIf-ok _ (send-Senders (record w { transfers = manager }) self _ _ created))
        | inr fresh ↦ rw fresh (
            SendersIf-ok _ (
              send-Senders (record w { transfers = _ }) self _ _
                (adjust_session-OfSenders Q manager id _ (λ t q. q) created)))
      ]

  handle_file_offer_req-Senders :
      (w : World S) (self : ℕ) (payload : List ℕ)
      → Offers w self
      → Senders w
      → SendersIf (handle_file_offer_req w self payload)
  unfolding handle_file_offer_req answer_offer
  handle_file_offer_req-Senders w self payload q v =
      elim (Bool-cases (is_authenticated (self_of w self))) [
        | inr out ↦ rw out (SendersIf-ok _ (send-Senders w self _ _ v))
        | inl logged ↦ rw logged (by_request (q logged) _)
      ]
    where
      by_request :
          Q ((self_of w self).user_id) ((self_of w self).username) ((self_of w self).token)
          → (r : Result FileOfferReq) → SendersIf (offer_parsed w self r)
      by_request q fault = unfold offer_parsed in (λ w' e. absurd cc)
      by_request q (err what) =
          unfold offer_parsed answer_offer in (SendersIf-ok _ (send-Senders w self _ _ v))
      by_request q (ok req) =
          unfold offer_parsed in
          (offer_found-Senders (record w { services = _ }) self req _ (unfold self_of in q) v)

  notify_sender-Senders :
      (w : World S) (t : TransferSession) (is_ok : Bool) (reason : List ℕ)
      → Senders w
      → Senders (notify_sender w t is_ok reason)
  unfolding notify_sender answer_accept
  notify_sender-Senders w t is_ok reason v = elim (Bool-cases (length t.sender_token == 0)) [
    | inl no_token ↦ rw no_token v
    | inr token ↦ elim (Option-cases (get_session w.sessions w.objects t.sender_token)) [
      | inl gone ↦ rw (token, gone) v
      | inr (sender, there) ↦ rw (token, there) (send-Senders w sender _ _ v)
    ]
  ]

  mark_state-Senders :
      (w : World S) (id : ℕ) (state : TransferState) → Senders w → Senders (mark_state w id state)
  unfolding mark_state
  mark_state-Senders w id state v = update_state-OfSenders Q w.transfers id state v

  accept_opened-Senders :
      (w : World S) (self id : ℕ) (t : TransferSession) (r : FileStore × Option ℕ)
      → Senders w
      → Senders (accept_opened w self id t r)
  unfolding accept_opened answer_accept
  accept_opened-Senders w self id t (store, none) v =
      send-Senders _ self _ _ (mark_state-Senders (record w { store = store }) id _ v)
  accept_opened-Senders w self id t (store, some h) v = send-Senders _ self _ _ (
      notify_sender-Senders _ t true [] (
        mark_state-Senders (record w { store = store; transfers = _ }) id _
          (adjust_session-OfSenders Q w.transfers id _ (λ t q. q) v)))

  accept_found-Senders :
      (a : FileAnswers) (w : World S) (self : ℕ) (req : FileAcceptReq) (o : Option TransferSession)
      → Senders w
      → Senders (accept_found a w self req o)
  unfolding accept_found accept_offer reject_offer answer_accept
  accept_found-Senders a w self req none v = send-Senders w self _ _ v
  accept_found-Senders a w self req (some t) v =
      elim (Bool-cases (t.receiver_user_id == (self_of w self).user_id)) [
        | inr other ↦ rw other (send-Senders w self _ _ v)
        | inl receiver ↦ elim (Bool-cases req.accept) [
          | inl accepts ↦
              rw (receiver, accepts) (accept_opened-Senders w self req.transfer_id t _ v)
          | inr rejects ↦
              rw (receiver, rejects)
                (send-Senders _ self _ _
                  (notify_sender-Senders _ t false _ (mark_state-Senders w req.transfer_id _ v)))
        ]
      ]

  handle_file_accept_req-Senders :
      (a : FileAnswers) (w : World S) (self : ℕ) (payload : List ℕ)
      → Senders w
      → SendersIf (handle_file_accept_req a w self payload)
  unfolding handle_file_accept_req answer_accept
  handle_file_accept_req-Senders a w self payload v =
      elim (Bool-cases (is_authenticated (self_of w self))) [
        | inr out ↦ rw out (SendersIf-ok _ (send-Senders w self _ _ v))
        | inl logged ↦ rw logged (by_request _)
      ]
    where
      by_request : (r : Result FileAcceptReq) → SendersIf (accept_parsed a w self r)
      by_request fault = unfold accept_parsed in (λ w' e. absurd cc)
      by_request (err what) =
          unfold accept_parsed answer_accept in (SendersIf-ok _ (send-Senders w self _ _ v))
      by_request (ok req) =
          unfold accept_parsed in (SendersIf-ok _ (accept_found-Senders a w self req _ v))

  store_chunk-Senders :
      (a : FileAnswers) (w : World S) (c : FileChunk) (t : TransferSession)
      → Senders w
      → SendersIf (store_chunk a w c t)
  unfolding store_chunk
  store_chunk-Senders a w c t v =
      elim (Result-cases (write_chunk a.write w.store t.file_handle c.bytes)) [
        | inr (inr broken) ↦ rw broken (λ w' e. absurd cc)
        | inr (inl (what, thrown)) ↦ rw thrown (λ w' e. absurd cc)
        | inl ((store, none), written) ↦
            rw written
              (SendersIf-ok _ (mark_state-Senders (record w { store = store }) c.transfer_id _ v))
        | inl ((store, some n), written) ↦ rw written (
            SendersIf-ok (record w { store = store; transfers = _ })
              (mark_chunk_received-OfSenders Q w.transfers c.transfer_id c.chunk_index
                (length c.bytes) v))
      ]

  handle_file_chunk-Senders :
      (a : FileAnswers) (w : World S) (self : ℕ) (payload : List ℕ)
      → Senders w
      → SendersIf (handle_file_chunk a w self payload)
  unfolding handle_file_chunk
  handle_file_chunk-Senders a w self payload v =
      elim (Bool-cases (is_authenticated (self_of w self))) [
        | inr out ↦ rw out (SendersIf-ok w v)
        | inl logged ↦ rw logged (by_chunk _)
      ]
    where
      by_transfer :
          (c : FileChunk) (o : Option TransferSession) → SendersIf (chunk_found a w self c o)
      by_transfer c none = unfold chunk_found in (SendersIf-ok w v)
      by_transfer c (some t) =
          unfold chunk_found in
          (elim (Bool-cases (t.sender_user_id == (self_of w self).user_id)) [
            | inr other ↦ rw other (SendersIf-ok w v)
            | inl sender ↦ elim (Bool-cases (is_accepted_or_receiving t.state)) [
              | inr over ↦ rw (sender, over) (SendersIf-ok w v)
              | inl alive ↦ rw (sender, alive) (store_chunk-Senders a w c t v)
            ]
          ])

      by_chunk : (r : Result FileChunk) → SendersIf (chunk_parsed a w self r)
      by_chunk fault = unfold chunk_parsed in (λ w' e. absurd cc)
      by_chunk (err what) = unfold chunk_parsed in (SendersIf-ok w v)
      by_chunk (ok c) = unfold chunk_parsed in (by_transfer c _)

  finish_transfer-Senders :
      (a : FileAnswers) (w : World S) (self : ℕ) (d : FileDone) (t : TransferSession)
      → Senders w
      → SendersIf (finish_transfer a w self d t)
  unfolding finish_transfer answer_done
  finish_transfer-Senders a w self d t v =
      elim (Result-cases (finalize_file a.renames w.store d.transfer_id t.filename t.file_handle)) [
        | inr (inr broken) ↦ rw broken (λ w' e. absurd cc)
        | inr (inl (what, thrown)) ↦ rw thrown (λ w' e. absurd cc)
        | inl ((store, true), finalized) ↦ rw finalized (
            SendersIf-ok _ (
              send-Senders _ self _ _
                (mark_state-Senders (record w { store = store }) d.transfer_id _ v)))
        | inl ((store, false), finalized) ↦ rw finalized (
            SendersIf-ok _ (
              send-Senders _ self _ _
                (mark_state-Senders (record w { store = store }) d.transfer_id _ v)))
      ]

  handle_file_done-Senders :
      (a : FileAnswers) (w : World S) (self : ℕ) (payload : List ℕ)
      → Senders w
      → SendersIf (handle_file_done a w self payload)
  unfolding handle_file_done
  handle_file_done-Senders a w self payload v =
      elim (Bool-cases (is_authenticated (self_of w self))) [
        | inr out ↦ rw out (SendersIf-ok w v)
        | inl logged ↦ rw logged (by_request _)
      ]
    where
      by_transfer :
          (d : FileDone) (o : Option TransferSession) → SendersIf (done_found a w self d o)
      by_transfer d none = unfold done_found in (SendersIf-ok w v)
      by_transfer d (some t) =
          unfold done_found in
          (elim (Bool-cases (t.sender_user_id == (self_of w self).user_id)) [
            | inr other ↦ rw other (SendersIf-ok w v)
            | inl sender ↦ rw sender (finish_transfer-Senders a w self d t v)
          ])

      by_request : (r : Result FileDone) → SendersIf (done_parsed a w self r)
      by_request fault = unfold done_parsed in (λ w' e. absurd cc)
      by_request (err what) = unfold done_parsed in (SendersIf-ok w v)
      by_request (ok d) = unfold done_parsed in (by_transfer d _)

  -- A message keeps what holds of the senders, if the sender of an offer has it.
  pub handle_message-OfSenders :
      (read : HexReader) (a : FileAnswers) (w : World S) (self : ℕ) (type : MsgType)
      (payload : List ℕ)
      → Offers w self
      → OfSenders Q w.transfers
      → (w' : World S) → handle_message read a w self type payload ≡ ok w'
      → OfSenders Q w'.transfers
  unfolding handle_message handle_online_list
  handle_message-OfSenders read a w self ping payload q v =
      SendersIf-ok _ (send-Senders w self _ _ v)
  handle_message-OfSenders read a w self register_req payload q v = λ w' e.
      let k = register_parsed-Keeps w self _ w' e in subst (OfSenders Q) (sym k.transfers_kept) v
  handle_message-OfSenders read a w self login_req payload q v = λ w' e.
      let k = login_parsed-Keeps read w self _ w' e in subst (OfSenders Q) (sym k.transfers_kept) v
  handle_message-OfSenders read a w self online_list_req payload q v =
      SendersIf-ok _ (send-Senders (record w { sessions = _ }) self _ _ v)
  handle_message-OfSenders read a w self file_offer_req payload q v =
      handle_file_offer_req-Senders w self payload q v
  handle_message-OfSenders read a w self file_accept_req payload q v =
      handle_file_accept_req-Senders a w self payload v
  handle_message-OfSenders read a w self file_chunk payload q v =
      handle_file_chunk-Senders a w self payload v
  handle_message-OfSenders read a w self file_done payload q v =
      handle_file_done-Senders a w self payload v
  handle_message-OfSenders read a w self _ payload q v = SendersIf-ok w v
