-- ===== src/Server/Members.antt =====
-- What holds of every session object, message by message, where it does not depend on the write queue.
pub mod Messages
use computer_network_final_p.Base.{
  ℕ, ◌≡◌, refl, sym, ap, subst, Bool, true, false, Bool-cases, inl, inr, Option, none, some,
  Option-cases, List, [], length, ◌==◌, ==_iff, Result, ok, err, fault, ok-injective, Result-cases,
}
use computer_network_final_p.Base.Dict.{
  find, adjust, nat_eq, find-adjust, adjust_missing, find-adjust_cases,
}
use computer_network_final_p.Wire.{little}
use computer_network_final_p.Protocol.Message.{
  MsgType, ping, register_req, login_req, online_list_req, file_offer_req, file_accept_req,
  file_chunk, file_done,
}
use computer_network_final_p.Protocol.RegisterReq.{RegisterReq}
use computer_network_final_p.Protocol.RegisterResp.{RegisterResp}
use computer_network_final_p.Protocol.LoginReq
use computer_network_final_p.Protocol.LoginReq.{LoginReq}
use computer_network_final_p.Protocol.LoginResp.{LoginResp}
use computer_network_final_p.Protocol.FileOfferReq.{FileOfferReq}
use computer_network_final_p.Protocol.FileAcceptReq.{FileAcceptReq}
use computer_network_final_p.Protocol.FileChunk.{FileChunk}
use computer_network_final_p.Protocol.FileDone.{FileDone}
use computer_network_final_p.Transfer.{TransferSession, create_transfer}
use computer_network_final_p.FileStore.{FileStore, open_for_write, write_chunk, finalize_file}
use computer_network_final_p.Auth.{handle_login}
use computer_network_final_p.Auth.PasswordHash.{HexReader}
use computer_network_final_p.Db.{Services}
use computer_network_final_p.Db.Users.{UserRow}
use computer_network_final_p.Server.Sessions.{
  TcpSession, Objects, is_authenticated, set_auth, get_session,
}
use computer_network_final_p.Server.{World, FileAnswers, self_of, send}
use computer_network_final_p.Server.Offers.{
  offer_of, answer_offer, offer_to, offer_found, offer_parsed, handle_file_offer_req,
}
use computer_network_final_p.Server.Files.{
  is_accepted_or_receiving, answer_accept, answer_done, notify_sender, mark_state, accept_opened,
  accept_offer, reject_offer, accept_found, accept_parsed, handle_file_accept_req, store_chunk,
  chunk_found, chunk_parsed, handle_file_chunk, finish_transfer, done_found, done_parsed,
  handle_file_done,
}
use computer_network_final_p.Server.Dispatch.{
  handle_message, answer_register, registered, register_parsed, answer_login, enter, logged_in,
  login_parsed, handle_online_list,
}

abbrev pub Everyone : (ℕ → TcpSession → Type 0) → Objects → Type 0
Everyone P objects = (id : ℕ) (s : TcpSession) → find id objects ≡ some s → P id s

-- What a login that succeeds has to give for the session that it enters.
abbrev pub Enters : (ℕ → TcpSession → Type 0) → ℕ → LoginResp → Type 0
Enters P self resp = (s : TcpSession) → P self (set_auth s resp.token resp.user_id resp.username)

-- What is needed of a message: only a login that succeeds changes more than queues.
abbrev pub Grants :
    {S : Services} → (ℕ → TcpSession → Type 0) → HexReader → World S → ℕ → List ℕ → Type 0
Grants {S} P read w self payload =
    (req : LoginReq) (resp : LoginResp)
    → LoginReq.deserialize little payload ≡ ok req
    → (handle_login read S req w.services).1 ≡ ok resp
    → resp.is_ok ≡ true
    → Enters P self resp

module _ {P : ℕ → TcpSession → Type 0} where
  -- A change of the one session under `id`.
  pub adjust-Everyone :
      (id : ℕ) (f : TcpSession → TcpSession) (objects : Objects)
      → ((s : TcpSession) → find id objects ≡ some s → P id s → P id (f s))
      → Everyone P objects
      → Everyone P (adjust id f objects)
  adjust-Everyone id f objects keeps v j s h = elim (Option-cases (find id objects)) [
    | inl missing ↦ v j s (rw (← adjust_missing id f objects missing) h)
    | inr (u, found) ↦
        let changed = sym (find-adjust id f objects u found j) in
        elim (Bool-cases (id == j)) [
          | inl same ↦
              let here : f u ≡ s = (let e = changed in let e1 = rw same at e in cc) in
              subst (λ i. P i s) ((==_iff id j).0 same)
                (subst (P id) here (keeps u found (v id u found)))
          | inr other ↦ v j s (let e = changed in let e1 = rw other at e in cc)
        ]
  ]

module _ {S : Services} (P : ℕ → TcpSession → Type 0)
    (queued : (id : ℕ) (s : TcpSession) (q : List (List ℕ))
      → P id s
      → P id (record s { outq = q })) where
  abbrev Everybody : World S → Type 0
  Everybody w = Everyone P w.objects

  -- The outcome of a handler that returns.
  abbrev EverybodyIf : Result (World S) → Type 0
  EverybodyIf r = (w' : World S) → r ≡ ok w' → Everybody w'

  pub EverybodyIf-ok : (w : World S) → Everybody w → EverybodyIf (ok w)
  EverybodyIf-ok w v w' e = subst Everybody (ok-injective e) v

  pub send-Everybody :
      (w : World S) (id : ℕ) (type : MsgType) (payload : List ℕ)
      → Everybody w
      → Everybody (send w id type payload)
  unfolding send
  send-Everybody w id type payload v =
      adjust-Everyone id _ w.objects (λ s found p. queued id s _ p) v

  pub sent :
      (w : World S) (id : ℕ) (type : MsgType) (payload : List ℕ)
      → Everybody w
      → EverybodyIf (ok (send w id type payload))
  sent w id type payload v = EverybodyIf-ok _ (send-Everybody w id type payload v)

  offer_found-Everybody :
      (w : World S) (self : ℕ) (req : FileOfferReq) (r : Result (Option UserRow))
      → Everybody w
      → EverybodyIf (offer_found w self req r)
  unfolding offer_found offer_to answer_offer
  offer_found-Everybody w self req fault v = λ w' e. absurd cc
  offer_found-Everybody w self req (err what) v = sent w self _ _ v
  offer_found-Everybody w self req (ok none) v = sent w self _ _ v
  offer_found-Everybody w self req (ok (some receiver)) v =
      let (manager, id) = create_transfer w.transfers (offer_of (self_of w self) req receiver) in
      elim (Bool-cases (id == 0)) [
        | inl wrapped ↦ rw wrapped (sent (record w { transfers = manager }) self _ _ v)
        | inr fresh ↦ rw fresh (sent (record w { transfers = _ }) self _ _ v)
      ]

  pub handle_file_offer_req-Everybody :
      (w : World S) (self : ℕ) (payload : List ℕ)
      → Everybody w
      → EverybodyIf (handle_file_offer_req w self payload)
  unfolding handle_file_offer_req answer_offer
  handle_file_offer_req-Everybody w self payload v =
      elim (Bool-cases (is_authenticated (self_of w self))) [
        | inr out ↦ rw out (sent w self _ _ v)
        | inl logged ↦ rw logged (by_request _)
      ]
    where
      by_request : (r : Result FileOfferReq) → EverybodyIf (offer_parsed w self r)
      by_request fault = unfold offer_parsed in (λ w' e. absurd cc)
      by_request (err what) = unfold offer_parsed in (sent w self _ _ v)
      by_request (ok req) =
          unfold offer_parsed in (offer_found-Everybody (record w { services = _ }) self req _ v)

  notify_sender-Everybody :
      (w : World S) (t : TransferSession) (is_ok : Bool) (reason : List ℕ)
      → Everybody w
      → Everybody (notify_sender w t is_ok reason)
  unfolding notify_sender answer_accept
  notify_sender-Everybody w t is_ok reason v = elim (Bool-cases (length t.sender_token == 0)) [
    | inl no_token ↦ rw no_token v
    | inr token ↦ elim (Option-cases (get_session w.sessions w.objects t.sender_token)) [
      | inl gone ↦ rw (token, gone) v
      | inr (sender, there) ↦ rw (token, there) (send-Everybody w sender _ _ v)
    ]
  ]

  accept_opened-Everybody :
      (w : World S) (self id : ℕ) (t : TransferSession) (r : FileStore × Option ℕ)
      → Everybody w
      → Everybody (accept_opened w self id t r)
  unfolding accept_opened answer_accept mark_state
  accept_opened-Everybody w self id t (store, none) v =
      send-Everybody (record w { store = store; transfers = _ }) self _ _ v
  accept_opened-Everybody w self id t (store, some h) v =
      send-Everybody _ self _ _
        (notify_sender-Everybody (record w { store = store; transfers = _ }) t true [] v)

  accept_found-Everybody :
      (a : FileAnswers) (w : World S) (self : ℕ) (req : FileAcceptReq) (o : Option TransferSession)
      → Everybody w
      → Everybody (accept_found a w self req o)
  unfolding accept_found accept_offer reject_offer answer_accept mark_state
  accept_found-Everybody a w self req none v = send-Everybody w self _ _ v
  accept_found-Everybody a w self req (some t) v =
      elim (Bool-cases (t.receiver_user_id == (self_of w self).user_id)) [
        | inr other ↦ rw other (send-Everybody w self _ _ v)
        | inl receiver ↦ elim (Bool-cases req.accept) [
          | inl accepts ↦
              rw (receiver, accepts) (accept_opened-Everybody w self req.transfer_id t _ v)
          | inr rejects ↦
              rw (receiver, rejects)
                (send-Everybody _ self _ _
                  (notify_sender-Everybody (record w { transfers = _ }) t false _ v))
        ]
      ]

  pub handle_file_accept_req-Everybody :
      (a : FileAnswers) (w : World S) (self : ℕ) (payload : List ℕ)
      → Everybody w
      → EverybodyIf (handle_file_accept_req a w self payload)
  unfolding handle_file_accept_req answer_accept
  handle_file_accept_req-Everybody a w self payload v =
      elim (Bool-cases (is_authenticated (self_of w self))) [
        | inr out ↦ rw out (sent w self _ _ v)
        | inl logged ↦ rw logged (by_request _)
      ]
    where
      by_request : (r : Result FileAcceptReq) → EverybodyIf (accept_parsed a w self r)
      by_request fault = unfold accept_parsed in (λ w' e. absurd cc)
      by_request (err what) = unfold accept_parsed answer_accept in (sent w self _ _ v)
      by_request (ok req) =
          unfold accept_parsed in (EverybodyIf-ok _ (accept_found-Everybody a w self req _ v))
