-- ===== src/Server/Reachable.antt =====
-- The worlds that a server comes to, message by message.
use computer_network_final_p.Base.{
  ℕ, refl, sym, ◌∙◌, subst, Bool, true, false, Bool-cases, inl, inr, Option, none, some, List, [],
  ◌==◌, Result, ok, err, fault, ok-injective,
}
use computer_network_final_p.Base.Dict.{nat_eq}
use computer_network_final_p.Protocol.Message.{
  MsgType, ping, register_req, login_req, online_list_req, file_offer_req, file_accept_req,
  file_chunk, file_done,
}
use computer_network_final_p.Protocol.FileOfferReq.{FileOfferReq}
use computer_network_final_p.Transfer.{create_transfer}
use computer_network_final_p.Auth.PasswordHash.{HexReader}
use computer_network_final_p.Db.{Services}
use computer_network_final_p.Db.Users.{UserRow, get_user_by_username}
use computer_network_final_p.Server.Sessions.{is_authenticated}
use computer_network_final_p.Server.{World, FileAnswers, self_of}
use computer_network_final_p.Server.Access.{send-Keeps, register_parsed-Keeps, login_parsed-Keeps}
use computer_network_final_p.Server.Offers.{
  offer_of, answer_offer, offer_to, offer_found, offer_parsed, handle_file_offer_req,
}
use computer_network_final_p.Server.Handles.{adjust-Holds}
use computer_network_final_p.Server.Held.{create_transfer-Holds}
use computer_network_final_p.Server.Keeping.{
  Held, HeldIf, HeldIf-ok, Keeps-Held, handle_file_accept_req-Held,
}
use computer_network_final_p.Server.Dispatch.{handle_message, handle_online_list}
use computer_network_final_p.Server.Invariant.{handle_file_chunk-Held, handle_file_done-Held}

module _ {S : Services} where
  answer_offer-Held :
      (w : World S) (self : ℕ) (is_ok : Bool) (id : ℕ) (reason : List ℕ)
      → Held w
      → Held (answer_offer w self is_ok id reason)
  unfolding answer_offer
  answer_offer-Held w self is_ok id reason = Keeps-Held w _ (send-Keeps w self _ _)

  offer_to-Held :
      (w : World S) (self : ℕ) (req : FileOfferReq) (receiver : UserRow)
      → Held w
      → Held (offer_to w self req receiver)
  unfolding offer_to
  offer_to-Held w self req receiver v =
      let offer = offer_of (self_of w self) req receiver in
      let (manager, id) = create_transfer w.transfers offer in
      let created = create_transfer-Holds w.transfers w.store.disk offer v in
      elim (Bool-cases (id == 0)) [
        | inl wrapped ↦
            rw wrapped (answer_offer-Held (record w { transfers = manager }) self false 0 _ created)
        | inr fresh ↦ rw fresh (
            answer_offer-Held _ self true id []
              (adjust-Holds manager w.store.disk id _ (λ t. refl) (λ t alive. alive) created))
      ]

  offer_found-Held :
      (w : World S) (self : ℕ) (req : FileOfferReq) (r : Result (Option UserRow))
      → Held w
      → HeldIf (offer_found w self req r)
  unfolding offer_found
  offer_found-Held w self req fault v = λ w' e. absurd cc
  offer_found-Held w self req (err what) v = HeldIf-ok _ (answer_offer-Held w self false 0 _ v)
  offer_found-Held w self req (ok none) v = HeldIf-ok _ (answer_offer-Held w self false 0 _ v)
  offer_found-Held w self req (ok (some receiver)) v =
      HeldIf-ok _ (offer_to-Held w self req receiver v)

  offer_parsed-Held :
      (w : World S) (self : ℕ) (r : Result FileOfferReq) → Held w → HeldIf (offer_parsed w self r)
  unfolding offer_parsed
  offer_parsed-Held w self fault v = λ w' e. absurd cc
  offer_parsed-Held w self (err what) v = HeldIf-ok _ (answer_offer-Held w self false 0 _ v)
  offer_parsed-Held w self (ok req) v =
      offer_found-Held
        (record w { services = (get_user_by_username S req.receiver_username w.services).0 }) self
        req _ v

  handle_file_offer_req-Held :
      (w : World S) (self : ℕ) (payload : List ℕ)
      → Held w
      → HeldIf (handle_file_offer_req w self payload)
  unfolding handle_file_offer_req
  handle_file_offer_req-Held w self payload v =
      elim (Bool-cases (is_authenticated (self_of w self))) [
        | inr out ↦ rw out (HeldIf-ok _ (answer_offer-Held w self false 0 _ v))
        | inl logged ↦ rw logged (offer_parsed-Held w self _ v)
      ]

  pub handle_message-Held :
      (read : HexReader) (a : FileAnswers) (w : World S) (self : ℕ) (type : MsgType)
      (payload : List ℕ)
      → Held w
      → HeldIf (handle_message read a w self type payload)
  unfolding handle_message handle_online_list
  handle_message-Held read a w self ping payload v =
      HeldIf-ok _ (Keeps-Held w _ (send-Keeps w self _ _) v)
  handle_message-Held read a w self register_req payload v =
      λ w' e. Keeps-Held w w' (register_parsed-Keeps w self _ w' e) v
  handle_message-Held read a w self login_req payload v =
      λ w' e. Keeps-Held w w' (login_parsed-Keeps read w self _ w' e) v
  handle_message-Held read a w self online_list_req payload v =
      HeldIf-ok _ (Keeps-Held (record w { sessions = _ }) _ (send-Keeps _ self _ _) v)
  handle_message-Held read a w self file_offer_req payload v =
      handle_file_offer_req-Held w self payload v
  handle_message-Held read a w self file_accept_req payload v =
      handle_file_accept_req-Held a w self payload v
  handle_message-Held read a w self file_chunk payload v = λ w' e.
      let (w1, handled, v1) = handle_file_chunk-Held a w self payload v in
      subst Held (ok-injective (sym handled ∙ e)) v1
  handle_message-Held read a w self file_done payload v = handle_file_done-Held a w self payload v
  handle_message-Held read a w self _ payload v = HeldIf-ok w v
