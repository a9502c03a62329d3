-- ===== src/Server/Access.antt =====
-- What a message may not change: the part that transfers and files play.
use computer_network_final_p.Base.{
  ℕ, ◌≡◌, refl, subst, inl, inr, Bool, false, Bool-cases, List, Result, ok, err, fault,
  ok-injective,
}
use computer_network_final_p.Protocol.Message.{
  MsgType, ping, register_req, login_req, online_list_req, file_offer_req, file_accept_req,
  file_chunk, file_done,
}
use computer_network_final_p.Protocol.RegisterReq.{RegisterReq}
use computer_network_final_p.Protocol.RegisterResp.{RegisterResp}
use computer_network_final_p.Protocol.LoginReq.{LoginReq}
use computer_network_final_p.Protocol.LoginResp.{LoginResp}
use computer_network_final_p.Auth.PasswordHash.{HexReader}
use computer_network_final_p.Db.{Services}
use computer_network_final_p.Server.Sessions.{is_authenticated}
use computer_network_final_p.Server.{World, FileAnswers, self_of, send}
use computer_network_final_p.Server.Offers.{answer_offer, handle_file_offer_req}
use computer_network_final_p.Server.Files.{
  answer_accept, handle_file_accept_req, handle_file_chunk, handle_file_done,
}
use computer_network_final_p.Server.Dispatch.{
  handle_message, answer_register, registered, register_parsed, answer_login, enter, logged_in,
  login_parsed, handle_online_list,
}

module _ {S : Services} where
  -- The transfers and the files are as they were.
  pub record Keeps (w w' : World S) : Type 0 where
    pub transfers_kept : w'.transfers ≡ w.transfers
    pub store_kept : w'.store ≡ w.store

  pub same : (w : World S) → Keeps w w
  same w = record { transfers_kept = refl; store_kept = refl }

  pub send-Keeps :
      (w : World S) (id : ℕ) (type : MsgType) (payload : List ℕ) → Keeps w (send w id type payload)
  unfolding send
  send-Keeps w id type payload = record { transfers_kept = refl; store_kept = refl }

  pub answer_accept-Keeps :
      (w : World S) (id : ℕ) (is_ok : Bool) (reason : List ℕ)
      → Keeps w (answer_accept w id is_ok reason)
  unfolding answer_accept
  answer_accept-Keeps w id is_ok reason = send-Keeps w id _ _

  -- The outcome of a handler that returns is one that keeps the transfers and the files.
  abbrev pub KeepsIf : World S → Result (World S) → Type 0
  KeepsIf w r = (w' : World S) → r ≡ ok w' → Keeps w w'

  pub KeepsIf-ok : (w v : World S) → Keeps w v → KeepsIf w (ok v)
  KeepsIf-ok w v k w' e = subst (Keeps w) (ok-injective e) k

  registered-Keeps :
      (w v : World S) (self : ℕ) (r : Result RegisterResp)
      → Keeps w v
      → KeepsIf w (registered v self r)
  unfolding registered answer_register send
  registered-Keeps w v self (ok resp) k =
      KeepsIf-ok w _ (record { transfers_kept = k.transfers_kept; store_kept = k.store_kept })
  registered-Keeps w v self (err what) k =
      KeepsIf-ok w _ (record { transfers_kept = k.transfers_kept; store_kept = k.store_kept })
  registered-Keeps w v self fault k = λ w' e. cc

  pub register_parsed-Keeps :
      (w : World S) (self : ℕ) (r : Result RegisterReq) → KeepsIf w (register_parsed w self r)
  unfolding register_parsed
  register_parsed-Keeps w self (ok req) =
      registered-Keeps w _ self _ (record { transfers_kept = refl; store_kept = refl })
  register_parsed-Keeps w self (err what) = registered-Keeps w w self (err what) (same w)
  register_parsed-Keeps w self fault = λ w' e. cc

  logged_in-Keeps :
      (w v : World S) (self : ℕ) (r : Result LoginResp) → Keeps w v → KeepsIf w (logged_in v self r)
  unfolding logged_in answer_login send enter
  logged_in-Keeps w v self (ok resp) k = elim (Bool-cases resp.is_ok) [
    | inl good ↦
        rw good
          (KeepsIf-ok w _ (record { transfers_kept = k.transfers_kept; store_kept = k.store_kept }))
    | inr bad ↦
        rw bad
          (KeepsIf-ok w _ (record { transfers_kept = k.transfers_kept; store_kept = k.store_kept }))
  ]
  logged_in-Keeps w v self (err what) k =
      KeepsIf-ok w _ (record { transfers_kept = k.transfers_kept; store_kept = k.store_kept })
  logged_in-Keeps w v self fault k = λ w' e. cc

  pub login_parsed-Keeps :
      (read : HexReader) (w : World S) (self : ℕ) (r : Result LoginReq)
      → KeepsIf w (login_parsed read w self r)
  unfolding login_parsed
  login_parsed-Keeps read w self (ok req) =
      logged_in-Keeps w _ self _ (record { transfers_kept = refl; store_kept = refl })
  login_parsed-Keeps read w self (err what) = logged_in-Keeps w w self (err what) (same w)
  login_parsed-Keeps read w self fault = λ w' e. cc

  -- By type: only the file messages look at the authentication.
  unauthenticated_by_type :
      (read : HexReader) (a : FileAnswers) (w : World S) (self : ℕ) (type : MsgType)
      (payload : List ℕ)
      → is_authenticated (self_of w self) ≡ false
      → KeepsIf w (handle_message read a w self type payload)
  unfolding handle_message handle_file_offer_req handle_file_accept_req handle_file_chunk
      handle_file_done handle_online_list answer_offer
  unauthenticated_by_type read a w self ping payload out = KeepsIf-ok w _ (send-Keeps w self _ _)
  unauthenticated_by_type read a w self register_req payload out = register_parsed-Keeps w self _
  unauthenticated_by_type read a w self login_req payload out = login_parsed-Keeps read w self _
  unauthenticated_by_type read a w self online_list_req payload out = KeepsIf-ok w _ (
      let k = send-Keeps (record w { sessions = _ }) self _ _ in
      record { transfers_kept = k.transfers_kept; store_kept = k.store_kept })
  unauthenticated_by_type read a w self file_offer_req payload out =
      rw out (KeepsIf-ok w _ (send-Keeps w self _ _))
  unauthenticated_by_type read a w self file_accept_req payload out =
      rw out (KeepsIf-ok w _ (answer_accept-Keeps w self _ _))
  unauthenticated_by_type read a w self file_chunk payload out = rw out (KeepsIf-ok w w (same w))
  unauthenticated_by_type read a w self file_done payload out = rw out (KeepsIf-ok w w (same w))
  unauthenticated_by_type read a w self _ payload out = KeepsIf-ok w w (same w)

  -- A message of a session that has not logged in changes no transfer and no file, whatever its type
  -- and payload.
  pub handle_message_unauthenticated :
      (read : HexReader) (a : FileAnswers) (w w' : World S) (self : ℕ) (type : MsgType)
      (payload : List ℕ)
      → is_authenticated (self_of w self) ≡ false
      → handle_message read a w self type payload ≡ ok w'
      → (w'.transfers ≡ w.transfers) × (w'.store ≡ w.store)
  handle_message_unauthenticated read a w w' self type payload out e =
      let k = unauthenticated_by_type read a w self type payload out w' e in
      (k.transfers_kept, k.store_kept)
