-- ===== src/Server/Answered.antt =====
-- The messages that are answered at once to the connection that sent them.
use computer_network_final_p.Base.{
  ℕ, ◌%◌, ◌^◌, ◌≡◌, refl, sym, ap, ◌∙◌, subst, false, Bool-cases, inl, inr, Option, none, some,
  List, [], ◌∷◌, ◌++◌, length, ◌==◌, Result, ok, err, fault, ok-injective,
}
use computer_network_final_p.Base.Dict.{find, nat_eq, find-adjust_self, find-adjust_ne}
use computer_network_final_p.Wire.{little}
use computer_network_final_p.Protocol.Message.{
  MsgType, make_header, header_bytes, ping, pong, register_req, register_resp, login_req,
  login_resp, online_list_req, online_list_resp, file_offer_req, file_offer_resp,
}
use computer_network_final_p.Protocol.RegisterReq.{RegisterReq}
use computer_network_final_p.Protocol.RegisterResp.{RegisterResp}
use computer_network_final_p.Protocol.LoginReq.{LoginReq}
use computer_network_final_p.Protocol.LoginResp.{LoginResp}
use computer_network_final_p.Protocol.FileOfferReq.{FileOfferReq}
use computer_network_final_p.Transfer.{create_transfer}
use computer_network_final_p.Auth.PasswordHash.{HexReader}
use computer_network_final_p.Db.{Services}
use computer_network_final_p.Db.Users.{UserRow}
use computer_network_final_p.Server.Sessions.{TcpSession, Objects, is_authenticated, set_auth}
use computer_network_final_p.Server.{World, FileAnswers, self_of, send}
use computer_network_final_p.Server.Offers.{
  offer_of, answer_offer, offer_to, offer_found, offer_parsed, handle_file_offer_req,
}
use computer_network_final_p.Server.Dispatch.{
  handle_message, answer_register, registered, register_parsed, answer_login, enter, logged_in,
  login_parsed, handle_online_list,
}

-- The type of the answer, where there is one whatever the state is.
unfoldable pub answer_type : MsgType → Option MsgType
answer_type ping = some pong
answer_type register_req = some register_resp
answer_type login_req = some login_resp
answer_type online_list_req = some online_list_resp
answer_type file_offer_req = some file_offer_resp
answer_type _ = none

-- One frame of the type `reply` came to the queue of the session `self`, which was `s`; the session `other`
-- is as it was.
pub record Answered (objects objects' : Objects) (self other : ℕ) (s : TcpSession) (reply : MsgType)
    : Type 0 where
  pub payload : List ℕ
  pub after : TcpSession
  pub there : find self objects' ≡ some after
  pub queued :
      after.outq
      ≡ s.outq
        ++ ((header_bytes little (make_header little reply (length payload % 2 ^ 32)) ++ payload)
            ∷ [])
  pub apart : find other objects' ≡ find other objects

module _ {S : Services} (objects : Objects) (self other : ℕ) (s : TcpSession)
    (live : find self objects ≡ some s) (differ : (self == other) ≡ false) where
  -- The outcome of a handler that returns.
  abbrev AnsweredIf : MsgType → Result (World S) → Type 0
  AnsweredIf reply r = (w' : World S) → r ≡ ok w' → Answered objects w'.objects self other s reply

  AnsweredIf-ok :
      (reply : MsgType) (w : World S)
      → Answered objects w.objects self other s reply
      → AnsweredIf reply (ok w)
  AnsweredIf-ok reply w v w' e =
      subst (λ (u : World S). Answered objects u.objects self other s reply) (ok-injective e) v

  send-Answered :
      (reply : MsgType) (w : World S) (payload : List ℕ)
      → objects ≡ w.objects
      → Answered objects (send w self reply payload).objects self other s reply
  unfolding send
  send-Answered reply w payload same = record {
    payload = payload;
    after = record s {
      outq =
          s.outq
          ++ ((header_bytes little (make_header little reply (length payload % 2 ^ 32)) ++ payload)
              ∷ []);
    };
    there = find-adjust_self self _ w.objects s (rw (← same) live);
    queued = refl;
    apart = find-adjust_ne self other _ w.objects differ ∙ ap (find other) (sym same);
  }

  sent :
      (reply : MsgType) (w : World S) (payload : List ℕ)
      → objects ≡ w.objects
      → AnsweredIf reply (ok (send w self reply payload))
  sent reply w payload same = AnsweredIf-ok reply _ (send-Answered reply w payload same)

  -- After the answer to a login the session takes its token, and keeps its queue.
  enter-Answered :
      (reply : MsgType) (w : World S) (resp : LoginResp)
      → Answered objects w.objects self other s reply
      → Answered objects (enter w self resp).objects self other s reply
  unfolding enter set_auth
  enter-Answered reply w resp v = record {
    payload = v.payload;
    after = set_auth v.after resp.token resp.user_id resp.username;
    there = find-adjust_self self _ w.objects v.after v.there;
    queued = v.queued;
    apart = find-adjust_ne self other _ w.objects differ ∙ v.apart;
  }

  logged_in-Answered :
      (w : World S) (r : Result LoginResp)
      → objects ≡ w.objects
      → AnsweredIf login_resp (logged_in w self r)
  unfolding logged_in answer_login
  logged_in-Answered w fault same = λ w' e. absurd cc
  logged_in-Answered w (err what) same = sent login_resp w _ same
  logged_in-Answered w (ok resp) same = elim (Bool-cases resp.is_ok) [
    | inr bad ↦ simp bad (sent login_resp w _ same)
    | inl good ↦ simp good (
        AnsweredIf-ok login_resp _ (
          enter-Answered login_resp (answer_login w self resp) resp
            (send-Answered login_resp w _ same)))
  ]

  login_parsed-Answered :
      (read : HexReader) (w : World S) (r : Result LoginReq)
      → objects ≡ w.objects
      → AnsweredIf login_resp (login_parsed read w self r)
  unfolding login_parsed
  login_parsed-Answered read w fault same = λ w' e. absurd cc
  login_parsed-Answered read w (err what) same = logged_in-Answered w (err what) same
  login_parsed-Answered read w (ok req) same = logged_in-Answered (record w { services = _ }) _ same

  registered-Answered :
      (w : World S) (r : Result RegisterResp)
      → objects ≡ w.objects
      → AnsweredIf register_resp (registered w self r)
  unfolding registered answer_register
  registered-Answered w fault same = λ w' e. absurd cc
  registered-Answered w (err what) same = sent register_resp w _ same
  registered-Answered w (ok resp) same = sent register_resp w _ same

  register_parsed-Answered :
      (w : World S) (r : Result RegisterReq)
      → objects ≡ w.objects
      → AnsweredIf register_resp (register_parsed w self r)
  unfolding register_parsed
  register_parsed-Answered w fault same = λ w' e. absurd cc
  register_parsed-Answered w (err what) same = registered-Answered w (err what) same
  register_parsed-Answered w (ok req) same = registered-Answered (record w { services = _ }) _ same

  offer_found-Answered :
      (w : World S) (req : FileOfferReq) (r : Result (Option UserRow))
      → objects ≡ w.objects
      → AnsweredIf file_offer_resp (offer_found w self req r)
  unfolding offer_found offer_to answer_offer
  offer_found-Answered w req fault same = λ w' e. absurd cc
  offer_found-Answered w req (err what) same = sent file_offer_resp w _ same
  offer_found-Answered w req (ok none) same = sent file_offer_resp w _ same
  offer_found-Answered w req (ok (some receiver)) same =
      let (manager, id) = create_transfer w.transfers (offer_of (self_of w self) req receiver) in
      elim (Bool-cases (id == 0)) [
        | inl wrapped ↦ rw wrapped (sent file_offer_resp (record w { transfers = manager }) _ same)
        | inr fresh ↦ rw fresh (sent file_offer_resp (record w { transfers = _ }) _ same)
      ]

  offer_parsed-Answered :
      (w : World S) (r : Result FileOfferReq)
      → objects ≡ w.objects
      → AnsweredIf file_offer_resp (offer_parsed w self r)
  unfolding offer_parsed answer_offer
  offer_parsed-Answered w fault same = λ w' e. absurd cc
  offer_parsed-Answered w (err what) same = sent file_offer_resp w _ same
  offer_parsed-Answered w (ok req) same =
      offer_found-Answered (record w { services = _ }) req _ same

  handle_file_offer_req-Answered :
      (w : World S) (payload : List ℕ)
      → objects ≡ w.objects
      → AnsweredIf file_offer_resp (handle_file_offer_req w self payload)
  unfolding handle_file_offer_req answer_offer
  handle_file_offer_req-Answered w payload same =
      elim (Bool-cases (is_authenticated (self_of w self))) [
        | inr out ↦ rw out (sent file_offer_resp w _ same)
        | inl logged ↦ rw logged (offer_parsed-Answered w _ same)
      ]

-- A PING, REGISTER_REQ, LOGIN_REQ, ONLINE_LIST_REQ or FILE_OFFER_REQ of a live session that is handled,
-- whatever its payload is, adds one frame, of the type of its answer, to the end of that session's queue;
-- every other session, its queue too, is as it was.
pub handle_message-Answered :
    {S : Services} (read : HexReader) (a : FileAnswers) (w w' : World S) (self other : ℕ)
    (type reply : MsgType) (payload : List ℕ) (s : TcpSession)
    → find self w.objects ≡ some s
    → (self == other) ≡ false
    → answer_type type ≡ some reply
    → handle_message read a w self type payload ≡ ok w'
    → Answered w.objects w'.objects self other s reply
handle_message-Answered read a w w' self other type reply payload s live differ answered e =
    by_type type answered e
  where
    to_reply :
        (given : MsgType)
        → some given ≡ some reply
        → Answered w.objects w'.objects self other s given
        → Answered w.objects w'.objects self other s reply
    to_reply given e v =
        let same : given ≡ reply = cc in
        subst (λ reply. Answered w.objects w'.objects self other s reply) same v

    by_type :
        (type : MsgType)
        → answer_type type ≡ some reply
        → handle_message read a w self type payload ≡ ok w'
        → Answered w.objects w'.objects self other s reply
    by_type ping answered e =
        unfold answer_type handle_message in
        (to_reply pong answered (sent w.objects self other s live differ pong w _ refl w' e))
    by_type register_req answered e =
        unfold answer_type handle_message in
        (to_reply register_resp answered
          (register_parsed-Answered w.objects self other s live differ w _ refl w' e))
    by_type login_req answered e =
        unfold answer_type handle_message in
        (to_reply login_resp answered
          (login_parsed-Answered w.objects self other s live differ read w _ refl w' e))
    by_type online_list_req answered e =
        unfold answer_type handle_message handle_online_list in
        (to_reply online_list_resp answered (
          sent w.objects self other s live differ online_list_resp (record w { sessions = _ }) _
            refl w' e))
    by_type file_offer_req answered e =
        unfold answer_type handle_message in
        (to_reply file_offer_resp answered
          (handle_file_offer_req-Answered w.objects self other s live differ w payload refl w' e))
    by_type _ answered e = unfold answer_type in (absurd cc)
