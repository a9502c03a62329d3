-- ===== src/Server/Login.antt =====
-- How a connection becomes authenticated.
use computer_network_final_p.Base.{
  ℕ, ◌≡◌, ◌≢◌, refl, ap, ◌∙◌, subst, ◌⊎◌, inl, inr, true, false, Bool-cases, Option, none, some,
  Option-cases, List, ◌==◌, ==_iff, Result, ok, err, fault, ok-injective,
}
use computer_network_final_p.Base.Dict.{find, adjust, nat_eq, adjust_missing, find-adjust}
use computer_network_final_p.Wire.{little}
use computer_network_final_p.Protocol.Message.{
  MsgType, hello, ping, register_req, login_req, online_list_req, file_offer_req, file_accept_req,
  file_chunk, file_done,
}
use computer_network_final_p.Protocol.RegisterReq.{RegisterReq}
use computer_network_final_p.Protocol.RegisterResp.{RegisterResp}
use computer_network_final_p.Protocol.LoginReq
use computer_network_final_p.Protocol.LoginReq.{LoginReq}
use computer_network_final_p.Protocol.LoginResp.{LoginResp}
use computer_network_final_p.Auth.{handle_login}
use computer_network_final_p.Auth.Laws.{LoggedInAs, handle_login-ok}
use computer_network_final_p.Auth.PasswordHash.{HexReader}
use computer_network_final_p.Db.{Services}
use computer_network_final_p.Server.Sessions.{TcpSession, new_tcp_session, is_authenticated}
use computer_network_final_p.Server.{World, FileAnswers, self_of, send}
use computer_network_final_p.Server.Offers.{answer_offer, handle_file_offer_req}
use computer_network_final_p.Server.Files.{
  answer_accept, handle_file_accept_req, handle_file_chunk, handle_file_done,
}
use computer_network_final_p.Server.Dispatch.{
  handle_message, answer_register, registered, register_parsed, answer_login, logged_in,
  login_parsed, handle_online_list,
}

-- The session that a look-up gives.
object_from : Option TcpSession → TcpSession
object_from none = new_tcp_session
object_from (some s) = s

-- A change of one session that keeps what `g` reads keeps it for every session.
object_from-adjust {ℓ} :
    {A : Type ℓ} (g : TcpSession → A) (id self : ℕ) (f : TcpSession → TcpSession)
    (objects : List (ℕ × TcpSession))
    → ((s : TcpSession) → g (f s) ≡ g s)
    → g (object_from (find self (adjust id f objects))) ≡ g (object_from (find self objects))
unfolding object_from
object_from-adjust g id self f objects keeps = elim (Option-cases (find id objects)) [
  | inl missing ↦ rw (adjust_missing id f objects missing)
  | inr (s, found) ↦ elim (Bool-cases (id == self)) [
    | inl same ↦
        let here : id ≡ self = (==_iff id self).0 same in
        let found_self : find self objects ≡ some s =
          subst (λ i. find i objects ≡ some s) here found in
        rw (find-adjust id f objects s found self, same, found_self, object_from, keeps s)
    | inr other ↦ rw (find-adjust id f objects s found self, other)
  ]
]

is_login : (type : MsgType) → (type ≡ login_req) ⊎ (type ≢ login_req)
is_login login_req = inl refl
is_login hello = inr (λ e. cc)
is_login ping = inr (λ e. cc)
is_login _ = inr (λ e. cc)

module _ {S : Services} where
  -- A frame that is sent changes nothing of a session but its queue.
  pub self_of-send {ℓ} :
      {A : Type ℓ} (g : TcpSession → A) (w : World S) (id : ℕ) (type : MsgType) (payload : List ℕ)
      (self : ℕ)
      → ((s : TcpSession) (q : List (List ℕ)) → g (record s { outq = q }) ≡ g s)
      → g (self_of (send w id type payload) self) ≡ g (self_of w self)
  unfolding self_of send object_from new_tcp_session
  self_of-send g w id type payload self keeps =
      object_from-adjust g id self _ w.objects (λ s. keeps s _)

  -- A frame that is sent leaves the authentication of every session as it is.
  pub is_authenticated-send :
      (w : World S) (id : ℕ) (type : MsgType) (payload : List ℕ) (self : ℕ)
      → is_authenticated (self_of (send w id type payload) self) ≡ is_authenticated (self_of w self)
  unfolding is_authenticated
  is_authenticated-send w id type payload self =
      self_of-send is_authenticated w id type payload self (λ s q. refl)

  -- The outcome of a handler that returns leaves a session unauthenticated.
  abbrev StaysOut : ℕ → Result (World S) → Type 0
  StaysOut self r = (w' : World S) → r ≡ ok w' → is_authenticated (self_of w' self) ≡ false

  StaysOut-ok :
      (self : ℕ) (v : World S) → is_authenticated (self_of v self) ≡ false → StaysOut self (ok v)
  StaysOut-ok self v out w' e =
      subst (λ u. is_authenticated (self_of u self) ≡ false) (ok-injective e) out

  -- A message that is answered to the session itself, or to another, changes no authentication.
  StaysOut-send :
      (self id : ℕ) (v : World S) (type : MsgType) (payload : List ℕ)
      → is_authenticated (self_of v self) ≡ false
      → StaysOut self (ok (send v id type payload))
  StaysOut-send self id v type payload out =
      StaysOut-ok self _ (is_authenticated-send v id type payload self ∙ out)

  registered-StaysOut :
      (v : World S) (self : ℕ) (r : Result RegisterResp)
      → is_authenticated (self_of v self) ≡ false
      → StaysOut self (registered v self r)
  unfolding registered answer_register
  registered-StaysOut v self (ok resp) out = StaysOut-send self self v _ _ out
  registered-StaysOut v self (err what) out = StaysOut-send self self v _ _ out
  registered-StaysOut v self fault out = λ w' e. cc

  register_parsed-StaysOut :
      (w : World S) (self : ℕ) (r : Result RegisterReq)
      → is_authenticated (self_of w self) ≡ false
      → StaysOut self (register_parsed w self r)
  unfolding register_parsed self_of
  register_parsed-StaysOut w self (ok req) out = registered-StaysOut _ self _ out
  register_parsed-StaysOut w self (err what) out = registered-StaysOut w self (err what) out
  register_parsed-StaysOut w self fault out = λ w' e. cc

  -- By type: all but a login leave the session unauthenticated.
  others-StaysOut :
      (read : HexReader) (a : FileAnswers) (w : World S) (self : ℕ) (type : MsgType)
      (payload : List ℕ)
      → type ≢ login_req
      → is_authenticated (self_of w self) ≡ false
      → StaysOut self (handle_message read a w self type payload)
  unfolding handle_message handle_file_offer_req handle_file_accept_req handle_file_chunk
      handle_file_done handle_online_list answer_offer answer_accept self_of
  others-StaysOut read a w self ping payload ne out = StaysOut-send self self w _ _ out
  others-StaysOut read a w self register_req payload ne out = register_parsed-StaysOut w self _ out
  others-StaysOut read a w self login_req payload ne out = absurd (ne refl)
  others-StaysOut read a w self online_list_req payload ne out =
      StaysOut-send self self (record w { sessions = _ }) _ _ out
  others-StaysOut read a w self file_offer_req payload ne out =
      rw out (StaysOut-send self self w _ _ out)
  others-StaysOut read a w self file_accept_req payload ne out =
      rw out (StaysOut-send self self w _ _ out)
  others-StaysOut read a w self file_chunk payload ne out = rw out (StaysOut-ok self w out)
  others-StaysOut read a w self file_done payload ne out = rw out (StaysOut-ok self w out)
  others-StaysOut read a w self _ payload ne out = StaysOut-ok self w out

  -- A login that the state of the database and the answer belong to.
  abbrev LoginOf : HexReader → World S → Result LoginReq → Type 0
  LoginOf read w r =
      (req : LoginReq) × (s' : S.State) × (resp : LoginResp) × (r ≡ ok req)
      × (handle_login read S req w.services ≡ (s', ok resp))
      × (resp.is_ok ≡ true)

  logged_in-cases :
      (v w' : World S) (self : ℕ) (r : Result LoginResp)
      → is_authenticated (self_of v self) ≡ false
      → logged_in v self r ≡ ok w'
      → is_authenticated (self_of w' self) ≡ true
      → (resp : LoginResp) × (r ≡ ok resp) × (resp.is_ok ≡ true)
  unfolding logged_in answer_login
  logged_in-cases v w' self (ok resp) out e entered = elim (Bool-cases resp.is_ok) [
    | inl good ↦ (resp, refl, good)
    | inr bad ↦ absurd (let still = StaysOut-send self self v _ _ out w' (rw bad at e) in cc)
  ]
  logged_in-cases v w' self (err what) out e entered =
      absurd (let still = StaysOut-send self self v _ _ out w' e in cc)
  logged_in-cases v w' self fault out e entered = absurd cc

  login_parsed-cases :
      (read : HexReader) (w w' : World S) (self : ℕ) (r : Result LoginReq)
      → is_authenticated (self_of w self) ≡ false
      → login_parsed read w self r ≡ ok w'
      → is_authenticated (self_of w' self) ≡ true
      → LoginOf read w r
  unfolding login_parsed self_of
  login_parsed-cases read w w' self (ok req) out e entered =
      let (resp, answered, good) = logged_in-cases _ w' self _ out e entered in
      (
        req,
        (handle_login read S req w.services).0,
        resp,
        refl,
        ap (λ r. ((handle_login read S req w.services).0, r)) answered,
        good,
      )
  login_parsed-cases read w w' self (err what) out e entered =
      absurd (let (resp, answered, good) = logged_in-cases w w' self (err what) out e entered in cc)
  login_parsed-cases read w w' self fault out e entered = absurd cc

  -- A message makes an unauthenticated session authenticated only if it is a LOGIN_REQ that parses, and
  -- whose user the database found, with a stored hash that the password in the message verifies.
  pub authenticated_by_login :
      (read : HexReader) (a : FileAnswers) (w w' : World S) (self : ℕ) (type : MsgType)
      (payload : List ℕ)
      → is_authenticated (self_of w self) ≡ false
      → handle_message read a w self type payload ≡ ok w'
      → is_authenticated (self_of w' self) ≡ true
      → (type ≡ login_req)
        × (req : LoginReq) × (s' : S.State) × (resp : LoginResp) × (LoginReq.deserialize little
              payload
            ≡ ok req)
        × (handle_login read S req w.services ≡ (s', ok resp))
        × LoggedInAs read S req w.services s' resp
  authenticated_by_login read a w w' self type payload out e entered = elim (is_login type) [
    | inr other ↦
        absurd (let still = others-StaysOut read a w self type payload other out w' e in cc)
    | inl here ↦
        let (req, s', resp, parsed, answered, good) =
          login_parsed-cases read w w' self (LoginReq.deserialize little payload) out
            (unfold handle_message in
              subst (λ t. handle_message read a w self t payload ≡ ok w') here e)
            entered in
        (
          here,
          req,
          s',
          resp,
          parsed,
          answered,
          handle_login-ok read S req w.services s' resp answered good,
        )
  ]
