-- ===== src/Server/Dispatch.antt =====
-- `handle_message`, the read loop, the write queue and the life of a session object, of
-- `core/src/net/tcp_session.cpp` and `core/src/net/tcp_server.cpp`.
use computer_network_final_p.Base.{
  ℕ, ◌*◌, Bool, false, not, ◌||◌, List, [], ◌++◌, length, drop, ltb, ◌==◌, if◌then◌else◌, Result,
  ok, err, fault, ◌>>=◌, text,
}
use computer_network_final_p.Base.Dict.{insert, erase, adjust, nat_eq}
use computer_network_final_p.Wire.{little}
use computer_network_final_p.Protocol.Message.{
  MsgType, ping, pong, register_req, register_resp, login_req, login_resp, online_list_req,
  online_list_resp, file_offer_req, file_accept_req, file_chunk, file_done, validate_header,
  payload_len, type_of, header_of,
}
use computer_network_final_p.Protocol.RegisterReq
use computer_network_final_p.Protocol.RegisterReq.{RegisterReq}
use computer_network_final_p.Protocol.RegisterResp
use computer_network_final_p.Protocol.RegisterResp.{RegisterResp}
use computer_network_final_p.Protocol.LoginReq
use computer_network_final_p.Protocol.LoginReq.{LoginReq}
use computer_network_final_p.Protocol.LoginResp
use computer_network_final_p.Protocol.LoginResp.{LoginResp}
use computer_network_final_p.Protocol.OnlineListResp
use computer_network_final_p.Auth.{registration, refused, handle_register, handle_login}
use computer_network_final_p.Auth.PasswordHash.{HexReader}
use computer_network_final_p.Db.{Services}
use computer_network_final_p.Server.Sessions.{
  new_tcp_session, set_auth, add_session, get_online_usernames, count,
}
use computer_network_final_p.Server.{World, FileAnswers, send, drop_auth}
use computer_network_final_p.Server.Offers.{handle_file_offer_req}
use computer_network_final_p.Server.Files.{
  handle_file_accept_req, handle_file_chunk, handle_file_done,
}

-- What the read loop of a connection waits for.
pub data Phase : Type 0 where
  header : Phase
  body : MsgType → ℕ → Phase
  stopped : Phase

module _ {S : Services} where
  unfoldable pub answer_register : World S → ℕ → RegisterResp → World S
  answer_register w self resp = send w self register_resp (RegisterResp.serialize little resp)

  -- The `catch` block answers with what was thrown, by `deserialize` or by the handler.
  unfoldable pub registered : World S → ℕ → Result RegisterResp → Result (World S)
  unfolding answer_register
  registered w self fault = fault
  registered w self (err what) =
      ok (answer_register w self (registration false (text "error: " ++ what)))
  registered w self (ok resp) = ok (answer_register w self resp)

  unfoldable pub register_parsed : World S → ℕ → Result RegisterReq → Result (World S)
  unfolding registered
  register_parsed w self fault = fault
  register_parsed w self (err what) = registered w self (err what)
  register_parsed w self (ok req) =
      let (services, resp) = handle_register S req w.services in
      registered (record w { services = services }) self resp

  unfoldable pub answer_login : World S → ℕ → LoginResp → World S
  answer_login w self resp = send w self login_resp (LoginResp.serialize little resp)

  -- After a success: `set_auth`, `add_session`, and the count for the log.
  unfoldable pub enter : World S → ℕ → LoginResp → World S
  enter w self resp =
      let objects = adjust self (λ s. set_auth s resp.token resp.user_id resp.username) w.objects in
      let sessions = add_session w.sessions resp.token self in
      record w { objects = objects; sessions = (count sessions objects).0 }

  unfoldable pub logged_in : World S → ℕ → Result LoginResp → Result (World S)
  unfolding answer_login enter
  logged_in w self fault = fault
  logged_in w self (err what) = ok (answer_login w self (refused (text "error: " ++ what)))
  logged_in w self (ok resp) =
      let answered = answer_login w self resp in
      ok (if resp.is_ok then enter answered self resp else answered)

  unfoldable pub login_parsed : HexReader → World S → ℕ → Result LoginReq → Result (World S)
  unfolding logged_in
  login_parsed read w self fault = fault
  login_parsed read w self (err what) = logged_in w self (err what)
  login_parsed read w self (ok req) =
      let (services, resp) = handle_login read S req w.services in
      logged_in (record w { services = services }) self resp

  unfoldable pub handle_online_list : World S → ℕ → World S
  handle_online_list w self =
      let (sessions, usernames) = get_online_usernames w.sessions w.objects in
      send (record w { sessions = sessions }) self online_list_resp
        (OnlineListResp.serialize little usernames)

  unfoldable pub handle_message :
      HexReader → FileAnswers → World S → ℕ → MsgType → List ℕ → Result (World S)
  unfolding register_parsed login_parsed handle_online_list
  handle_message read a w self ping payload = ok (send w self pong (text "pong"))
  handle_message read a w self register_req payload =
      register_parsed w self (RegisterReq.deserialize little payload)
  handle_message read a w self login_req payload =
      login_parsed read w self (LoginReq.deserialize little payload)
  handle_message read a w self online_list_req payload = ok (handle_online_list w self)
  handle_message read a w self file_offer_req payload = handle_file_offer_req w self payload
  handle_message read a w self file_accept_req payload = handle_file_accept_req a w self payload
  handle_message read a w self file_chunk payload = handle_file_chunk a w self payload
  handle_message read a w self file_done payload = handle_file_done a w self payload
  handle_message read a w self type payload = ok w

  -- A header of which `n` bytes came, with or without an error.
  unfoldable pub header_read :
      HexReader → FileAnswers → World S → ℕ → Bool → ℕ → List ℕ → Result (World S × Phase)
  unfolding drop_auth
  header_read read a w self failed n bytes =
      let m = header_of little bytes in
      let len = payload_len little m in
      let type = type_of m.type_byte in
      if failed || not (n == 12)
      then ok (drop_auth w self, stopped)
      else elim (validate_header little m) [
        | fault ↦ fault
        | err what ↦ ok (drop_auth w self, stopped)
        | ok _ ↦
            if ltb (16 * 1024 * 1024) len
            then ok (w, stopped)
            else if len == 0
            then (do w' ← handle_message read a w self type []; ok (w', header))
            else ok (w, body type len)
      ]

  unfoldable pub body_read :
      HexReader → FileAnswers → World S → ℕ → MsgType → ℕ → Bool → List ℕ → Result (World S × Phase)
  unfolding drop_auth
  body_read read a w self type len failed bytes =
      if failed || not (length bytes == len)
      then ok (drop_auth w self, stopped)
      else (do w' ← handle_message read a w self type bytes; ok (w', header))

  -- The end of an asynchronous write: the frame leaves the queue, or the session is dropped.
  unfoldable pub written : World S → ℕ → Bool → World S
  unfolding drop_auth
  written w self failed =
      if failed
      then drop_auth w self
      else record w { objects = adjust self (λ s. record s { outq = drop 1 s.outq }) w.objects }

  -- `do_accept` makes a session object; it goes when nothing holds it any more.
  unfoldable pub accept_connection : World S → ℕ → World S
  accept_connection w id = record w { objects = insert id new_tcp_session w.objects }

  unfoldable pub destroy : World S → ℕ → World S
  destroy w id = record w { objects = erase id w.objects }
