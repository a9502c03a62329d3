-- ===== src/Server/Members/Messages.antt =====
-- What a message keeps of every session object: the handlers that need a file or a login, and the dispatch.
use computer_network_final_p.Base.{
  ℕ, ◌≡◌, refl, true, false, Bool-cases, inl, inr, Option, none, some, List, ◌==◌, Result, ok, err,
  fault, Result-cases,
}
use computer_network_final_p.Base.Dict.{nat_eq}
use computer_network_final_p.Wire.{little}
use computer_network_final_p.Protocol.Message.{
  MsgType, ping, register_req, login_req, online_list_req, file_offer_req, file_accept_req,
  file_chunk, file_done,
}
use computer_network_final_p.Protocol.RegisterReq.{RegisterReq}
use computer_network_final_p.Protocol.RegisterResp.{RegisterResp}
use computer_network_final_p.Protocol.LoginReq
use computer_network_final_p.Protocol.LoginReq.{LoginReq}
use computer_network_final_p.Protocol.LoginResp.{LoginResp}
use computer_network_final_p.Protocol.FileChunk.{FileChunk}
use computer_network_final_p.Protocol.FileDone.{FileDone}
use computer_network_final_p.Transfer.{TransferSession}
use computer_network_final_p.FileStore.{write_chunk, finalize_file}
use computer_network_final_p.Auth.PasswordHash.{HexReader}
use computer_network_final_p.Db.{Services}
use computer_network_final_p.Server.Sessions.{TcpSession, is_authenticated}
use computer_network_final_p.Server.{World, FileAnswers, self_of}
use computer_network_final_p.Server.Files.{
  is_accepted_or_receiving, answer_done, mark_state, store_chunk, chunk_found, chunk_parsed,
  handle_file_chunk, finish_transfer, done_found, done_parsed, handle_file_done,
}
use computer_network_final_p.Server.Dispatch.{
  handle_message, answer_register, registered, register_parsed, answer_login, enter, logged_in,
  login_parsed, handle_online_list,
}
use computer_network_final_p.Server.Members.{
  Everyone, Enters, Grants, adjust-Everyone, EverybodyIf-ok, send-Everybody, sent,
  handle_file_offer_req-Everybody, handle_file_accept_req-Everybody,
}

module _ {S : Services} (P : ℕ → TcpSession → Type 0)
    (queued : (id : ℕ) (s : TcpSession) (q : List (List ℕ))
      → P id s
      → P id (record s { outq = q })) where
  abbrev Everybody : World S → Type 0
  Everybody w = Everyone P w.objects

  -- The outcome of a handler that returns.
  abbrev EverybodyIf : Result (World S) → Type 0
  EverybodyIf r = (w' : World S) → r ≡ ok w' → Everybody w'

  store_chunk-Everybody :
      (a : FileAnswers) (w : World S) (c : FileChunk) (t : TransferSession)
      → Everybody w
      → EverybodyIf (store_chunk a w c t)
  unfolding store_chunk mark_state
  store_chunk-Everybody a w c t v =
      elim (Result-cases (write_chunk a.write w.store t.file_handle c.bytes)) [
        | inr (inr broken) ↦ rw broken (λ w' e. absurd cc)
        | inr (inl (what, thrown)) ↦ rw thrown (λ w' e. absurd cc)
        | inl ((store, none), written) ↦
            rw written (EverybodyIf-ok P queued (record w { store = store; transfers = _ }) v)
        | inl ((store, some n), written) ↦
            rw written (EverybodyIf-ok P queued (record w { store = store; transfers = _ }) v)
      ]

  handle_file_chunk-Everybody :
      (a : FileAnswers) (w : World S) (self : ℕ) (payload : List ℕ)
      → Everybody w
      → EverybodyIf (handle_file_chunk a w self payload)
  unfolding handle_file_chunk
  handle_file_chunk-Everybody a w self payload v =
      elim (Bool-cases (is_authenticated (self_of w self))) [
        | inr out ↦ rw out (EverybodyIf-ok P queued w v)
        | inl logged ↦ rw logged (by_chunk _)
      ]
    where
      by_transfer :
          (c : FileChunk) (o : Option TransferSession) → EverybodyIf (chunk_found a w self c o)
      by_transfer c none = unfold chunk_found in (EverybodyIf-ok P queued w v)
      by_transfer c (some t) =
          unfold chunk_found in
          (elim (Bool-cases (t.sender_user_id == (self_of w self).user_id)) [
            | inr other ↦ rw other (EverybodyIf-ok P queued w v)
            | inl sender ↦ elim (Bool-cases (is_accepted_or_receiving t.state)) [
              | inr over ↦ rw (sender, over) (EverybodyIf-ok P queued w v)
              | inl alive ↦ rw (sender, alive) (store_chunk-Everybody a w c t v)
            ]
          ])

      by_chunk : (r : Result FileChunk) → EverybodyIf (chunk_parsed a w self r)
      by_chunk fault = unfold chunk_parsed in (λ w' e. absurd cc)
      by_chunk (err what) = unfold chunk_parsed in (EverybodyIf-ok P queued w v)
      by_chunk (ok c) = unfold chunk_parsed in (by_transfer c _)

  finish_transfer-Everybody :
      (a : FileAnswers) (w : World S) (self : ℕ) (d : FileDone) (t : TransferSession)
      → Everybody w
      → EverybodyIf (finish_transfer a w self d t)
  unfolding finish_transfer mark_state answer_done
  finish_transfer-Everybody a w self d t v =
      elim (Result-cases (finalize_file a.renames w.store d.transfer_id t.filename t.file_handle)) [
        | inr (inr broken) ↦ rw broken (λ w' e. absurd cc)
        | inr (inl (what, thrown)) ↦ rw thrown (λ w' e. absurd cc)
        | inl ((store, true), finalized) ↦
            rw finalized (sent P queued (record w { store = store; transfers = _ }) self _ _ v)
        | inl ((store, false), finalized) ↦
            rw finalized (sent P queued (record w { store = store; transfers = _ }) self _ _ v)
      ]

  handle_file_done-Everybody :
      (a : FileAnswers) (w : World S) (self : ℕ) (payload : List ℕ)
      → Everybody w
      → EverybodyIf (handle_file_done a w self payload)
  unfolding handle_file_done
  handle_file_done-Everybody a w self payload v =
      elim (Bool-cases (is_authenticated (self_of w self))) [
        | inr out ↦ rw out (EverybodyIf-ok P queued w v)
        | inl logged ↦ rw logged (by_request _)
      ]
    where
      by_transfer :
          (d : FileDone) (o : Option TransferSession) → EverybodyIf (done_found a w self d o)
      by_transfer d none = unfold done_found in (EverybodyIf-ok P queued w v)
      by_transfer d (some t) =
          unfold done_found in
          (elim (Bool-cases (t.sender_user_id == (self_of w self).user_id)) [
            | inr other ↦ rw other (EverybodyIf-ok P queued w v)
            | inl sender ↦ rw sender (finish_transfer-Everybody a w self d t v)
          ])

      by_request : (r : Result FileDone) → EverybodyIf (done_parsed a w self r)
      by_request fault = unfold done_parsed in (λ w' e. absurd cc)
      by_request (err what) = unfold done_parsed in (EverybodyIf-ok P queued w v)
      by_request (ok d) = unfold done_parsed in (by_transfer d _)

  registered-Everybody :
      (w : World S) (self : ℕ) (r : Result RegisterResp)
      → Everybody w
      → EverybodyIf (registered w self r)
  unfolding registered answer_register
  registered-Everybody w self fault v = λ w' e. absurd cc
  registered-Everybody w self (err what) v = sent P queued w self _ _ v
  registered-Everybody w self (ok resp) v = sent P queued w self _ _ v

  register_parsed-Everybody :
      (w : World S) (self : ℕ) (r : Result RegisterReq)
      → Everybody w
      → EverybodyIf (register_parsed w self r)
  unfolding register_parsed
  register_parsed-Everybody w self fault v = λ w' e. absurd cc
  register_parsed-Everybody w self (err what) v = registered-Everybody w self (err what) v
  register_parsed-Everybody w self (ok req) v =
      registered-Everybody (record w { services = _ }) self _ v

  logged_in-Everybody :
      (w : World S) (self : ℕ) (r : Result LoginResp)
      → ((resp : LoginResp) → r ≡ ok resp → resp.is_ok ≡ true → Enters P self resp)
      → Everybody w
      → EverybodyIf (logged_in w self r)
  unfolding logged_in answer_login enter
  logged_in-Everybody w self fault grants v = λ w' e. absurd cc
  logged_in-Everybody w self (err what) grants v = sent P queued w self _ _ v
  logged_in-Everybody w self (ok resp) grants v = elim (Bool-cases resp.is_ok) [
    | inr bad ↦ rw bad (sent P queued w self _ _ v)
    | inl good ↦ rw good (
        EverybodyIf-ok P queued _ (
          adjust-Everyone self _ _ (λ s found p. grants resp refl good s)
            (send-Everybody P queued w self _ _ v)))
  ]

  login_parsed-Everybody :
      (read : HexReader) (w : World S) (self : ℕ) (payload : List ℕ) (r : Result LoginReq)
      → LoginReq.deserialize little payload ≡ r
      → Grants P read w self payload
      → Everybody w
      → EverybodyIf (login_parsed read w self r)
  unfolding login_parsed
  login_parsed-Everybody read w self payload fault parsed grants v = λ w' e. absurd cc
  login_parsed-Everybody read w self payload (err what) parsed grants v =
      logged_in-Everybody w self (err what) (λ resp e. absurd cc) v
  login_parsed-Everybody read w self payload (ok req) parsed grants v =
      logged_in-Everybody (record w { services = _ }) self _
        (λ resp answered good. grants req resp parsed answered good) v

  -- A message keeps what holds of every session, if a login that succeeds gives it for the session.
  pub handle_message-Everyone :
      (read : HexReader) (a : FileAnswers) (w : World S) (self : ℕ) (type : MsgType)
      (payload : List ℕ)
      → (type ≡ login_req → Grants P read w self payload)
      → Everyone P w.objects
      → (w' : World S) → handle_message read a w self type payload ≡ ok w'
      → Everyone P w'.objects
  unfolding handle_message handle_online_list
  handle_message-Everyone read a w self ping payload grants v = sent P queued w self _ _ v
  handle_message-Everyone read a w self register_req payload grants v =
      register_parsed-Everybody w self _ v
  handle_message-Everyone read a w self login_req payload grants v =
      login_parsed-Everybody read w self payload _ refl (grants refl) v
  handle_message-Everyone read a w self online_list_req payload grants v =
      sent P queued (record w { sessions = _ }) self _ _ v
  handle_message-Everyone read a w self file_offer_req payload grants v =
      handle_file_offer_req-Everybody P queued w self payload v
  handle_message-Everyone read a w self file_accept_req payload grants v =
      handle_file_accept_req-Everybody P queued a w self payload v
  handle_message-Everyone read a w self file_chunk payload grants v =
      handle_file_chunk-Everybody a w self payload v
  handle_message-Everyone read a w self file_done payload grants v =
      handle_file_done-Everybody a w self payload v
  handle_message-Everyone read a w self _ payload grants v = EverybodyIf-ok P queued w v
