-- ===== src/Client/Exchange/Showing.antt =====
-- The answers of a server as `read_response` of `client/src/test_auth.cpp` and `read_login_response` of
-- `client/src/test_persistent.cpp` read them from the socket.
use computer_network_final_p.Base.{
  ℕ, ◌+◌, ◌%◌, ◌^◌, ◌<◌, ◌≤◌, ◌≡◌, ◌↔◌, refl, sym, ap, ◌∙◌, true, false, Bool-cases, inl, inr,
  Option, none, some, List, ◌++◌, length, append_assoc, ltb, ◌==◌, if◌then◌else◌, Result, ok, fault,
  text, arith,
}
use computer_network_final_p.Base.Action.{Action, pure, lift, ◌>>=◌, bind-runs}
use computer_network_final_p.Wire.{Endian, hton, get}
use computer_network_final_p.Protocol.Message.{
  MsgType, type_code, make_header, header_bytes, header_of, register_resp,
}
use computer_network_final_p.Protocol.Framing.{header_fields}
use computer_network_final_p.Protocol.RegisterResp
use computer_network_final_p.Protocol.RegisterResp.{RegisterResp}
use computer_network_final_p.Protocol.LoginResp
use computer_network_final_p.Protocol.LoginResp.{LoginResp}
use computer_network_final_p.Client.{read_payload}
use computer_network_final_p.Client.Answers.{
  Shown, complaint, header_complaint, show_payload, show_registered,
}
use computer_network_final_p.Client.Frames.{frame}
use computer_network_final_p.Client.Programs.{read_response}
use computer_network_final_p.Client.Reading.{show_registered-fault}
use computer_network_final_p.Client.Exchange.{
  Script, scripted, script_read-append, read_payload-frame,
}

-- The outcome of reading one frame: the payload stays unread where it is refused for its length.
abbrev pub ReadFrame :
    {A : Type 0} → List ℕ → List ℕ → List (List ℕ) → A → Result A → Script × Result A
ReadFrame payload rest output refusal shown =
    if ltb 1024 (length payload)
    then ((payload ++ rest, output), ok refusal)
    else ((rest, output), shown)

abbrev pub too_large : Shown
too_large = complaint (text "ERROR: payload too large")

module _ (h : Endian) (type : MsgType) (payload rest : List ℕ) (output : List (List ℕ))
    (small : length payload < 2 ^ 32) where
  abbrev head : List ℕ
  head = header_bytes h (make_header h type (length payload % 2 ^ 32))

  len_announced : hton h 4 (header_of h head).len_be ≡ length payload
  len_announced =
      let (size, magic_read, version_read, type_read, len_read) =
        header_fields h h type (length payload % 2 ^ 32) (omega arith) in
      let len_is : length payload % 2 ^ 32 ≡ length payload = omega arith in len_read ∙ len_is

  header_complaint-frame :
      header_complaint h (type_code type) (header_of h head)
      ≡ (if ltb 1024 (length payload) then some (text "ERROR: payload too large") else none)
  unfolding header_complaint
  header_complaint-frame =
      let (size, magic_read, version_read, type_read, len_read) =
        header_fields h h type (length payload % 2 ^ 32) (omega arith) in
      let same : (type_code type == type_code type) ≡ true = ground arith in
      rw (magic_read, version_read, type_read, same, len_announced) refl

  head_read :
      scripted.read 12 (frame h type payload ++ rest, output) ≡ ((payload ++ rest, output), ok head)
  head_read =
      let (size, magic_read, version_read, type_read, len_read) =
        header_fields h h type (length payload % 2 ^ 32) (omega arith) in
      rw (append_assoc head payload rest) (script_read-append 12 head (payload ++ rest) output size)

  -- Behind the checks of the header: a complaint, or what is made of the payload.
  abbrev checked :
      {A : Type 0} → (List ℕ → A) → (List ℕ → Result A) → Option (List ℕ) → Action Script A
  checked refusal show complains = elim complains [
    | some what ↦ pure (refusal what)
    | none ↦ (do
      payload ← read_payload scripted (hton h 4 (header_of h head).len_be)
      lift (show payload))
  ]

  checked-ReadFrame :
      {A : Type 0} (refusal : List ℕ → A) (show : List ℕ → Result A) (o : Option (List ℕ))
      → o ≡ (if ltb 1024 (length payload) then some (text "ERROR: payload too large") else none)
      → checked refusal show o (payload ++ rest, output)
        ≡ ReadFrame payload rest output (refusal (text "ERROR: payload too large")) (show payload)
  checked-ReadFrame refusal show o e = elim (Bool-cases (ltb 1024 (length payload))) [
    | inl large ↦ rw (e, large) refl
    | inr fits ↦
        rw (e, fits)
          (bind-runs (read_payload scripted (hton h 4 (header_of h head).len_be))
            (payload ++ rest, output) (λ payload. lift (show payload)) _ _ _
            (rw len_announced (read_payload-frame h type payload rest output small)) refl)
  ]

  read_response-frame :
      read_response h scripted (type_code type) (frame h type payload ++ rest, output)
      ≡ ReadFrame payload rest output too_large (show_payload h (type_code type) payload)
  unfolding read_response
  read_response-frame =
      bind-runs (scripted.read 12) (frame h type payload ++ rest, output)
        (λ bytes.
          let header = header_of h bytes in
          elim (header_complaint h (type_code type) header) [
            | some what ↦ pure (complaint what)
            | none ↦ (do
              payload ← read_payload scripted (hton h 4 header.len_be)
              lift (show_payload h (type_code type) payload))
          ])
        _ _ _ head_read
        (checked-ReadFrame complaint (show_payload h (type_code type)) _ header_complaint-frame)

-- `test_auth` on a REGISTER_RESP, and `test_persistent` on a LOGIN_RESP.
module _ (h : Endian) (payload rest : List ℕ) (output : List (List ℕ))
    (small : length payload < 2 ^ 32) where
  read_registered-frame :
      read_response h scripted 11 (frame h register_resp payload ++ rest, output)
      ≡ ReadFrame payload rest output too_large (show_registered h payload)
  unfolding show_payload type_code
  read_registered-frame = read_response-frame h register_resp payload rest output small

  -- On a REGISTER_RESP of a server of its byte order, whatever its payload below 2 ^ 32 bytes is, `test_auth`
  -- reads past the end of the payload exactly where it has 3 to 1024 bytes and announces more
  -- bytes of its message than it has.
  pub read_response-overread :
      ((read_response h scripted 11 (frame h register_resp payload ++ rest, output)).1 ≡ fault) ↔ (
        (length payload ≤ 1024)
        × (3 ≤ length payload)
        × ((n : ℕ) × (get h 2 payload 1 ≡ ok n) × (length payload < 3 + n)))
  read_response-overread = (
    λ e. outcome (sym (ap (λ r. r.1) read_registered-frame) ∙ e),
    λ (bounded, least, announced).
        let within : ltb 1024 (length payload) ≡ false = ground (arith, bounded) in
        ap (λ r. r.1) read_registered-frame
        ∙ (rw within ((show_registered-fault h payload).1 (least, announced))),
  )
    where
      outcome :
          (ReadFrame payload rest output too_large (show_registered h payload)).1 ≡ fault
          → (length payload ≤ 1024)
            × (3 ≤ length payload)
            × ((n : ℕ) × (get h 2 payload 1 ≡ ok n) × (length payload < 3 + n))
      outcome e = elim (Bool-cases (ltb 1024 (length payload))) [
        | inl large ↦ absurd (let e1 = rw large at e in cc)
        | inr within ↦
            let (least, announced) = (show_registered-fault h payload).0 (rw within at e) in
            (ground (arith, within), least, announced)
      ]
