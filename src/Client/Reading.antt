-- ===== src/Client/Reading.antt =====
-- The answers of the server as `test_auth` and `test_persistent` show them.
use computer_network_final_p.Base.{
  ℕ, ◌+◌, ◌/◌, ◌%◌, ◌^◌, ◌≤◌, ◌<◌, ◌≡◌, refl, ap, ◌∙◌, subst, Bool, true, false, not, some, List,
  [], ◌∷◌, ◌++◌, append_assoc, length, le→ltb, le→leb, leb, ltb, Bool-cases, inl, inr, ◌↔◌, ◌==◌,
  if◌then◌else◌, ok, fault, arith,
}
use computer_network_final_p.Wire.{Endian, put, be_bytes, le_bytes, get, get_bytes}
use computer_network_final_p.Wire.Order.{put-be_bytes}
use computer_network_final_p.Wire.Reading.{
  At, At-start, At-tail, At-end, At-leb, At-fits, get_byte-At, get_byte-ne-fault, get-ne-fault,
}
use computer_network_final_p.Protocol.{put_text}
use computer_network_final_p.Protocol.Fields.{
  FitsU16, length-put, length-put_text, At-put_text, length_there, length_read, text_fits,
  text_read,
}
use computer_network_final_p.Protocol.RegisterResp
use computer_network_final_p.Protocol.RegisterResp.{RegisterResp}
use computer_network_final_p.Protocol.LoginResp
use computer_network_final_p.Protocol.LoginResp.{LoginResp}
use computer_network_final_p.Client.Answers.{
  registered, logged_in, field_at, show_registered, token_of, read_token, show_logged_in,
  login_succeeds,
}

flag_shown : (b : Bool) → not ((if b then 1 else 0) == 0) ≡ b
flag_shown true = refl
flag_shown false = refl

field_at-put_text :
    (h : Endian) (payload : List ℕ) (pos : ℕ) (s rest : List ℕ)
    → FitsU16 s
    → At payload pos (put_text h s ++ rest)
    → field_at h payload pos ≡ ok (some s, pos + 2 + length s)
unfolding field_at
field_at-put_text h payload pos s rest fits at = rw (
  At-leb payload pos (put h 2 (length s)) (s ++ rest) 2 (length-put h 2 (length s))
      (length_there h payload pos s rest fits at),
  length_read h payload pos s rest fits at,
  le→leb _ _ (text_fits h payload pos s rest fits at),
  text_read h payload pos s rest fits at,
)

-- `test_auth` shows a REGISTER_RESP of a server of its byte order as it was sent, where the message is
-- below 65536 bytes.
pub show_registered-serialize :
    (h : Endian) (r : RegisterResp)
    → FitsU16 r.msg
    → show_registered h (RegisterResp.serialize h r) ≡ ok (registered r.is_ok r.msg)
unfolding show_registered RegisterResp.serialize
show_registered-serialize h r fits =
    let flag : ℕ = if r.is_ok then 1 else 0 in
    let payload : List ℕ = flag ∷ put_text h r.msg in
    let a0 = At-start payload in
    let a1 = At-end payload 1 (put_text h r.msg) (At-tail payload 0 flag (put_text h r.msg) a0) in
    rw (
      le→ltb (length payload) 3 (omega (arith, length-put_text h r.msg)),
      get_byte-At payload 0 flag (put_text h r.msg) a0,
      length_read h payload 1 r.msg [] fits a1,
      text_read h payload 1 r.msg [] fits a1,
      flag_shown r.is_ok,
    )

-- `test_auth` reads past the end of the payload exactly where a REGISTER_RESP announces more bytes of its
-- message than it has.
pub show_registered-fault :
    (h : Endian) (payload : List ℕ)
    → (show_registered h payload ≡ fault)
      ↔ ((3 ≤ length payload) × ((n : ℕ) × (get h 2 payload 1 ≡ ok n) × (length payload < 3 + n)))
unfolding show_registered get_bytes
show_registered-fault h payload = (reads_past, announced_past)
  where
    reads_past :
        show_registered h payload ≡ fault
        → (3 ≤ length payload) × ((n : ℕ) × (get h 2 payload 1 ≡ ok n) × (length payload < 3 + n))
    reads_past e = elim (Bool-cases (ltb (length payload) 3)) [
      | inl short ↦ absurd (let e1 = rw short at e in cc)
      | inr long ↦
          let least : 3 ≤ length payload = ground (arith, long) in
          let (flag, flag_read) = get_byte-ne-fault payload 0 (omega (arith, least)) in
          let (n, announced) = get-ne-fault h 2 payload 1 least in
          elim (Bool-cases (leb (3 + n) (length payload))) [
            | inl fits ↦ absurd (let e1 = rw (long, flag_read, announced, fits) at e in cc)
            | inr beyond ↦ (least, (n, announced, ground (arith, beyond)))
          ]
    ]

    announced_past :
        (3 ≤ length payload) × ((n : ℕ) × (get h 2 payload 1 ≡ ok n) × (length payload < 3 + n))
        → show_registered h payload ≡ fault
    announced_past (least, (n, announced, short)) =
        let (flag, flag_read) = get_byte-ne-fault payload 0 (omega (arith, least)) in
        let beyond : leb (3 + n) (length payload) ≡ false = ground (arith, short) in
        rw (le→ltb (length payload) 3 least, flag_read, announced, beyond)

-- The first two bytes of a user id below 2 ^ 48 are 0.
user_id_zeros : (h : Endian) (x : ℕ) → x < 2 ^ 48 → put h 8 x ≡ put_text h [] ++ be_bytes 6 x
unfolding be_bytes le_bytes put_text
user_id_zeros h x small =
    let last : x / 256 / 256 / 256 / 256 / 256 / 256 % 256 ≡ 0 = omega arith in
    let first : x / 256 / 256 / 256 / 256 / 256 / 256 / 256 % 256 ≡ 0 = omega arith in
    put-be_bytes h 8 x ∙ rw (last, first, put-be_bytes h 2 0) refl

module _ (h : Endian) (token username msg : List ℕ) (user_id : ℕ) (token_fits : FitsU16 token)
    (msg_fits : FitsU16 msg) (small : user_id < 2 ^ 48) where
  abbrev answer : Bool → List ℕ
  answer is_ok =
      LoginResp.serialize h
        (record { is_ok = is_ok; token = token; user_id = user_id; username = username; msg = msg })

  login_shown :
      (is_ok : Bool)
      → (show_logged_in h (answer is_ok)
          ≡ ok (logged_in is_ok (if is_ok then token else []) (if is_ok then [] else msg)))
        × (login_succeeds h (answer is_ok) ≡ ok is_ok)
  unfolding show_logged_in read_token token_of login_succeeds LoginResp.serialize
  login_shown false =
      let payload : List ℕ = 0 ∷ put_text h msg in
      let a0 = At-start payload in
      let a1 = At-end payload 1 (put_text h msg) (At-tail payload 0 0 (put_text h msg) a0) in
      let long = le→ltb (length payload) 3 (omega (arith, length-put_text h msg)) in
      let flag = get_byte-At payload 0 0 (put_text h msg) a0 in
      (rw (long, flag, field_at-put_text h payload 1 msg [] msg_fits a1), rw (long, flag))
  login_shown true =
      let id = put h 8 user_id in
      let name = put_text h username in
      let after_token = (id ++ name) ++ put_text h msg in
      let rest = (put_text h token ++ (id ++ name)) ++ put_text h msg in
      let payload : List ℕ = 1 ∷ rest in
      let a0 = At-start payload in
      let a1 =
        subst (At payload 1) (append_assoc (put_text h token) (id ++ name) (put_text h msg))
          (At-tail payload 0 1 rest a0) in
      let a2 = At-put_text h payload 1 token after_token token_fits a1 in
      let zeros : after_token ≡ put_text h [] ++ (be_bytes 6 user_id ++ (name ++ put_text h msg)) =
        append_assoc id name (put_text h msg)
        ∙ ap (λ xs. xs ++ (name ++ put_text h msg)) (user_id_zeros h user_id small)
        ∙ append_assoc (put_text h []) (be_bytes 6 user_id) (name ++ put_text h msg) in
      let a3 = subst (At payload (1 + 2 + length token)) zeros a2 in
      let long = le→ltb (length payload) 3 (
        omega (
          arith,
          a2.room,
          length-put_text h token,
          At-fits payload 1 (put_text h token) after_token (length token + 2)
              (length-put_text h token) a1,
        )) in
      let flag = get_byte-At payload 0 1 rest a0 in
      let token_read = field_at-put_text h payload 1 token after_token token_fits a1 in
      (
        rw (
          long,
          flag,
          token_read,
          field_at-put_text h payload (1 + 2 + length token) [] _ (omega arith) a3,
        ),
        rw (long, flag, token_read),
      )

-- What `test_auth` and `test_persistent` make of a LOGIN_RESP of a server of their byte order, with a
-- token and a message below 65536 bytes and a user id below 2 ^ 48: the status and, on success, the token
-- are those that were sent; the message is shown where the login failed, and is empty where it
-- succeeded, since the first bytes of the user id are taken for its length.
pub show_logged_in-serialize :
    (h : Endian) (r : LoginResp)
    → FitsU16 r.token
    → FitsU16 r.msg
    → r.user_id < 2 ^ 48
    → (show_logged_in h (LoginResp.serialize h r)
        ≡ ok (logged_in r.is_ok (if r.is_ok then r.token else []) (if r.is_ok then [] else r.msg)))
      × (login_succeeds h (LoginResp.serialize h r) ≡ ok r.is_ok)
show_logged_in-serialize h r token_fits msg_fits small =
    login_shown h r.token r.username r.msg r.user_id token_fits msg_fits small r.is_ok
