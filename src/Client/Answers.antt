-- ===== src/Client/Answers.antt =====
-- How `read_response` of `client/src/test_auth.cpp` and `read_login_response` of
-- `client/src/test_persistent.cpp` take an answer apart.
use computer_network_final_p.Base.{
  ℕ, ◌+◌, Bool, false, not, Option, none, some, List, [], ◌++◌, length, ltb, leb, ◌==◌,
  if◌then◌else◌, Result, ok, ◌>>=◌, text,
}
use computer_network_final_p.Wire.{Endian, hton, get, get_byte, get_bytes}
use computer_network_final_p.FileStore.Decimal.{to_string}
use computer_network_final_p.Client.{magic, version}
use computer_network_final_p.Protocol.Message.{MessageHeaderWire}

-- What a run prints.
pub data Shown : Type 0 where
  complaint : List ℕ → Shown
  registered : Bool → List ℕ → Shown
  logged_in : Bool → List ℕ → List ℕ → Shown
  nothing : Shown

-- A length and as many bytes, where both fit, and the position behind what was read.
unfoldable pub field_at : Endian → List ℕ → ℕ → Result (Option (List ℕ) × ℕ)
field_at h payload pos =
    if leb (pos + 2) (length payload)
    then (do
      n ← get h 2 payload pos
      if leb (pos + 2 + n) (length payload)
          then (do field ← get_bytes payload (pos + 2) n; ok (some field, pos + 2 + n))
          else ok (none, pos + 2))
    else ok (none, pos)

-- REGISTER_RESP: nothing bounds the length of the message.
unfoldable pub show_registered : Endian → List ℕ → Result Shown
show_registered h payload =
    if ltb (length payload) 3 then ok (complaint (text "ERROR: REGISTER_RESP too short")) else (do
      flag ← get_byte payload 0
      n ← get h 2 payload 1
      msg ← get_bytes payload 3 n
      ok (registered (not (flag == 0)) msg))

-- The token of a LOGIN_RESP, empty where it was not read.
unfoldable pub token_of : Option (List ℕ) → List ℕ
token_of none = []
token_of (some token) = token

unfoldable pub read_token : Endian → Bool → List ℕ → Result (List ℕ × ℕ)
unfolding field_at token_of
read_token h is_ok payload =
    if is_ok then (do (token, pos) ← field_at h payload 1; ok (token_of token, pos)) else ok ([], 1)

unfoldable pub show_logged_in : Endian → List ℕ → Result Shown
unfolding field_at read_token
show_logged_in h payload =
    if ltb (length payload) 3 then ok (complaint (text "ERROR: LOGIN_RESP too short")) else (do
      flag ← get_byte payload 0
      let is_ok = not (flag == 0)
      (token, pos) ← read_token h is_ok payload
      (msg, end) ← field_at h payload pos
      ok (elim msg [ none ↦ nothing | some msg ↦ logged_in is_ok token msg ]))

-- By the type that is expected; `main` expects no other.
unfoldable pub show_payload : Endian → ℕ → List ℕ → Result Shown
unfolding show_registered show_logged_in
show_payload h expected payload =
    if expected == 11
    then show_registered h payload
    else if expected == 13
    then show_logged_in h payload
    else ok nothing

-- The checks of the header, with the complaint where one fails.
unfoldable pub header_complaint : Endian → ℕ → MessageHeaderWire → Option (List ℕ)
header_complaint h expected header =
    if not (hton h 4 header.magic_be == magic)
    then some (text "ERROR: bad magic")
    else if not (header.version_byte == version)
    then some (text "ERROR: bad version")
    else if not (header.type_byte == expected)
    then some (
        text "ERROR: unexpected type (got "
        ++ (to_string header.type_byte ++ (text ", expected " ++ (to_string expected ++ text ")"))))
    else if ltb 1024 (hton h 4 header.len_be)
    then some (text "ERROR: payload too large")
    else none

-- What `read_login_response` returns.
unfoldable pub login_succeeds : Endian → List ℕ → Result Bool
unfolding read_token
login_succeeds h payload = if ltb (length payload) 3 then ok false else (do
  flag ← get_byte payload 0
  let is_ok = not (flag == 0)
  (token, pos) ← read_token h is_ok payload
  ok is_ok)
