-- ===== src/Protocol/RegisterReq.antt =====
-- `struct RegisterReq` of `core/include/fsx/protocol/auth_messages.h`.
use computer_network_final_p.Base.{ℕ, ◌+◌, List, length, ltb, Result, ok, ◌>>=◌, ◌>>◌, throw_if}
use computer_network_final_p.Wire.{Endian}
use computer_network_final_p.Protocol.{get_text}

pub record RegisterReq : Type 0 where
  pub username : List ℕ
  pub email : List ℕ
  pub password : List ℕ

unfoldable pub deserialize : Endian → List ℕ → Result RegisterReq
deserialize h payload = do
  throw_if (ltb (length payload) 6) "REGISTER_REQ: payload too short"
  (username, p1) ← get_text h payload 0 "REGISTER_REQ: invalid username_len"
  throw_if (ltb (length payload) (p1 + 2)) "REGISTER_REQ: missing email_len"
  (email, p2) ← get_text h payload p1 "REGISTER_REQ: invalid email_len"
  throw_if (ltb (length payload) (p2 + 2)) "REGISTER_REQ: missing password_len"
  (password, p3) ← get_text h payload p2 "REGISTER_REQ: invalid password_len"
  ok (record { username = username; email = email; password = password })
