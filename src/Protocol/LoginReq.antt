-- ===== src/Protocol/LoginReq.antt =====
-- `struct LoginReq` of `core/include/fsx/protocol/auth_messages.h`.
use computer_network_final_p.Base.{ℕ, ◌+◌, List, length, ltb, Result, ok, ◌>>=◌, ◌>>◌, throw_if}
use computer_network_final_p.Wire.{Endian}
use computer_network_final_p.Protocol.{get_text}

pub record LoginReq : Type 0 where
  pub username : List ℕ
  pub password : List ℕ

unfoldable pub deserialize : Endian → List ℕ → Result LoginReq
deserialize h payload = do
  throw_if (ltb (length payload) 4) "LOGIN_REQ: payload too short"
  (username, p1) ← get_text h payload 0 "LOGIN_REQ: invalid username_len"
  throw_if (ltb (length payload) (p1 + 2)) "LOGIN_REQ: missing password_len"
  (password, p2) ← get_text h payload p1 "LOGIN_REQ: invalid password_len"
  ok (record { username = username; password = password })
