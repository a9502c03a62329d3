-- ===== src/Protocol/LoginResp.antt =====
-- `struct LoginResp` of `core/include/fsx/protocol/auth_messages.h`. `user_id` is the bit pattern of the
-- `long long`, below 2 ^ 64.
use computer_network_final_p.Base.{ℕ, Bool, List, [], ◌∷◌, ◌++◌, if◌then◌else◌}
use computer_network_final_p.Wire.{Endian, put}
use computer_network_final_p.Protocol.{put_text}

pub record LoginResp : Type 0 where
  pub is_ok : Bool
  pub token : List ℕ
  pub user_id : ℕ
  pub username : List ℕ
  pub msg : List ℕ

unfoldable pub serialize : Endian → LoginResp → List ℕ
serialize h r =
    (if r.is_ok then 1 else 0)
    ∷ ((if r.is_ok then put_text h r.token ++ (put h 8 r.user_id ++ put_text h r.username) else [])
        ++ put_text h r.msg)
