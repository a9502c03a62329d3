-- ===== src/Protocol/RegisterResp.antt =====
-- `struct RegisterResp` of `core/include/fsx/protocol/auth_messages.h`.
use computer_network_final_p.Base.{ℕ, Bool, List, ◌∷◌, if◌then◌else◌}
use computer_network_final_p.Wire.{Endian}
use computer_network_final_p.Protocol.{put_text}

pub record RegisterResp : Type 0 where
  pub is_ok : Bool
  pub msg : List ℕ

unfoldable pub serialize : Endian → RegisterResp → List ℕ
serialize h r = (if r.is_ok then 1 else 0) ∷ put_text h r.msg
