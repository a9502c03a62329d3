-- ===== src/Protocol/FileAcceptResp.antt =====
-- `struct FileAcceptResp` of `core/include/fsx/protocol/file_messages.h`.
use computer_network_final_p.Base.{
  ℕ, Bool, List, [], ◌∷◌, length, ltb, ◌==◌, if◌then◌else◌, Result, ok, ◌>>=◌, ◌>>◌, throw_if,
}
use computer_network_final_p.Wire.{Endian, get_byte}
use computer_network_final_p.Protocol.{put_text, optional_text}

pub record FileAcceptResp : Type 0 where
  pub is_ok : Bool
  pub reason : List ℕ

unfoldable pub deserialize : Endian → List ℕ → Result FileAcceptResp
deserialize h payload = do
  throw_if (ltb (length payload) 1) "FILE_ACCEPT_RESP: payload too short"
  status ← get_byte payload 0
  reason ← (if status == 0 then ok [] else optional_text h payload 1)
  ok (record { is_ok = status == 0; reason = reason })

unfoldable pub serialize : Endian → FileAcceptResp → List ℕ
serialize h r = (if r.is_ok then 0 else 1) ∷ (if r.is_ok then [] else put_text h r.reason)
