-- ===== src/Protocol/FileResult.antt =====
-- `struct FileResult` of `core/include/fsx/protocol/file_messages.h`.
use computer_network_final_p.Base.{
  ℕ, Bool, List, ◌∷◌, ◌++◌, length, ltb, ◌==◌, if◌then◌else◌, Result, ok, ◌>>=◌, ◌>>◌, throw_if,
}
use computer_network_final_p.Wire.{Endian, put64_portable, get, get_byte}
use computer_network_final_p.Protocol.{put_text, optional_text}

pub record FileResult : Type 0 where
  pub transfer_id : ℕ
  pub is_ok : Bool
  pub path_or_reason : List ℕ

unfoldable pub deserialize : Endian → List ℕ → Result FileResult
deserialize h payload = do
  throw_if (ltb (length payload) 9) "FILE_RESULT: payload too short"
  transfer_id ← get h 8 payload 0
  status ← get_byte payload 8
  path_or_reason ← optional_text h payload 9
  ok (record { transfer_id = transfer_id; is_ok = status == 0; path_or_reason = path_or_reason })

unfoldable pub serialize : Endian → FileResult → List ℕ
serialize h r =
    put64_portable h r.transfer_id ++ ((if r.is_ok then 0 else 1) ∷ put_text h r.path_or_reason)
