-- ===== src/Protocol/FileDone.antt =====
-- `struct FileDone` of `core/include/fsx/protocol/file_messages.h`. The length test asks for 16 bytes,
-- and the last field ends at byte 20.
use computer_network_final_p.Base.{ℕ, List, ◌++◌, length, ltb, Result, ok, ◌>>=◌, ◌>>◌, throw_if}
use computer_network_final_p.Wire.{Endian, put, put64_portable, get}

pub record FileDone : Type 0 where
  pub transfer_id : ℕ
  pub total_chunks : ℕ
  pub file_size : ℕ

unfoldable pub deserialize : Endian → List ℕ → Result FileDone
deserialize h payload = do
  throw_if (ltb (length payload) 16) "FILE_DONE: payload too short"
  transfer_id ← get h 8 payload 0
  total_chunks ← get h 4 payload 8
  file_size ← get h 8 payload 12
  ok (record { transfer_id = transfer_id; total_chunks = total_chunks; file_size = file_size })

unfoldable pub serialize : Endian → FileDone → List ℕ
serialize h r =
    put64_portable h r.transfer_id ++ (put h 4 r.total_chunks ++ put64_portable h r.file_size)
