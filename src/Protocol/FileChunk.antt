-- ===== src/Protocol/FileChunk.antt =====
-- `struct FileChunk` of `core/include/fsx/protocol/file_messages.h`.
use computer_network_final_p.Base.{
  ℕ, List, ◌++◌, length, drop, ltb, Result, ok, ◌>>=◌, ◌>>◌, throw_if,
}
use computer_network_final_p.Wire.{Endian, put, put64_portable, get}

pub record FileChunk : Type 0 where
  pub transfer_id : ℕ
  pub chunk_index : ℕ
  pub bytes : List ℕ

-- A payload of twelve bytes leaves the data empty, as `drop 12` does.
unfoldable pub deserialize : Endian → List ℕ → Result FileChunk
deserialize h payload = do
  throw_if (ltb (length payload) 12) "FILE_CHUNK: payload too short"
  transfer_id ← get h 8 payload 0
  chunk_index ← get h 4 payload 8
  ok (record { transfer_id = transfer_id; chunk_index = chunk_index; bytes = drop 12 payload })

unfoldable pub serialize : Endian → FileChunk → List ℕ
serialize h r = put64_portable h r.transfer_id ++ (put h 4 r.chunk_index ++ r.bytes)
