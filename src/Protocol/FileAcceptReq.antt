-- ===== src/Protocol/FileAcceptReq.antt =====
-- `struct FileAcceptReq` of `core/include/fsx/protocol/file_messages.h`. It writes with the portable
-- swap and reads with `be64toh`.
use computer_network_final_p.Base.{
  ℕ, Bool, List, [], ◌∷◌, ◌++◌, length, ltb, ◌==◌, if◌then◌else◌, Result, ok, ◌>>=◌, ◌>>◌, throw_if,
}
use computer_network_final_p.Wire.{Endian, put64_portable, get, get_byte}

pub record FileAcceptReq : Type 0 where
  pub transfer_id : ℕ
  pub accept : Bool

unfoldable pub deserialize : Endian → List ℕ → Result FileAcceptReq
deserialize h payload = do
  throw_if (ltb (length payload) 9) "FILE_ACCEPT_REQ: payload too short"
  transfer_id ← get h 8 payload 0
  flag ← get_byte payload 8
  ok (record { transfer_id = transfer_id; accept = flag == 1 })

unfoldable pub serialize : Endian → FileAcceptReq → List ℕ
serialize h r = put64_portable h r.transfer_id ++ ((if r.accept then 1 else 0) ∷ [])
