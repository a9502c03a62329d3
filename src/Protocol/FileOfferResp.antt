-- ===== src/Protocol/FileOfferResp.antt =====
-- `struct FileOfferResp` of `core/include/fsx/protocol/file_messages.h`.
use computer_network_final_p.Base.{
  ℕ, Bool, List, [], ◌∷◌, ◌++◌, length, ltb, ◌==◌, if◌then◌else◌, Result, ok, ◌>>=◌, ◌>>◌, throw_if,
}
use computer_network_final_p.Wire.{Endian, put64_portable, get_byte, get64_portable}
use computer_network_final_p.Protocol.{put_text, optional_text}

pub record FileOfferResp : Type 0 where
  pub is_ok : Bool
  pub transfer_id : ℕ
  pub reason : List ℕ

unfoldable pub deserialize : Endian → List ℕ → Result FileOfferResp
deserialize h payload = do
  throw_if (ltb (length payload) 9) "FILE_OFFER_RESP: payload too short"
  status ← get_byte payload 0
  transfer_id ← get64_portable h payload 1
  reason ← (if status == 0 then ok [] else optional_text h payload 9)
  ok (record { is_ok = status == 0; transfer_id = transfer_id; reason = reason })

unfoldable pub serialize : Endian → FileOfferResp → List ℕ
serialize h r =
    (if r.is_ok then 0 else 1)
    ∷ (put64_portable h r.transfer_id ++ (if r.is_ok then [] else put_text h r.reason))
