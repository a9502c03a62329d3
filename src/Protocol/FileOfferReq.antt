-- ===== src/Protocol/FileOfferReq.antt =====
-- `struct FileOfferReq` of `core/include/fsx/protocol/file_messages.h`.
use computer_network_final_p.Base.{
  ℕ, ◌+◌, List, ◌++◌, length, ltb, Result, ok, ◌>>=◌, ◌>>◌, throw_if,
}
use computer_network_final_p.Wire.{Endian, put, put64_portable, get, get64_portable}
use computer_network_final_p.Protocol.{put_text, get_text}

pub record FileOfferReq : Type 0 where
  pub client_transfer_id : ℕ
  pub receiver_username : List ℕ
  pub filename : List ℕ
  pub file_size : ℕ
  pub chunk_size : ℕ

-- The test `pos + 8 <= payload.size()` before the first field always holds after the first check.
unfoldable pub deserialize : Endian → List ℕ → Result FileOfferReq
deserialize h payload = do
  throw_if (ltb (length payload) 14) "FILE_OFFER_REQ: payload too short"
  client_transfer_id ← get64_portable h payload 0
  throw_if (ltb (length payload) (8 + 2)) "FILE_OFFER_REQ: missing receiver_username_len"
  (receiver_username, p1) ← get_text h payload 8 "FILE_OFFER_REQ: invalid receiver_username_len"
  throw_if (ltb (length payload) (p1 + 2)) "FILE_OFFER_REQ: missing filename_len"
  (filename, p2) ← get_text h payload p1 "FILE_OFFER_REQ: invalid filename_len"
  throw_if (ltb (length payload) (p2 + 8)) "FILE_OFFER_REQ: missing file_size"
  file_size ← get64_portable h payload p2
  throw_if (ltb (length payload) (p2 + 8 + 4)) "FILE_OFFER_REQ: missing chunk_size"
  chunk_size ← get h 4 payload (p2 + 8)
  ok (record {
    client_transfer_id = client_transfer_id;
    receiver_username = receiver_username;
    filename = filename;
    file_size = file_size;
    chunk_size = chunk_size;
  })

unfoldable pub serialize : Endian → FileOfferReq → List ℕ
serialize h r =
    put64_portable h r.client_transfer_id
    ++ (put_text h r.receiver_username
        ++ (put_text h r.filename ++ (put64_portable h r.file_size ++ put h 4 r.chunk_size)))
