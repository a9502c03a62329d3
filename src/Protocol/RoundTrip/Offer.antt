-- ===== src/Protocol/RoundTrip/Offer.antt =====
-- FILE_OFFER_REQ and FILE_OFFER_RESP.
use computer_network_final_p.Base.{◌+◌, ◌^◌, ◌<◌, ◌≡◌, [], ◌++◌, length, le→ltb, ok, arith}
use computer_network_final_p.Wire.{little, put, put64_portable}
use computer_network_final_p.Wire.Reading.{At-start, At-end}
use computer_network_final_p.Protocol.{put_text}
use computer_network_final_p.Protocol.Fields.{
  FitsU16, get-put, At-put, get64_portable-put, At-put64_portable, get_text-put_text, At-put_text,
}
use computer_network_final_p.Protocol.FileOfferReq
use computer_network_final_p.Protocol.FileOfferReq.{FileOfferReq}

-- Every field has the width that it has in the struct.
pub record IsFileOfferReq (r : FileOfferReq) : Type 0 where
  pub client_transfer_id_fits : r.client_transfer_id < 2 ^ 64
  pub receiver_username_fits : FitsU16 r.receiver_username
  pub filename_fits : FitsU16 r.filename
  pub file_size_fits : r.file_size < 2 ^ 64
  pub chunk_size_fits : r.chunk_size < 2 ^ 32

-- A well-formed offer comes back whole.
pub deserialize-serialize_offer_req :
    (r : FileOfferReq)
    → IsFileOfferReq r
    → FileOfferReq.deserialize little (FileOfferReq.serialize little r) ≡ ok r
unfolding FileOfferReq.deserialize FileOfferReq.serialize
deserialize-serialize_offer_req r v =
    let id = put64_portable little r.client_transfer_id in
    let name = put_text little r.receiver_username in
    let file = put_text little r.filename in
    let size = put64_portable little r.file_size in
    let chunk = put little 4 r.chunk_size in
    let payload = id ++ (name ++ (file ++ (size ++ chunk))) in
    let p1 = 8 + 2 + length r.receiver_username in
    let p2 = p1 + 2 + length r.filename in
    let a0 = At-start payload in
    let a1 = At-put64_portable payload 0 _ (name ++ (file ++ (size ++ chunk))) a0 in
    let a2 = At-put_text little payload 8 _ (file ++ (size ++ chunk)) v.receiver_username_fits a1 in
    let a3 = At-put_text little payload p1 _ (size ++ chunk) v.filename_fits a2 in
    let a4 = At-put64_portable payload p2 _ chunk a3 in
    let a5 = At-end payload (p2 + 8) chunk a4 in
    let a6 = At-put little payload (p2 + 8) [] 4 _ a5 in
    rw (
      le→ltb (length payload) 14 (omega (arith, a6.room)),
      get64_portable-put payload 0 _ _ a0 v.client_transfer_id_fits,
      le→ltb (length payload) 10 (omega (arith, a6.room)),
      get_text-put_text little payload 8 _ _ v.receiver_username_fits a1,
      le→ltb (length payload) (p1 + 2) (omega (arith, a6.room)),
      get_text-put_text little payload p1 _ _ v.filename_fits a2,
      le→ltb (length payload) (p2 + 8) (omega (arith, a6.room)),
      get64_portable-put payload p2 _ _ a3 v.file_size_fits,
      le→ltb (length payload) (p2 + 8 + 4) (omega (arith, a6.room)),
      get-put little payload (p2 + 8) [] 4 _ v.chunk_size_fits a5,
    )
