-- ===== src/Protocol/RoundTrip/Reply.antt =====
-- The answers that carry a text: FILE_OFFER_RESP, FILE_ACCEPT_RESP and FILE_RESULT.
use computer_network_final_p.Base.{
  ℕ, ◌^◌, ◌<◌, ◌≡◌, refl, Bool, true, false, if◌then◌else◌, List, [], ◌∷◌, ◌++◌, length, le→ltb, ok,
  arith, ◌==◌,
}
use computer_network_final_p.Wire.{little, put64_portable}
use computer_network_final_p.Wire.Reading.{At-start, At-end, At-tail, get_byte-At}
use computer_network_final_p.Protocol.{put_text}
use computer_network_final_p.Protocol.Fields.{
  FitsU16, get64_portable-put, get-put64_portable, At-put64_portable, optional_text-put_text,
}
use computer_network_final_p.Protocol.FileOfferResp
use computer_network_final_p.Protocol.FileOfferResp.{FileOfferResp}
use computer_network_final_p.Protocol.FileAcceptResp
use computer_network_final_p.Protocol.FileAcceptResp.{FileAcceptResp}
use computer_network_final_p.Protocol.FileResult
use computer_network_final_p.Protocol.FileResult.{FileResult}

-- The status byte says which it was.
status_bit : (b : Bool) → ((if b then 0 else 1) == 0) ≡ b
status_bit true = refl
status_bit false = refl

offer_resp_by_status :
    (is_ok : Bool) (transfer_id : ℕ) (reason : List ℕ)
    → transfer_id < 2 ^ 64
    → FitsU16 reason
    → FileOfferResp.deserialize little (
        FileOfferResp.serialize little
          (record { is_ok = is_ok; transfer_id = transfer_id; reason = reason }))
      ≡ ok (record {
        is_ok = is_ok;
        transfer_id = transfer_id;
        reason = if is_ok then [] else reason;
      })
unfolding FileOfferResp.deserialize FileOfferResp.serialize
offer_resp_by_status true id reason id_fits reason_fits =
    let payload : List ℕ = 0 ∷ (put64_portable little id ++ []) in
    let a0 = At-start payload in
    let a1 = At-tail payload 0 0 (put64_portable little id ++ []) a0 in
    let a2 = At-put64_portable payload 1 _ [] a1 in
    rw (
      le→ltb (length payload) 9 (omega (arith, a2.room)),
      get_byte-At payload 0 0 _ a0,
      get64_portable-put payload 1 _ _ a1 id_fits,
    )
offer_resp_by_status false id reason id_fits reason_fits =
    let body = put_text little reason in
    let payload : List ℕ = 1 ∷ (put64_portable little id ++ body) in
    let a0 = At-start payload in
    let a1 = At-tail payload 0 1 (put64_portable little id ++ body) a0 in
    let a2 = At-put64_portable payload 1 _ body a1 in
    rw (
      le→ltb (length payload) 9 (omega (arith, a2.room)),
      get_byte-At payload 0 1 _ a0,
      get64_portable-put payload 1 _ _ a1 id_fits,
      optional_text-put_text little payload 9 reason [] reason_fits (At-end payload 9 body a2),
    )

-- An offer's answer comes back, without the reason where it is a success.
pub deserialize-serialize_offer_resp :
    (r : FileOfferResp)
    → r.transfer_id < 2 ^ 64
    → FitsU16 r.reason
    → FileOfferResp.deserialize little (FileOfferResp.serialize little r)
      ≡ ok (record r { reason = if r.is_ok then [] else r.reason })
deserialize-serialize_offer_resp r = offer_resp_by_status r.is_ok r.transfer_id r.reason

accept_resp_by_status :
    (is_ok : Bool) (reason : List ℕ)
    → FitsU16 reason
    → FileAcceptResp.deserialize little
        (FileAcceptResp.serialize little (record { is_ok = is_ok; reason = reason }))
      ≡ ok (record { is_ok = is_ok; reason = if is_ok then [] else reason })
unfolding FileAcceptResp.deserialize FileAcceptResp.serialize
accept_resp_by_status true reason fits = rw (get_byte-At (0 ∷ []) 0 0 [] (At-start (0 ∷ [])))
accept_resp_by_status false reason fits =
    let body = put_text little reason in
    let payload : List ℕ = 1 ∷ body in
    let a0 = At-start payload in
    let a1 = At-tail payload 0 1 body a0 in
    rw (
      le→ltb (length payload) 1 (omega (arith, a1.room)),
      get_byte-At payload 0 1 _ a0,
      optional_text-put_text little payload 1 reason [] fits (At-end payload 1 body a1),
    )

-- So does the answer to an accept.
pub deserialize-serialize_accept_resp :
    (r : FileAcceptResp)
    → FitsU16 r.reason
    → FileAcceptResp.deserialize little (FileAcceptResp.serialize little r)
      ≡ ok (record r { reason = if r.is_ok then [] else r.reason })
deserialize-serialize_accept_resp r = accept_resp_by_status r.is_ok r.reason

result_by_status :
    (is_ok : Bool) (transfer_id : ℕ) (path : List ℕ)
    → transfer_id < 2 ^ 64
    → FitsU16 path
    → FileResult.deserialize little (
        FileResult.serialize little
          (record { transfer_id = transfer_id; is_ok = is_ok; path_or_reason = path }))
      ≡ ok (record { transfer_id = transfer_id; is_ok = is_ok; path_or_reason = path })
unfolding FileResult.deserialize FileResult.serialize
result_by_status is_ok id path id_fits path_fits =
    let body = put_text little path in
    let status : ℕ = if is_ok then 0 else 1 in
    let payload = put64_portable little id ++ (status ∷ body) in
    let a0 = At-start payload in
    let a1 = At-put64_portable payload 0 id (status ∷ body) a0 in
    let a2 = At-tail payload 8 status body a1 in
    rw (
      le→ltb (length payload) 9 (omega (arith, a2.room)),
      get-put64_portable payload 0 _ _ a0 id_fits,
      get_byte-At payload 8 status _ a1,
      optional_text-put_text little payload 9 path [] path_fits (At-end payload 9 body a2),
      status_bit is_ok,
    )

-- A result comes back whole, with its path or reason.
pub deserialize-serialize_result :
    (r : FileResult)
    → r.transfer_id < 2 ^ 64
    → FitsU16 r.path_or_reason
    → FileResult.deserialize little (FileResult.serialize little r) ≡ ok r
deserialize-serialize_result r = result_by_status r.is_ok r.transfer_id r.path_or_reason

-- On a little-endian host, a FILE_OFFER_RESP, a FILE_ACCEPT_RESP and a FILE_RESULT with ids below 2 ^ 64
-- and texts shorter than 65536 bytes are read back, but for the reason of the first two, which is
-- empty where the status is a success.
pub deserialize-serialize_reply :
    (offer : FileOfferResp) (accept : FileAcceptResp) (result : FileResult)
    → offer.transfer_id < 2 ^ 64
    → FitsU16 offer.reason
    → FitsU16 accept.reason
    → result.transfer_id < 2 ^ 64
    → FitsU16 result.path_or_reason
    → (FileOfferResp.deserialize little (FileOfferResp.serialize little offer)
        ≡ ok (record offer { reason = if offer.is_ok then [] else offer.reason }))
      × (FileAcceptResp.deserialize little (FileAcceptResp.serialize little accept)
          ≡ ok (record accept { reason = if accept.is_ok then [] else accept.reason }))
      × (FileResult.deserialize little (FileResult.serialize little result) ≡ ok result)
deserialize-serialize_reply offer accept result h1 h2 h3 h4 h5 = (
  deserialize-serialize_offer_resp offer h1 h2,
  deserialize-serialize_accept_resp accept h3,
  deserialize-serialize_result result h4 h5,
)
