-- ===== src/Client/Exchange/Replies.antt =====
-- What the client reads from a peer that answers with success.
use computer_network_final_p.Base.{
  ℕ, ◌+◌, ◌^◌, ◌<◌, ◌≤◌, ◌≡◌, refl, true, List, [], ◌∷◌, ◌++◌, length, length-append, ◌==◌,
  if◌then◌else◌, ok, text, arith,
}
use computer_network_final_p.Base.Action.{pure, lift, ◌>>=◌, bind-runs}
use computer_network_final_p.Wire.{Endian, get_byte, get64_portable, put64_portable}
use computer_network_final_p.Protocol.Message.{
  type_code, file_offer_resp, file_accept_resp, file_result,
}
use computer_network_final_p.Protocol.FileOfferResp
use computer_network_final_p.Protocol.FileAcceptResp
use computer_network_final_p.Protocol.FileResult
use computer_network_final_p.Protocol.{put_text, optional_text}
use computer_network_final_p.Protocol.Fields.{FitsU16, length-put_text, optional_text-put_text}
use computer_network_final_p.Wire.Portable.{length-put64, get64-put64, At-put64}
use computer_network_final_p.Wire.Reading.{At-start, At-end, At-tail, get_byte-At}
use computer_network_final_p.Client.Sending.{
  read_accepted, read_offered, read_saved, throw_reason, unexpected,
}
use computer_network_final_p.Client.{read_answer}
use computer_network_final_p.Client.Frames.{frame}
use computer_network_final_p.Client.Exchange.{scripted, read_answer-frame}

-- The payloads of a peer's success: the offer is taken, the receiver accepts, and the file is stored.
abbrev pub offer_answer : Endian → ℕ → List ℕ
offer_answer h transfer_id =
    FileOfferResp.serialize h (record { is_ok = true; transfer_id = transfer_id; reason = [] })

abbrev pub accept_answer : Endian → List ℕ
accept_answer h = FileAcceptResp.serialize h (record { is_ok = true; reason = [] })

abbrev pub result_answer : Endian → ℕ → List ℕ → List ℕ
result_answer h transfer_id path =
    FileResult.serialize h
      (record { transfer_id = transfer_id; is_ok = true; path_or_reason = path })

module _ (h : Endian) (rest : List ℕ) (output : List (List ℕ)) where
  pub read_offered-frame :
      (transfer_id : ℕ)
      → transfer_id < 2 ^ 64
      → read_offered h scripted
          (frame h file_offer_resp (offer_answer h transfer_id) ++ rest, output)
        ≡ ((rest, output), ok transfer_id)
  unfolding read_offered FileOfferResp.serialize type_code
  read_offered-frame transfer_id id_fits =
      let payload = offer_answer h transfer_id in
      let a0 = At-start payload in
      let a1 = At-tail payload 0 0 (put64_portable h transfer_id ++ []) a0 in
      let a2 = At-put64 h payload 1 transfer_id [] a1 id_fits in
      let small : length payload < 2 ^ 32 = omega (
        arith,
        length-put64 h transfer_id id_fits,
        length-append (put64_portable h transfer_id) [],
      ) in
      let enough : 9 ≤ length payload = omega (arith, a2.room) in
      let wrong = unexpected (text "FILE_OFFER_RESP") in
      let short = text "FILE_OFFER_RESP too short" in
      bind-runs (read_answer h scripted 31 9 wrong short)
        (frame h file_offer_resp payload ++ rest, output)
        (λ payload. do
          flag ← lift (get_byte payload 0)
          transfer_id ← lift (get64_portable h payload 1)
          if flag == 0
              then pure transfer_id
              else throw_reason h payload 9 (text "FILE_OFFER failed: "))
        _ _ _ (read_answer-frame h file_offer_resp payload rest output small 9 wrong short enough)
        (rw (get_byte-At payload 0 0 _ a0, get64-put64 h payload 1 _ _ a1 id_fits) refl)

  pub read_accepted-frame :
      (refusal : List ℕ)
      → read_accepted h scripted refusal
          (frame h file_accept_resp (accept_answer h) ++ rest, output)
        ≡ ((rest, output), ok tt)
  unfolding read_accepted FileAcceptResp.serialize type_code
  read_accepted-frame refusal =
      let payload = accept_answer h in
      let wrong = unexpected (text "FILE_ACCEPT_RESP") in
      let short = text "FILE_ACCEPT_RESP too short" in
      bind-runs (read_answer h scripted 33 1 wrong short)
        (frame h file_accept_resp payload ++ rest, output)
        (λ payload. do
          flag ← lift (get_byte payload 0)
          if flag == 0 then pure tt else throw_reason h payload 1 refusal)
        _ _ _
        (read_answer-frame h file_accept_resp payload rest output (omega arith) 1 wrong short
          (omega arith))
        (rw (get_byte-At payload 0 0 _ (At-start payload)) refl)

  pub read_saved-frame :
      (transfer_id : ℕ) (path : List ℕ)
      → transfer_id < 2 ^ 64
      → FitsU16 path
      → read_saved h scripted
          (frame h file_result (result_answer h transfer_id path) ++ rest, output)
        ≡ ((rest, output), ok path)
  unfolding read_saved FileResult.serialize type_code
  read_saved-frame transfer_id path id_fits path_fits =
      let payload = result_answer h transfer_id path in
      let body = put_text h path in
      let a0 = At-start payload in
      let a1 = At-put64 h payload 0 transfer_id (0 ∷ body) a0 id_fits in
      let a2 = At-tail payload 8 0 body a1 in
      let size : length payload ≡ 9 + (length path + 2) =
        omega (arith, a2.room, length-put_text h path) in
      let wrong = unexpected (text "FILE_RESULT") in
      let short = text "FILE_RESULT too short" in
      bind-runs (read_answer h scripted 36 9 wrong short)
        (frame h file_result payload ++ rest, output)
        (λ payload. do
          transfer_id ← lift (get64_portable h payload 0)
          flag ← lift (get_byte payload 8)
          if flag == 0
              then lift (optional_text h payload 9)
              else throw_reason h payload 9 (text "FILE_RESULT failed: "))
        _ _ _
        (read_answer-frame h file_result payload rest output (omega (arith, size)) 9 wrong short
          (omega (arith, size)))
        (rw
          (
            get64-put64 h payload 0 _ _ a0 id_fits,
            get_byte-At payload 8 0 _ a1,
            optional_text-put_text h payload 9 path [] path_fits (At-end payload 9 body a2),
          )
          refl)
