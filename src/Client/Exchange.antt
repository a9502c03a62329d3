-- ===== src/Client/Exchange.antt =====
-- A socket that plays a peer's part, and what the client reads from it.
pub mod Replies
pub mod Upload
pub mod Showing
use computer_network_final_p.Base.{
  ℕ, ◌+◌, ◌%◌, ◌^◌, ◌<◌, ◌≤◌, ◌≡◌, refl, sym, ap, ◌∙◌, true, false, List, [], ◌∷◌, ◌++◌, length,
  take, drop, take-append, drop-append, length-append, append_assoc, append-nil, le→ltb, ltb, ◌==◌,
  if◌then◌else◌, not, ok, err, text, arith,
}
use computer_network_final_p.Base.Action.{Action, pure, lift, ◌>>=◌, ◌>>◌, bind-runs}
use computer_network_final_p.Wire.{Endian, hton, get_byte, get64_portable, put64_portable}
use computer_network_final_p.Protocol.Message.{
  MsgType, type_code, make_header, header_bytes, header_of, file_offer_resp, file_accept_resp,
  file_result,
}
use computer_network_final_p.Protocol.Framing.{header_fields}
use computer_network_final_p.Protocol.FileOfferResp
use computer_network_final_p.Protocol.FileAcceptResp
use computer_network_final_p.Protocol.FileResult
use computer_network_final_p.Protocol.{put_text, optional_text}
use computer_network_final_p.Protocol.Fields.{
  FitsU16, get64_portable-put, get-put64_portable, At-put64_portable, length-put64_portable,
  length-put_text, optional_text-put_text,
}
use computer_network_final_p.Wire.Reading.{At-start, At-end, At-tail, get_byte-At}
use computer_network_final_p.Client.Sending.{
  SourceFile, default_chunk_size, filename_of, send_chunks, announced_chunks, read_accepted,
  read_offered, read_saved, do_send, throw_reason, unexpected,
}
use computer_network_final_p.Client.Requests.{make_file_offer_req, make_file_chunk, make_file_done}
use computer_network_final_p.Client.Chunks.{pieces, write_pieces}
use computer_network_final_p.Client.Loop.{send_chunks-write_pieces, announced_chunks-length}
use computer_network_final_p.Client.{Socket, magic, version, read_header, read_payload, read_answer}
use computer_network_final_p.Client.Frames.{frame}

-- A socket that gives the bytes of a list, and keeps the frames that are written.
abbrev pub Script : Type 0
Script = List ℕ × List (List ℕ)

unfoldable pub script_read : ℕ → Action Script (List ℕ)
script_read n (input, output) =
    if ltb (length input) n
    then ((input, output), err (text "End of file"))
    else ((drop n input, output), ok (take n input))

abbrev pub scripted : Socket
scripted = record {
  State = Script;
  read = script_read;
  write = λ bytes s. ((s.0, s.1 ++ (bytes ∷ [])), ok tt);
}

pub script_read-append :
    (n : ℕ) (front rest : List ℕ) (output : List (List ℕ))
    → length front ≡ n
    → script_read n (front ++ rest, output) ≡ ((rest, output), ok front)
unfolding script_read
script_read-append n front rest output e =
    let enough = le→ltb (length (front ++ rest)) n (omega (arith, length-append front rest)) in
    rw enough (rw (← e) (rw (drop-append front rest, take-append front rest) refl))

module _ (h : Endian) (type : MsgType) (payload rest : List ℕ) (output : List (List ℕ))
    (small : length payload < 2 ^ 32) where
  abbrev head : List ℕ
  head = header_bytes h (make_header h type (length payload % 2 ^ 32))

  read_header-frame :
      read_header h scripted (frame h type payload ++ rest, output)
      ≡ ((payload ++ rest, output), ok (header_of h head))
  unfolding read_header
  read_header-frame =
      let (size, magic_read, version_read, type_read, len_read) =
        header_fields h h type (length payload % 2 ^ 32) (omega arith) in
      let bytes_read = script_read-append 12 head (payload ++ rest) output size in
      rw (append_assoc head payload rest)
        (simp (bytes_read, read_header, ◌>>=◌, magic_read, version_read))

  pub read_payload-frame :
      read_payload scripted (length payload) (payload ++ rest, output)
      ≡ ((rest, output), ok payload)
  unfolding read_payload
  read_payload-frame = by_length payload
    where
      by_length :
          (payload : List ℕ)
          → read_payload scripted (length payload) (payload ++ rest, output)
            ≡ ((rest, output), ok payload)
      by_length [] = unfold read_payload in refl
      by_length (b ∷ more) =
          let filled : ltb 0 (length (b ∷ more)) ≡ true = ground arith in
          unfold read_payload in
          (rw filled (script_read-append (length (b ∷ more)) (b ∷ more) rest output refl))

  -- A frame of the type that is waited for gives its payload.
  pub read_answer-frame :
      (least : ℕ) (unexpected : ℕ → List ℕ) (short : List ℕ)
      → least ≤ length payload
      → read_answer h scripted
          (type_code type)
          least
          unexpected
          short
          (frame h type payload ++ rest, output)
        ≡ ((rest, output), ok payload)
  unfolding read_answer
  read_answer-frame least unexpected short enough =
      let (size, magic_read, version_read, type_read, len_read) =
        header_fields h h type (length payload % 2 ^ 32) (omega arith) in
      let len_is : length payload % 2 ^ 32 ≡ length payload = omega arith in
      let same : (type_code type == type_code type) ≡ true = ground arith in
      let len_both = len_read ∙ len_is in
      bind-runs (read_header h scripted) (frame h type payload ++ rest, output)
        (λ header.
          if not (header.type_byte == type_code type)
          then lift (err (unexpected header.type_byte))
          else (do
            payload ← read_payload scripted (hton h 4 header.len_be)
            if ltb (length payload) least then lift (err short) else pure payload))
        _ _ _ read_header-frame
        (rw (type_read, same, len_both)
          (bind-runs (read_payload scripted (length payload)) (payload ++ rest, output)
            (λ payload. if ltb (length payload) least then lift (err short) else pure payload) _ _ _
            read_payload-frame (rw (le→ltb (length payload) least enough) refl)))
