-- ===== src/Protocol.antt =====
-- The message payloads of `core/include/fsx/protocol/`, a module for each message, and the steps that
-- their `serialize` and `deserialize` share. A string is the list of its bytes.
pub mod Message
pub mod FileOfferReq
pub mod FileOfferResp
pub mod FileAcceptReq
pub mod FileAcceptResp
pub mod FileChunk
pub mod FileDone
pub mod FileResult
pub mod RegisterReq
pub mod RegisterResp
pub mod LoginReq
pub mod LoginResp
pub mod OnlineListResp
pub mod Fields
pub mod RoundTrip
pub mod Safety
pub mod Framing
use computer_network_final_p.Base.{
  ℕ, ◌+◌, ◌%◌, Bool, String, List, [], ◌++◌, length, ltb, leb, if◌then◌else◌, Result, ok, ◌>>=◌,
  ◌>>◌, throw_if,
}
use computer_network_final_p.Wire.{Endian, put, get, get_bytes}

-- `uint16_t len_be = htons((uint16_t)s.size());`, its two bytes, then the bytes of `s`.
unfoldable pub put_text : Endian → List ℕ → List ℕ
put_text h s = put h 2 (length s % 65536) ++ s

-- A length and as many bytes, refused with `invalid` where they do not fit; with the next position.
unfoldable pub get_text : Endian → List ℕ → ℕ → String → Result (List ℕ × ℕ)
get_text h payload pos invalid = do
  n ← get h 2 payload pos
  throw_if (ltb (length payload) (pos + 2 + n)) invalid
  s ← get_bytes payload (pos + 2) n
  ok (s, pos + 2 + n)

-- A length and as many bytes, empty where either is missing.
unfoldable pub optional_text : Endian → List ℕ → ℕ → Result (List ℕ)
optional_text h payload pos =
    if leb (pos + 2) (length payload)
    then (do
      n ← get h 2 payload pos
      if leb (pos + 2 + n) (length payload) then get_bytes payload (pos + 2) n else ok [])
    else ok []
