-- ===== src/Protocol/RoundTrip/OnlineList.antt =====
-- ONLINE_LIST_RESP, on every host: both ends use `htons` and `ntohs`.
use computer_network_final_p.Base.{
  ℕ, ◌+◌, ◌%◌, ◌<◌, ◌≡◌, refl, List, [], ◌∷◌, ◌++◌, length, All, le→ltb, le→leb, ok, arith,
}
use computer_network_final_p.Wire.{Endian, put}
use computer_network_final_p.Wire.Reading.{At, At-start, At-leb}
use computer_network_final_p.Protocol.Fields.{
  FitsU16, length-put, get-put, At-put, length_there, length_read, text_fits, text_read,
  At-put_text,
}
use computer_network_final_p.Protocol.OnlineListResp
use computer_network_final_p.Protocol.OnlineListResp.{put_usernames, get_usernames}

-- The loop reads the names that stand at its position, as many as its rounds.
get_usernames-put_usernames :
    (h : Endian) (payload : List ℕ) (usernames : List (List ℕ)) (pos : ℕ)
    → All FitsU16 usernames
    → At payload pos (put_usernames h usernames)
    → get_usernames h (length usernames) payload pos ≡ ok usernames
unfolding get_usernames put_usernames
get_usernames-put_usernames h payload [] pos fits at = refl
get_usernames-put_usernames h payload (username ∷ usernames) pos fits at =
    let rest = put_usernames h usernames in
    let there = length_there h payload pos username rest fits.0 at in
    rw (
      At-leb payload pos (put h 2 (length username)) (username ++ rest) 2
          (length-put h 2 (length username)) there,
      length_read h payload pos username rest fits.0 at,
      le→leb _ _ (text_fits h payload pos username rest fits.0 at),
      text_read h payload pos username rest fits.0 at,
      get_usernames-put_usernames h payload usernames (pos + 2 + length username) fits.1
          (At-put_text h payload pos username rest fits.0 at),
    )

-- On every host, an ONLINE_LIST_RESP of fewer than 65536 usernames, each shorter than 65536 bytes, is
-- read back with the same usernames in the same order.
pub deserialize-serialize_usernames :
    (h : Endian) (usernames : List (List ℕ))
    → length usernames < 65536
    → All FitsU16 usernames
    → OnlineListResp.deserialize h (OnlineListResp.serialize h usernames) ≡ ok usernames
unfolding OnlineListResp.deserialize OnlineListResp.serialize
deserialize-serialize_usernames h usernames few fits =
    let rest = put_usernames h usernames in
    let small : length usernames % 65536 ≡ length usernames = omega arith in
    let payload = put h 2 (length usernames) ++ rest in
    let a0 = At-start payload in
    let a1 = At-put h payload 0 rest 2 (length usernames) a0 in
    rw (
      small,
      le→ltb (length payload) 2 (omega (arith, a1.room)),
      get-put h payload 0 rest 2 (length usernames) few a0,
      get_usernames-put_usernames h payload usernames 2 fits a1,
    )
