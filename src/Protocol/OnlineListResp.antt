-- ===== src/Protocol/OnlineListResp.antt =====
-- `struct OnlineListResp` of `core/include/fsx/protocol/online_messages.h`.
use computer_network_final_p.Base.{
  ℕ, zero, suc, ◌+◌, ◌%◌, List, [], ◌∷◌, ◌++◌, length, ltb, leb, if◌then◌else◌, Result, ok, ◌>>=◌,
}
use computer_network_final_p.Wire.{Endian, put, get, get_bytes}
use computer_network_final_p.Protocol.{put_text}

unfoldable pub put_usernames : Endian → List (List ℕ) → List ℕ
put_usernames h [] = []
put_usernames h (username ∷ rest) = put_text h username ++ put_usernames h rest

unfoldable pub serialize : Endian → List (List ℕ) → List ℕ
unfolding put_usernames
serialize h usernames = put h 2 (length usernames % 65536) ++ put_usernames h usernames

-- The loop, on the rounds that are left: it stops where no length fits, and goes on behind the
-- length of a name that does not fit.
unfoldable pub get_usernames : Endian → ℕ → List ℕ → ℕ → Result (List (List ℕ))
get_usernames h zero payload pos = ok []
get_usernames h (suc rounds) payload pos =
    let name_at = λ (n : ℕ). (do
      username ← get_bytes payload (pos + 2) n
      rest ← get_usernames h rounds payload (pos + 2 + n)
      ok (username ∷ rest)) in
    let skip = get_usernames h rounds payload (pos + 2) in
    if leb (pos + 2) (length payload)
    then (do
      n ← get h 2 payload pos
      if leb (pos + 2 + n) (length payload) then name_at n else skip)
    else ok []

unfoldable pub deserialize : Endian → List ℕ → Result (List (List ℕ))
unfolding get_usernames
deserialize h payload =
    if ltb (length payload) 2
    then ok []
    else (do n ← get h 2 payload 0; get_usernames h n payload 2)
