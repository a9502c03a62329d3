-- ===== src/Db.antt =====
-- `Db` of `core/include/fsx/db/db.h` and `core/src/db/db.cpp`, over libpq and the cryptographic library,
-- which are parameters.
pub mod Users
pub mod Sessions
use computer_network_final_p.Base.{
  ℕ, zero, suc, ◌+◌, ◌-◌, ◌*◌, ◌%◌, ◌^◌, Bool, true, false, ◌&&◌, ◌||◌, Option, none, some, List,
  [], ◌∷◌, ◌++◌, ltb, leb, ◌==◌, if◌then◌else◌, Result, ok, err, fault, text, c_str, map,
}
use computer_network_final_p.Base.Action.{Action}
use computer_network_final_p.FileStore.Decimal.{to_string}

-- What `PQexecParams` gives: a null pointer, an error with its message, or the rows of a result (none
-- for a command), each cell as its text.
pub data Answer : Type 0 where
  null : Answer
  failed : List ℕ → Answer
  rows : List (List (List ℕ)) → Answer

-- libpq on one connection, `RAND_bytes` and `PKCS5_PBKDF2_HMAC` with SHA-256, over the state that
-- they keep. `none` is their failure.
pub record Services : Type 1 where
  pub State : Type 0
  pub is_connected : State → Bool
  pub pq_exec_params : List ℕ → List (List ℕ) → State → State × Answer
  pub pq_exec : List ℕ → State → State × Answer
  pub rand_bytes : ℕ → State → State × Option (List ℕ)
  pub pbkdf2 : List ℕ → List ℕ → ℕ → ℕ → Option (List ℕ)

unfoldable pub exec_params : (S : Services) → List ℕ → List (List ℕ) → Action S.State Answer
exec_params S sql params s =
    if S.is_connected s
    then (let (s', answer) = S.pq_exec_params sql (map c_str params) s in (s', ok answer))
    else (s, err (text "DB not connected"))

unfoldable pub exec : (S : Services) → List ℕ → Action S.State Answer
exec S sql s =
    if S.is_connected s
    then (let (s', answer) = S.pq_exec sql s in (s', ok answer))
    else (s, err (text "DB not connected"))

-- The rows of a result that `must_ok` lets pass.
unfoldable pub must_ok : Answer → List ℕ → Result (List (List (List ℕ)))
must_ok null context = err (context ++ text ": PGresult is null")
must_ok (failed message) context = err (context ++ (text ": " ++ message))
must_ok (rows table) context = ok table

-- `PQgetvalue`: outside the result it is a null pointer, of which no string can be made.
unfoldable pub nth_cell : List (List ℕ) → ℕ → Result (List ℕ)
nth_cell [] column = fault
nth_cell (c ∷ cells) zero = ok c
nth_cell (c ∷ cells) (suc column) = nth_cell cells column

unfoldable pub is_space : ℕ → Bool
is_space c = (c == b' ') || (leb 9 c && leb c 13)

unfoldable pub is_digit : ℕ → Bool
is_digit c = leb b'0' c && leb c b'9'

unfoldable pub skip_spaces : List ℕ → List ℕ
unfolding is_space
skip_spaces [] = []
skip_spaces (c ∷ rest) = let more = skip_spaces rest in if is_space c then more else c ∷ rest

-- The number that the leading digits stand for; `none` if there are none.
unfoldable pub leading_number : Option ℕ → List ℕ → Option ℕ
unfolding is_digit
leading_number acc [] = acc
leading_number acc (c ∷ rest) =
    let so_far : ℕ = elim acc [ none ↦ 0 | some n ↦ n ] in
    let more = leading_number (some (so_far * 10 + (c - b'0'))) rest in
    if is_digit c then more else acc

-- A magnitude with its sign, as the two's-complement pattern of `bits` bits.
unfoldable pub signed_pattern : ℕ → Bool → Option ℕ → List ℕ → Result ℕ
signed_pattern bits negative none name = err name
signed_pattern bits true (some n) name =
    if leb n (2 ^ (bits - 1)) then ok ((2 ^ bits - n) % 2 ^ bits) else err name
signed_pattern bits false (some n) name = if ltb n (2 ^ (bits - 1)) then ok n else err name

unfoldable pub parse_signed : ℕ → List ℕ → List ℕ → Result ℕ
unfolding signed_pattern leading_number
parse_signed bits name [] = err name
parse_signed bits name (c ∷ rest) =
    if c == b'-'
    then signed_pattern bits true (leading_number none rest) name
    else if c == b'+'
    then signed_pattern bits false (leading_number none rest) name
    else signed_pattern bits false (leading_number none (c ∷ rest)) name

-- `std::stoll` and `std::stoi`.
unfoldable pub stoll : List ℕ → Result ℕ
unfolding parse_signed skip_spaces
stoll s = parse_signed 64 (text "stoll") (skip_spaces s)

unfoldable pub stoi : List ℕ → Result ℕ
unfolding parse_signed skip_spaces
stoi s = parse_signed 32 (text "stoi") (skip_spaces s)

-- `std::to_string` of a signed integer given by its pattern.
unfoldable pub to_string_signed : ℕ → ℕ → List ℕ
to_string_signed bits n =
    if ltb n (2 ^ (bits - 1)) then to_string n else b'-' ∷ to_string (2 ^ bits - n)
