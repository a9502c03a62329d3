-- ===== src/Auth/PasswordHash.antt =====
-- `core/src/auth/password_hash.cpp`.
use Prim.Native.Nat.{bit_or, bit_xor}
use computer_network_final_p.Base.{
  ℕ, ◌+◌, ◌-◌, ◌*◌, ◌%◌, Bool, false, ◌&&◌, Option, none, some, List, [], ◌∷◌, ◌++◌, length, leb,
  ◌==◌, if◌then◌else◌, eq_bytes, Result, ok, err, text, ◌>>=◌,
}
use computer_network_final_p.Base.Action.{Action}
use computer_network_final_p.Db.{Services, stoi, to_string_signed}
use computer_network_final_p.Db.Sessions.{to_hex}

-- What `ss >> v` under `std::hex` gives for two characters that are not both hexadecimal digits (a
-- sign, a space, a prefix or none of these); the code leaves that to the stream.
abbrev pub HexReader : Type 0
HexReader = ℕ → ℕ → ℕ

unfoldable pub hex_value : ℕ → Option ℕ
hex_value c =
    if leb b'0' c && leb c b'9'
    then some (c - b'0')
    else if leb b'a' c && leb c b'f'
    then some (c - b'a' + 10)
    else if leb b'A' c && leb c b'F'
    then some (c - b'A' + 10)
    else none

unfoldable pub hex_pair : HexReader → ℕ → ℕ → ℕ
unfolding hex_value
hex_pair read c d = elim (hex_value c) [
  | none ↦ read c d % 256
  | some high ↦ elim (hex_value d) [ none ↦ read c d % 256 | some low ↦ high * 16 + low ]
]

-- The bytes that pairs of characters stand for; a string of odd length is refused.
unfoldable pub from_hex : HexReader → List ℕ → Result (List ℕ)
unfolding hex_pair
from_hex read [] = ok []
from_hex read (c ∷ []) = err (text "invalid hex")
from_hex read (c ∷ d ∷ rest) = do bytes ← from_hex read rest; ok (hex_pair read c d ∷ bytes)

unfoldable pub salt_len : ℕ
salt_len = 16

unfoldable pub dk_len : ℕ
dk_len = 32

unfoldable pub stored_form : ℕ → List ℕ → List ℕ → List ℕ
stored_form iters salt dk =
    text "pbkdf2"
    ++ (b'$' ∷ (to_string_signed 32 iters ++ (b'$' ∷ (to_hex salt ++ (b'$' ∷ to_hex dk)))))

unfoldable pub hash_password_pbkdf2 : (S : Services) → List ℕ → ℕ → Action S.State (List ℕ)
unfolding stored_form salt_len dk_len
hash_password_pbkdf2 S password iters s =
    let (s', salt) = S.rand_bytes salt_len s in
    elim salt [
      | none ↦ (s', err (text "RAND_bytes(salt) failed"))
      | some salt ↦ elim (S.pbkdf2 password salt iters dk_len) [
        | none ↦ (s', err (text "PKCS5_PBKDF2_HMAC failed"))
        | some dk ↦ (s', ok (stored_form iters salt dk))
      ]
    ]

-- What stands before the first `$` and behind it.
unfoldable pub split_dollar : List ℕ → Option (List ℕ × List ℕ)
split_dollar [] = none
split_dollar (c ∷ rest) =
    let later : Option (List ℕ × List ℕ) = elim (split_dollar rest) [
      | none ↦ none
      | some (front, back) ↦ some (c ∷ front, back)
    ] in
    if c == b'$' then some ([], rest) else later

-- `for (i < dk.size()) diff |= (dk[i] ^ hash[i]);`
unfoldable pub difference : ℕ → List ℕ → List ℕ → ℕ
difference diff [] hash = diff
difference diff (d ∷ dk) [] = diff
difference diff (d ∷ dk) (h ∷ hash) = difference (bit_or diff (bit_xor d h)) dk hash

unfoldable pub verify_fields :
    HexReader → (S : Services) → List ℕ → List ℕ → List ℕ → List ℕ → Result Bool
unfolding from_hex difference
verify_fields read S password iters_text salt_hex hash_hex = do
  iters ← stoi iters_text
  salt ← from_hex read salt_hex
  hash ← from_hex read hash_hex
  elim (S.pbkdf2 password salt iters (length hash)) [
    | none ↦ ok false
    | some dk ↦ ok ((length dk == length hash) && (difference 0 dk hash == 0))
  ]

unfoldable pub verify_password_pbkdf2 : HexReader → (S : Services) → List ℕ → List ℕ → Result Bool
unfolding verify_fields split_dollar
verify_password_pbkdf2 read S password stored = elim (split_dollar stored) [
  | none ↦ ok false
  | some (scheme, r1) ↦ elim (split_dollar r1) [
    | none ↦ ok false
    | some (iters_text, r2) ↦ elim (split_dollar r2) [
      | none ↦ ok false
      | some (salt_hex, hash_hex) ↦
          if eq_bytes scheme (text "pbkdf2")
          then verify_fields read S password iters_text salt_hex hash_hex
          else ok false
    ]
  ]
]
