-- ===== src/Auth/Verifying.antt =====
-- A password verifies against the hash that was made of it.
use Prim.Native.Nat.{digits, differ, bit_xor, bit_xor-bitwise}
use computer_network_final_p.Base.{
  ℕ, subst, zero, suc, ◌+◌, ◌*◌, ◌/◌, ◌%◌, ◌≤◌, ◌<◌, ◌≡◌, ◌≢◌, refl, ap, ◌∙◌, true, some,
  Option-cases, List, [], ◌∷◌, ◌++◌, length, All, ==_iff, eq_bytes_refl, ok, ok-injective, inl, inr,
  text, arith,
}
use computer_network_final_p.Db.{
  Services, to_string_signed, stoi, parse_signed, skip_spaces, leading_number, signed_pattern,
  is_space, is_digit,
}
use computer_network_final_p.FileStore.Decimal.{to_string}
use computer_network_final_p.Db.Sessions.{to_hex, hex_digit}
use computer_network_final_p.Auth.PasswordHash.{
  HexReader, hex_value, hex_pair, from_hex, salt_len, dk_len, stored_form, hash_password_pbkdf2,
  split_dollar, difference, verify_fields, verify_password_pbkdf2,
}

abbrev pub IsByte : ℕ → Type 0
IsByte b = b < 256

differ_self : (x : ℕ) → differ x x ≡ 0
differ_self zero = refl
differ_self (suc x) = differ_self x

digits_self : (rounds a : ℕ) → a ≤ rounds → digits (λ b. b) differ rounds a a ≡ 0
digits_self zero a h = omega arith
digits_self (suc n) zero h = refl
digits_self (suc n) (suc a) h =
    omega (arith, digits_self n (suc a / 2) (omega arith), differ_self (suc a % 2))

xor_self : (a : ℕ) → bit_xor a a ≡ 0
xor_self a = simp bit_xor-bitwise (digits_self a a (omega arith))

difference_self : (bytes : List ℕ) → difference 0 bytes bytes ≡ 0
unfolding difference
difference_self [] = refl
difference_self (b ∷ bytes) = rw (xor_self b) (difference_self bytes)

hex_value-hex_digit : (n : ℕ) → n < 16 → hex_value (hex_digit n) ≡ some n
unfolding hex_value hex_digit
hex_value-hex_digit n h = ground arith

hex_digit-ne : (n : ℕ) → n < 16 → hex_digit n ≢ b'$'
unfolding hex_digit
hex_digit-ne n h = ground arith

hex_pair-hex_digit :
    (read : HexReader) (m n : ℕ)
    → m < 16
    → n < 16
    → hex_pair read (hex_digit m) (hex_digit n) ≡ m * 16 + n
unfolding hex_pair
hex_pair-hex_digit read m n hm hn =
    rw (hex_value-hex_digit m hm, hex_pair, hex_value-hex_digit n hn)

from_hex-to_hex :
    (read : HexReader) (bytes : List ℕ) → All IsByte bytes → from_hex read (to_hex bytes) ≡ ok bytes
unfolding from_hex to_hex
from_hex-to_hex read [] h = refl
from_hex-to_hex read (b ∷ bytes) h =
    let pair : hex_pair read (hex_digit (b / 16)) (hex_digit (b % 16)) ≡ b =
      hex_pair-hex_digit read (b / 16) (b % 16) (omega (arith, h.0)) (omega arith) ∙ omega arith in
    rw (from_hex-to_hex read bytes h.1) (ap (λ c. ok (c ∷ bytes)) pair)

to_hex-plain : (bytes : List ℕ) → All IsByte bytes → All (λ c. c ≢ b'$') (to_hex bytes)
unfolding to_hex
to_hex-plain [] h = tt
to_hex-plain (b ∷ bytes) h = (
  hex_digit-ne (b / 16) (omega (arith, h.0)),
  (hex_digit-ne (b % 16) (omega arith), to_hex-plain bytes h.1),
)

split_dollar-append :
    (front back : List ℕ)
    → All (λ c. c ≢ b'$') front
    → split_dollar (front ++ (b'$' ∷ back)) ≡ some (front, back)
unfolding split_dollar
split_dollar-append [] back h = refl
split_dollar-append (c ∷ front) back h =
    rw (split_dollar-append front back h.1) (ground (arith, h.0))

-- The default number of rounds, as `stoi` reads what `<<` wrote.
rounds_plain : All (λ c. c ≢ b'$') (to_string_signed 32 120000)
unfolding to_string_signed to_string
rounds_plain = (
  λ e. absurd (omega arith),
  (
    λ e. absurd (omega arith),
    (
      λ e. absurd (omega arith),
      (λ e. absurd (omega arith), (λ e. absurd (omega arith), (λ e. absurd (omega arith), tt))),
    ),
  ),
)

rounds_read : stoi (to_string_signed 32 120000) ≡ ok 120000
unfolding to_string_signed to_string stoi parse_signed skip_spaces leading_number signed_pattern
    is_space is_digit
rounds_read = refl

scheme_plain : All (λ c. c ≢ b'$') (text "pbkdf2")
unfolding text
scheme_plain = (
  λ e. absurd (omega arith),
  (
    λ e. absurd (omega arith),
    (
      λ e. absurd (omega arith),
      (λ e. absurd (omega arith), (λ e. absurd (omega arith), (λ e. absurd (omega arith), tt))),
    ),
  ),
)

module _ (read : HexReader) (S : Services)
    (random_bytes : (n : ℕ) (s s' : S.State) (bytes : List ℕ)
      → S.rand_bytes n s ≡ (s', some bytes)
      → All IsByte bytes)
    (derived_bytes : (password salt : List ℕ) (iters n : ℕ) (dk : List ℕ)
      → S.pbkdf2 password salt iters n ≡ some dk
      → (length dk ≡ n) × All IsByte dk) where
  verify-split :
      (password stored r1 iters_text r2 salt_hex hash_hex : List ℕ)
      → split_dollar stored ≡ some (text "pbkdf2", r1)
      → split_dollar r1 ≡ some (iters_text, r2)
      → split_dollar r2 ≡ some (salt_hex, hash_hex)
      → verify_password_pbkdf2 read S password stored
        ≡ verify_fields read S password iters_text salt_hex hash_hex
  unfolding verify_password_pbkdf2
  verify-split password stored r1 iters_text r2 salt_hex hash_hex e1 e2 e3 =
      rw (e1, verify_password_pbkdf2, e2, e3, eq_bytes_refl (text "pbkdf2"))

  verify_fields-hex :
      (password salt dk : List ℕ)
      → All IsByte salt
      → S.pbkdf2 password salt 120000 dk_len ≡ some dk
      → verify_fields read S password (to_string_signed 32 120000) (to_hex salt) (to_hex dk)
        ≡ ok true
  unfolding verify_fields
  verify_fields-hex password salt dk salt_bytes derived =
      let (size, dk_bytes) = derived_bytes password salt 120000 dk_len dk derived in
      let again : S.pbkdf2 password salt 120000 (length dk) ≡ some dk = rw size derived in
      rw (
        rounds_read,
        from_hex-to_hex read salt salt_bytes,
        from_hex-to_hex read dk dk_bytes,
        again,
        difference_self dk,
        (==_iff (length dk) (length dk)).1 refl,
      )

  verify-stored_form :
      (password salt dk : List ℕ)
      → All IsByte salt
      → S.pbkdf2 password salt 120000 dk_len ≡ some dk
      → verify_password_pbkdf2 read S password (stored_form 120000 salt dk) ≡ ok true
  unfolding stored_form
  verify-stored_form password salt dk salt_bytes derived =
      let r2 = to_hex salt ++ (b'$' ∷ to_hex dk) in
      let r1 = to_string_signed 32 120000 ++ (b'$' ∷ r2) in
      let stored = text "pbkdf2" ++ (b'$' ∷ r1) in
      let e1 : split_dollar stored ≡ some (text "pbkdf2", r1) =
        split_dollar-append (text "pbkdf2") r1 scheme_plain in
      let e2 : split_dollar r1 ≡ some (to_string_signed 32 120000, r2) =
        split_dollar-append (to_string_signed 32 120000) r2 rounds_plain in
      let e3 : split_dollar r2 ≡ some (to_hex salt, to_hex dk) =
        split_dollar-append (to_hex salt) (to_hex dk) (to_hex-plain salt salt_bytes) in
      verify-split password stored _ _ _ _ _ e1 e2 e3
      ∙ verify_fields-hex password salt dk salt_bytes derived

  -- Where `RAND_bytes` and `PKCS5_PBKDF2_HMAC` give bytes, the latter as many as it is asked for, a
  -- password verifies against the hash that was made of it with the default number of rounds.
  pub verify_password_pbkdf2-hash_password_pbkdf2 :
      (password : List ℕ) (s s' : S.State) (stored : List ℕ)
      → hash_password_pbkdf2 S password 120000 s ≡ (s', ok stored)
      → verify_password_pbkdf2 read S password stored ≡ ok true
  unfolding hash_password_pbkdf2
  verify_password_pbkdf2-hash_password_pbkdf2 password s s' stored e =
      elim (Option-cases ((S.rand_bytes salt_len s).1)) [
        | inl missing ↦ absurd (let e1 = rw (missing, hash_password_pbkdf2) at e in cc)
        | inr (salt, made) ↦ elim (Option-cases (S.pbkdf2 password salt 120000 dk_len)) [
          | inl underived ↦ absurd (let e1 = rw (made, hash_password_pbkdf2, underived) at e in cc)
          | inr (dk, derived) ↦
              let here : stored_form 120000 salt dk ≡ stored =
                ok-injective (ap (λ p. p.1) (rw (made, hash_password_pbkdf2, derived) at e)) in
              let salt_bytes =
                random_bytes salt_len s ((S.rand_bytes salt_len s).0) salt
                  (ap (λ o. ((S.rand_bytes salt_len s).0, o)) made) in
              subst (λ t. verify_password_pbkdf2 read S password t ≡ ok true) here
                (verify-stored_form password salt dk salt_bytes derived)
        ]
      ]
