-- ===== src/FileStore/Decimal.antt =====
-- `std::to_string` of a `uint64_t`, and `<<` of one into a stream.
use computer_network_final_p.Base.{
  ℕ, zero, suc, ◌+◌, ◌-◌, ◌*◌, ◌/◌, ◌%◌, ◌^◌, ◌<◌, ◌≤◌, ◌≡◌, refl, sym, ap, ◌∙◌, List, [], ◌∷◌,
  ◌++◌, All, All-append, ltb, if◌then◌else◌, arith, Bool-cases, inl, inr,
}
use native.Mathlib.Nat.{pow-suc}

-- The digits of a number below 10 ^ rounds.
unfoldable pub digits : ℕ → ℕ → List ℕ
digits zero n = []
digits (suc rounds) n =
    let more = digits rounds (n / 10) ++ ((b'0' + n % 10) ∷ []) in
    if ltb n 10 then (b'0' + n) ∷ [] else more

-- A `uint64_t` has at most twenty digits.
unfoldable pub to_string : ℕ → List ℕ
unfolding digits
to_string n = digits 20 n

abbrev pub IsDigit : ℕ → Type 0
IsDigit c = (b'0' ≤ c) × (c ≤ b'9')

pub digits-IsDigit : (rounds n : ℕ) → All IsDigit (digits rounds n)
unfolding digits
digits-IsDigit zero n = tt
digits-IsDigit (suc rounds) n = elim (Bool-cases (ltb n 10)) [
  | inl small ↦ rw small ((omega arith, ground arith), tt)
  | inr large ↦ rw large (
      All-append IsDigit (digits rounds (n / 10)) _ (digits-IsDigit rounds (n / 10))
        ((omega arith, omega arith), tt))
]

-- The number that digits stand for.
value_from : ℕ → List ℕ → ℕ
value_from acc [] = acc
value_from acc (c ∷ rest) = value_from (acc * 10 + (c - b'0')) rest

value_from-append :
    (acc : ℕ) (xs ys : List ℕ) → value_from acc (xs ++ ys) ≡ value_from (value_from acc xs) ys
unfolding value_from
value_from-append acc [] ys = refl
value_from-append acc (c ∷ rest) ys = value_from-append (acc * 10 + (c - b'0')) rest ys

value_from-digits : (rounds n : ℕ) → n < 10 ^ rounds → value_from 0 (digits rounds n) ≡ n
unfolding digits value_from
value_from-digits zero n h = omega arith
value_from-digits (suc rounds) n h = elim (Bool-cases (ltb n 10)) [
  | inl small ↦ rw small (omega arith)
  | inr large ↦
      rw (large, value_from-append 0 (digits rounds (n / 10)) ((b'0' + n % 10) ∷ []))
        (omega (arith, value_from-digits rounds (n / 10) (omega (arith, pow-suc 10 rounds))))
]

-- Two numbers of 64 bits that print alike are one.
pub to_string-injective : (m n : ℕ) → m < 2 ^ 64 → n < 2 ^ 64 → to_string m ≡ to_string n → m ≡ n
unfolding to_string
to_string-injective m n hm hn e =
    sym (value_from-digits 20 m (omega arith))
    ∙ ap (value_from 0) e
    ∙ value_from-digits 20 n (omega arith)
