-- ===== src/Wire/Bytes.antt =====
-- The byte lists of a number: their length, their range, and that they give the number back.
use native.Mathlib.Nat.{pow-suc}
use computer_network_final_p.Base.{
  ℕ, zero, suc, ◌/◌, ◌^◌, ◌<◌, ◌≡◌, refl, ap, ◌∙◌, List, [], ◌∷◌, length, All, length-reverse,
  All-reverse, arith,
}
use computer_network_final_p.Wire.{IsByte, le_bytes, of_le, be_bytes}

pub length-le_bytes : (w x : ℕ) → length (le_bytes w x) ≡ w
unfolding le_bytes
length-le_bytes zero x = refl
length-le_bytes (suc w) x = ap suc (length-le_bytes w (x / 256))

pub le_bytes-IsByte : (w x : ℕ) → All IsByte (le_bytes w x)
unfolding le_bytes
le_bytes-IsByte zero x = tt
le_bytes-IsByte (suc w) x = (omega arith, le_bytes-IsByte w (x / 256))

pub of_le-le_bytes : (w x : ℕ) → x < 256 ^ w → of_le (le_bytes w x) ≡ x
unfolding le_bytes of_le
of_le-le_bytes zero x h = omega arith
of_le-le_bytes (suc w) x h =
    omega (arith, pow-suc 256 w, of_le-le_bytes w (x / 256) (omega (arith, pow-suc 256 w)))

pub le_bytes-of_le : (xs : List ℕ) → All IsByte xs → le_bytes (length xs) (of_le xs) ≡ xs
unfolding le_bytes of_le
le_bytes-of_le [] h = refl
le_bytes-of_le (b ∷ rest) h = ground (arith, le_bytes-of_le rest h.1)

pub of_le-lt : (xs : List ℕ) → All IsByte xs → of_le xs < 256 ^ length xs
unfolding of_le
of_le-lt [] h = omega arith
of_le-lt (b ∷ rest) h = omega (arith, pow-suc 256 (length rest), of_le-lt rest h.1)

pub length-be_bytes : (w x : ℕ) → length (be_bytes w x) ≡ w
unfolding be_bytes
length-be_bytes w x = length-reverse (le_bytes w x) ∙ length-le_bytes w x

pub be_bytes-IsByte : (w x : ℕ) → All IsByte (be_bytes w x)
unfolding be_bytes
be_bytes-IsByte w x = All-reverse IsByte (le_bytes w x) (le_bytes-IsByte w x)
