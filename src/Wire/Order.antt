-- ===== src/Wire/Order.antt =====
-- Host order against network order.
use mathlib.Core.List.{reverse-reverse}
use computer_network_final_p.Base.{
  ℕ, ◌^◌, ◌<◌, ◌≡◌, refl, ap, ◌∙◌, List, reverse, length, All, length-reverse, All-reverse, arith,
  subst,
}
use computer_network_final_p.Wire.{
  IsByte, Endian, little, big, le_bytes, of_le, be_bytes, store, load, bswap, hton, swap_by_masks,
  be64toh_portable, htobe64_portable, put, put64_portable,
}
use computer_network_final_p.Wire.Bytes.{
  length-le_bytes, le_bytes-IsByte, of_le-le_bytes, le_bytes-of_le, length-be_bytes,
  be_bytes-IsByte,
}

-- A list of `w` bytes is the bytes of its number.
le_bytes-of_le_width :
    (w : ℕ) (xs : List ℕ) → length xs ≡ w → All IsByte xs → le_bytes w (of_le xs) ≡ xs
le_bytes-of_le_width w xs e h = subst (λ k. le_bytes k (of_le xs) ≡ xs) e (le_bytes-of_le xs h)

le_bytes-bswap : (w x : ℕ) → le_bytes w (bswap w x) ≡ reverse (le_bytes w x)
unfolding bswap
le_bytes-bswap w x =
    le_bytes-of_le_width w (reverse (le_bytes w x))
      (length-reverse (le_bytes w x) ∙ length-le_bytes w x)
      (All-reverse IsByte (le_bytes w x) (le_bytes-IsByte w x))

pub bswap-bswap : (w x : ℕ) → x < 256 ^ w → bswap w (bswap w x) ≡ x
bswap-bswap w x h =
    unfold bswap in
    (ap (λ xs. of_le (reverse xs)) (le_bytes-bswap w x)
      ∙ ap of_le (reverse-reverse (le_bytes w x))
      ∙ of_le-le_bytes w x h)

-- What the code puts in the buffer is network order, whatever the host's order.
pub put-be_bytes : (h : Endian) (w x : ℕ) → put h w x ≡ be_bytes w x
unfolding put store hton be_bytes
put-be_bytes little w x = le_bytes-bswap w x
put-be_bytes big w x = refl

-- The masks and shifts swap the eight bytes.
pub swap_by_masks-bswap : (x : ℕ) → x < 2 ^ 64 → swap_by_masks x ≡ bswap 8 x
unfolding swap_by_masks bswap le_bytes of_le
swap_by_masks-bswap x h = omega arith

bswap-of_le :
    (w : ℕ) (xs : List ℕ) → length xs ≡ w → All IsByte xs → bswap w (of_le xs) ≡ of_le (reverse xs)
unfolding bswap
bswap-of_le w xs e h = ap (λ ys. of_le (reverse ys)) (le_bytes-of_le_width w xs e h)

reverse-be_bytes : (w x : ℕ) → reverse (be_bytes w x) ≡ le_bytes w x
unfolding be_bytes
reverse-be_bytes w x = reverse-reverse (le_bytes w x)

-- Reading `w` bytes in network order gives the number that they were made from, on every host.
pub hton-load-be_bytes : (h : Endian) (w x : ℕ) → x < 256 ^ w → hton h w (load h (be_bytes w x)) ≡ x
unfolding hton load
hton-load-be_bytes little w x h =
    bswap-of_le w (be_bytes w x) (length-be_bytes w x) (be_bytes-IsByte w x)
    ∙ ap of_le (reverse-be_bytes w x)
    ∙ of_le-le_bytes w x h
hton-load-be_bytes big w x h = ap of_le (reverse-be_bytes w x) ∙ of_le-le_bytes w x h

-- On a little-endian host the portable 64-bit swap is `be64toh`.
pub put64_portable-be_bytes : (x : ℕ) → put64_portable little x ≡ be_bytes 8 x
unfolding put64_portable htobe64_portable be64toh_portable store be_bytes
put64_portable-be_bytes x = le_bytes-bswap 8 x

-- On a big-endian host it swaps all the same, so the number goes out lowest byte first.
pub put64_portable-le_bytes : (x : ℕ) → x < 2 ^ 64 → put64_portable big x ≡ le_bytes 8 x
unfolding put64_portable htobe64_portable be64toh_portable store
put64_portable-le_bytes x h =
    rw (swap_by_masks-bswap x h) (ap reverse (le_bytes-bswap 8 x) ∙ reverse-reverse (le_bytes 8 x))
