-- ===== src/Wire/Portable.antt =====
-- The portable 64-bit swap on a host of either byte order: what the host wrote it reads back, also where the
-- bytes are not in network order.
use computer_network_final_p.Base.{
  ℕ, ◌+◌, ◌^◌, ◌<◌, ◌≡◌, ap, ◌∙◌, subst, List, ◌++◌, reverse, length, All-reverse, length-reverse,
  ok,
}
use computer_network_final_p.Wire.{
  IsByte, Endian, little, big, le_bytes, of_le, load, bswap, hton, be64toh_portable, put64_portable,
  get64_portable,
}
use computer_network_final_p.Wire.Bytes.{
  length-le_bytes, le_bytes-IsByte, of_le-lt, length-be_bytes,
}
use computer_network_final_p.Wire.Order.{
  bswap-bswap, swap_by_masks-bswap, hton-load-be_bytes, put64_portable-be_bytes,
  put64_portable-le_bytes,
}
use computer_network_final_p.Wire.Reading.{At, At-skip, At-leb, At-take}

swapped_fits : (x : ℕ) → bswap 8 x < 2 ^ 64
unfolding bswap
swapped_fits x =
    subst (λ n. of_le (reverse (le_bytes 8 x)) < 256 ^ n)
      (length-reverse (le_bytes 8 x) ∙ length-le_bytes 8 x)
      (of_le-lt (reverse (le_bytes 8 x)) (All-reverse IsByte (le_bytes 8 x) (le_bytes-IsByte 8 x)))

read_back : (h : Endian) (x : ℕ) → x < 2 ^ 64 → be64toh_portable h (load h (put64_portable h x)) ≡ x
unfolding be64toh_portable hton load
read_back little x fits =
    rw (put64_portable-be_bytes x) (unfold hton in (hton-load-be_bytes little 8 x fits))
read_back big x fits =
    rw (put64_portable-le_bytes x fits)
      (unfold bswap in (swap_by_masks-bswap (bswap 8 x) (swapped_fits x) ∙ bswap-bswap 8 x fits))

pub length-put64 : (h : Endian) (x : ℕ) → x < 2 ^ 64 → length (put64_portable h x) ≡ 8
length-put64 little x fits = ap length (put64_portable-be_bytes x) ∙ length-be_bytes 8 x
length-put64 big x fits = ap length (put64_portable-le_bytes x fits) ∙ length-le_bytes 8 x

module _ (h : Endian) (payload : List ℕ) (pos x : ℕ) (rest : List ℕ)
    (at : At payload pos (put64_portable h x ++ rest)) (fits : x < 2 ^ 64) where
  pub get64-put64 : get64_portable h payload pos ≡ ok x
  unfolding get64_portable
  get64-put64 =
      let front = put64_portable h x in
      rw
        (
          At-leb payload pos front rest 8 (length-put64 h x fits) at,
          At-take payload pos front rest 8 (length-put64 h x fits) at,
        )
        (ap ok (read_back h x fits))

  pub At-put64 : At payload (pos + 8) rest
  At-put64 = At-skip payload pos (put64_portable h x) rest 8 (length-put64 h x fits) at
