-- ===== src/Protocol/Fields.antt =====
-- Reading back the fields that the messages share.
use computer_network_final_p.Base.{
  ℕ, ◌+◌, ◌%◌, ◌^◌, ◌<◌, ◌≤◌, ◌≡◌, refl, ap, ◌∙◌, String, List, ◌++◌, length, length-append,
  append_assoc, le→ltb, le→leb, ok, arith, subst,
}
use computer_network_final_p.Wire.{
  Endian, little, put, put64_portable, get, get64_portable, get_bytes,
}
use computer_network_final_p.Wire.Bytes.{length-be_bytes}
use computer_network_final_p.Wire.Order.{put-be_bytes, put64_portable-be_bytes}
use computer_network_final_p.Wire.Reading.{
  At, At-skip, get-At, get_bytes-At, At-leb, At-fits, get64_portable-get,
}
use computer_network_final_p.Protocol.{put_text, get_text, optional_text}

-- A string that its 16-bit length can describe.
abbrev pub FitsU16 : List ℕ → Type 0
FitsU16 s = length s < 65536

pub length-put : (h : Endian) (w x : ℕ) → length (put h w x) ≡ w
length-put h w x = ap length (put-be_bytes h w x) ∙ length-be_bytes w x

pub length-put64_portable : (x : ℕ) → length (put64_portable little x) ≡ 8
length-put64_portable x = ap length (put64_portable-be_bytes x) ∙ length-be_bytes 8 x

pub length-put_text : (h : Endian) (s : List ℕ) → length (put_text h s) ≡ length s + 2
unfolding put_text
length-put_text h s =
    omega (arith, length-append (put h 2 (length s % 65536)) s, length-put h 2 (length s % 65536))

module _ (h : Endian) (payload : List ℕ) (pos : ℕ) (rest : List ℕ) where
  pub get-put :
      (w x : ℕ) → x < 256 ^ w → At payload pos (put h w x ++ rest) → get h w payload pos ≡ ok x
  get-put w x fits at =
      get-At payload pos w x rest fits
        (subst (λ front. At payload pos (front ++ rest)) (put-be_bytes h w x) at) h

  pub At-put : (w x : ℕ) → At payload pos (put h w x ++ rest) → At payload (pos + w) rest
  At-put w x = At-skip payload pos (put h w x) rest w (length-put h w x)

module _ (payload : List ℕ) (pos x : ℕ) (rest : List ℕ)
    (at : At payload pos (put64_portable little x ++ rest)) where
  pub get-put64_portable : x < 2 ^ 64 → get little 8 payload pos ≡ ok x
  get-put64_portable fits =
      get-At payload pos 8 x rest fits
        (subst (λ front. At payload pos (front ++ rest)) (put64_portable-be_bytes x) at) little

  pub get64_portable-put : x < 2 ^ 64 → get64_portable little payload pos ≡ ok x
  get64_portable-put fits = get64_portable-get payload pos ∙ get-put64_portable fits

  pub At-put64_portable : At payload (pos + 8) rest
  At-put64_portable =
      At-skip payload pos (put64_portable little x) rest 8 (length-put64_portable x) at

module _ (h : Endian) (payload : List ℕ) (pos : ℕ) (s rest : List ℕ) (fits : FitsU16 s)
    (at : At payload pos (put_text h s ++ rest)) where
  pub length_there : At payload pos (put h 2 (length s) ++ (s ++ rest))
  unfolding put_text
  length_there =
      let small : length s % 65536 ≡ length s = omega arith in
      subst (λ n. At payload pos (put h 2 n ++ (s ++ rest))) small
        (subst (At payload pos) (append_assoc (put h 2 (length s % 65536)) s rest) at)

  text_there : At payload (pos + 2) (s ++ rest)
  text_there = At-put h payload pos (s ++ rest) 2 (length s) length_there

  pub length_read : get h 2 payload pos ≡ ok (length s)
  length_read = get-put h payload pos (s ++ rest) 2 (length s) fits length_there

  pub text_fits : pos + 2 + length s ≤ length payload
  text_fits = At-fits payload (pos + 2) s rest (length s) refl text_there

  pub text_read : get_bytes payload (pos + 2) (length s) ≡ ok s
  text_read = get_bytes-At payload (pos + 2) s rest (length s) refl text_there

  pub At-put_text : At payload (pos + 2 + length s) rest
  At-put_text = At-skip payload (pos + 2) s rest (length s) refl text_there

  pub get_text-put_text :
      (invalid : String) → get_text h payload pos invalid ≡ ok (s, pos + 2 + length s)
  unfolding get_text
  get_text-put_text invalid = rw (length_read, le→ltb _ _ text_fits, text_read)

  pub optional_text-put_text : optional_text h payload pos ≡ ok s
  unfolding optional_text
  optional_text-put_text = rw (
    At-leb payload pos (put h 2 (length s)) (s ++ rest) 2 (length-put h 2 (length s)) length_there,
    length_read,
    le→leb _ _ text_fits,
    text_read,
  )
