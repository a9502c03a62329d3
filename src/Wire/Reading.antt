-- ===== src/Wire/Reading.antt =====
-- Walking along a payload: what stands at a position, and what the next read gives.
use computer_network_final_p.Base.{
  true, ℕ, ◌+◌, ◌^◌, ◌<◌, ◌≤◌, ◌≡◌, refl, sym, ap, ◌∙◌, List, [], ◌∷◌, ◌++◌, length, take, drop,
  length-append, take-append, drop-append, drop-drop, length-drop, leb, le→leb, ok, arith, subst,
  append-nil, [],
}
use computer_network_final_p.Wire.{
  Endian, little, be_bytes, load, hton, get_bytes, get, get_byte, get64_portable, be64toh_portable,
}
use computer_network_final_p.Wire.Bytes.{length-be_bytes}
use computer_network_final_p.Wire.Order.{hton-load-be_bytes}

-- `rest` is what stands in `payload` from `pos` on.
pub record At (payload : List ℕ) (pos : ℕ) (rest : List ℕ) : Type 0 where
  pub tail : drop pos payload ≡ rest
  pub room : pos + length rest ≡ length payload

pub At-start : (payload : List ℕ) → At payload 0 payload
At-start payload = record { tail = refl; room = omega arith }

pub At-skip :
    (payload : List ℕ) (pos : ℕ) (front rest : List ℕ) (n : ℕ)
    → length front ≡ n
    → At payload pos (front ++ rest)
    → At payload (pos + n) rest
At-skip payload pos front rest n e at = record {
  tail = sym (drop-drop pos n payload) ∙ ap (drop n) at.tail ∙ rw (← e) (drop-append front rest);
  room = omega (arith, at.room, length-append front rest);
}

module _ (payload : List ℕ) (pos : ℕ) (front rest : List ℕ) (n : ℕ) (e : length front ≡ n)
    (at : At payload pos (front ++ rest)) where
  pub At-fits : pos + n ≤ length payload
  At-fits = omega (arith, at.room, length-append front rest)

  pub At-leb : leb (pos + n) (length payload) ≡ true
  At-leb = le→leb _ _ At-fits

  pub At-take : take n (drop pos payload) ≡ front
  At-take = ap (take n) at.tail ∙ rw (← e) (take-append front rest)

  pub get_bytes-At : get_bytes payload pos n ≡ ok front
  unfolding get_bytes
  get_bytes-At = rw (At-leb, At-take)

module _ (payload : List ℕ) (pos w x : ℕ) (rest : List ℕ) (fits : x < 256 ^ w)
    (at : At payload pos (be_bytes w x ++ rest)) where
  -- The next integer of a payload that goes on with the bytes of `x`.
  pub get-At : (h : Endian) → get h w payload pos ≡ ok x
  unfolding get
  get-At h = rw (
    At-leb payload pos (be_bytes w x) rest w (length-be_bytes w x) at,
    At-take payload pos (be_bytes w x) rest w (length-be_bytes w x) at,
    hton-load-be_bytes h w x fits,
  )

-- On a little-endian host.
pub get64_portable-get :
    (payload : List ℕ) (pos : ℕ) → get64_portable little payload pos ≡ get little 8 payload pos
unfolding get64_portable get be64toh_portable hton
get64_portable-get payload pos = refl

-- A read that the bounds allow is no fault.
pub get-ne-fault :
    (h : Endian) (w : ℕ) (payload : List ℕ) (pos : ℕ)
    → pos + w ≤ length payload
    → (x : ℕ) × (get h w payload pos ≡ ok x)
unfolding get
get-ne-fault h w payload pos fits =
    (hton h w (load h (take w (drop pos payload))), rw (le→leb _ _ fits))

pub get64_portable-ne-fault :
    (h : Endian) (payload : List ℕ) (pos : ℕ)
    → pos + 8 ≤ length payload
    → (x : ℕ) × (get64_portable h payload pos ≡ ok x)
unfolding get64_portable
get64_portable-ne-fault h payload pos fits =
    (be64toh_portable h (load h (take 8 (drop pos payload))), rw (le→leb _ _ fits))

pub get_bytes-ne-fault :
    (payload : List ℕ) (pos n : ℕ)
    → pos + n ≤ length payload
    → get_bytes payload pos n ≡ ok (take n (drop pos payload))
unfolding get_bytes
get_bytes-ne-fault payload pos n fits = rw (le→leb _ _ fits)

pub get_byte-At :
    (payload : List ℕ) (pos b : ℕ) (rest : List ℕ)
    → At payload pos (b ∷ rest)
    → get_byte payload pos ≡ ok b
unfolding get_byte
get_byte-At payload pos b rest at = rw (at.tail, get_byte)

pub get_byte-ne-fault :
    (payload : List ℕ) (pos : ℕ) → pos < length payload → (b : ℕ) × (get_byte payload pos ≡ ok b)
unfolding get_byte
get_byte-ne-fault payload pos fits = shape (drop pos payload) refl
  where
    shape : (xs : List ℕ) → drop pos payload ≡ xs → (b : ℕ) × (get_byte payload pos ≡ ok b)
    shape [] e = absurd (omega (arith, length-drop pos payload, ap length e))
    shape (b ∷ rest) e = (b, rw (e, get_byte))

pub At-tail :
    (payload : List ℕ) (pos b : ℕ) (rest : List ℕ)
    → At payload pos (b ∷ rest)
    → At payload (pos + 1) rest
At-tail payload pos b rest at = At-skip payload pos (b ∷ []) rest 1 refl at

pub At-end :
    (payload : List ℕ) (pos : ℕ) (front : List ℕ)
    → At payload pos front
    → At payload pos (front ++ [])
At-end payload pos front at = subst (At payload pos) (sym (append-nil front)) at
