-- ===== src/Client/Chunks.antt =====
-- What the chunk loop of `do_send` sends.
use computer_network_final_p.Base.{
  ℕ, zero, suc, ◌+◌, ◌*◌, ◌≤◌, ◌<◌, ◌≡◌, refl, sym, ap, ◌∙◌, Bool-cases, inl, inr, List, [], ◌∷◌,
  ◌++◌, length, take, drop, All, length-take, length-drop, length-append, leb, leb→le, arith,
}
use computer_network_final_p.Base.Action.{Action, pure, ◌>>◌}
use computer_network_final_p.Wire.{Endian}
use computer_network_final_p.Client.{Socket}
use computer_network_final_p.Client.Requests.{make_file_chunk}
use computer_network_final_p.Client.Sending.{default_chunk_size}

-- A file in pieces of the chunk size, the last one shorter. Fuel is the number of its bytes.
unfoldable pub pieces_of : ℕ → ℕ → List ℕ → List (List ℕ)
pieces_of size zero contents = []
pieces_of size (suc rounds) [] = []
pieces_of size (suc rounds) (b ∷ rest) =
    take size (b ∷ rest) ∷ pieces_of size rounds (drop size (b ∷ rest))

unfoldable pub pieces : List ℕ → List (List ℕ)
unfolding pieces_of
pieces contents = pieces_of default_chunk_size (length contents) contents

-- The pieces written as chunks with the indices from `first` on.
unfoldable pub write_pieces :
    Endian → (S : Socket) → ℕ → ℕ → List (List ℕ) → Action S.State (Unit {0})
write_pieces h S transfer_id first [] = pure tt
write_pieces h S transfer_id first (bytes ∷ rest) =
    S.write (make_file_chunk h transfer_id first bytes)
    >> write_pieces h S transfer_id (first + 1) rest

unfoldable pub concat : List (List ℕ) → List ℕ
concat [] = []
concat (bytes ∷ rest) = bytes ++ concat rest

take-drop : (n : ℕ) (xs : List ℕ) → take n xs ++ drop n xs ≡ xs
take-drop zero xs = refl
take-drop (suc n) [] = refl
take-drop (suc n) (x ∷ xs) = ap (λ ys. x ∷ ys) (take-drop n xs)

pub length-take-drop : (n : ℕ) (xs : List ℕ) → length (take n xs) + length (drop n xs) ≡ length xs
length-take-drop n xs = sym (length-append (take n xs) (drop n xs)) ∙ ap length (take-drop n xs)

pub take_whole : (n : ℕ) (xs : List ℕ) → length xs ≤ n → take n xs ≡ xs
take_whole zero [] h = refl
take_whole zero (x ∷ xs) h = absurd (omega arith)
take_whole (suc n) [] h = refl
take_whole (suc n) (x ∷ xs) h = ap (λ ys. x ∷ ys) (take_whole n xs (omega arith))

pub drop_whole : (n : ℕ) (xs : List ℕ) → length xs ≤ n → drop n xs ≡ []
drop_whole zero [] h = refl
drop_whole zero (x ∷ xs) h = absurd (omega arith)
drop_whole (suc n) [] h = refl
drop_whole (suc n) (x ∷ xs) h = drop_whole n xs (omega arith)

-- A chunk of at least one byte and at most `size`.
abbrev pub IsPiece : ℕ → List ℕ → Type 0
IsPiece size bytes = (1 ≤ length bytes) × (length bytes ≤ size)

module _ (size : ℕ) (positive : 1 ≤ size) where
  -- The pieces joined are the file.
  pub concat-pieces_of :
      (rounds : ℕ) (contents : List ℕ)
      → length contents ≤ rounds
      → concat (pieces_of size rounds contents) ≡ contents
  unfolding concat pieces_of
  concat-pieces_of zero [] h = refl
  concat-pieces_of zero (b ∷ rest) h = absurd (omega arith)
  concat-pieces_of (suc rounds) [] h = refl
  concat-pieces_of (suc rounds) (b ∷ rest) h =
      let shorter : length (drop size (b ∷ rest)) ≤ rounds =
        omega (arith, length-drop size (b ∷ rest)) in
      ap (λ ys. take size (b ∷ rest) ++ ys) (concat-pieces_of rounds (drop size (b ∷ rest)) shorter)
      ∙ take-drop size (b ∷ rest)

  take-IsPiece : (b : ℕ) (rest : List ℕ) → IsPiece size (take size (b ∷ rest))
  take-IsPiece b rest = elim (Bool-cases (leb size (length (b ∷ rest)))) [
    | inl full ↦ let e = length-take size (b ∷ rest) (leb→le _ _ full) in (omega arith, omega arith)
    | inr short ↦
        let e = take_whole size (b ∷ rest) (ground arith) in rw e (omega arith, ground arith)
  ]

  pub pieces_of-IsPiece :
      (rounds : ℕ) (contents : List ℕ) → All (IsPiece size) (pieces_of size rounds contents)
  unfolding pieces_of
  pieces_of-IsPiece zero contents = tt
  pieces_of-IsPiece (suc rounds) [] = tt
  pieces_of-IsPiece (suc rounds) (b ∷ rest) =
      (take-IsPiece b rest, pieces_of-IsPiece rounds (drop size (b ∷ rest)))

  pub no_pieces : (rounds : ℕ) → pieces_of size rounds [] ≡ []
  unfolding pieces_of
  no_pieces zero = refl
  no_pieces (suc rounds) = refl

  -- The number of pieces is the size divided by the chunk size, rounded up.
  pub length-pieces_of :
      (rounds : ℕ) (contents : List ℕ)
      → length contents ≤ rounds
      → (length contents ≤ length (pieces_of size rounds contents) * size)
        × (length (pieces_of size rounds contents) * size < length contents + size)
  unfolding pieces_of
  length-pieces_of zero [] h = (omega arith, omega arith)
  length-pieces_of zero (b ∷ rest) h = absurd (omega arith)
  length-pieces_of (suc rounds) [] h = (omega arith, omega arith)
  length-pieces_of (suc rounds) (b ∷ rest) h = elim (Bool-cases (leb (length (b ∷ rest)) size)) [
    | inl short ↦
        let e = drop_whole size (b ∷ rest) (leb→le _ _ short) in
        let l = leb→le _ _ short in rw (e, no_pieces rounds) (omega arith, omega arith)
    | inr long ↦
        let (least, most) =
          length-pieces_of rounds (drop size (b ∷ rest))
            (omega (arith, length-drop size (b ∷ rest))) in
        let l : size ≤ suc (length rest) = ground arith in
        (omega (arith, length-drop size (b ∷ rest)), omega (arith, length-drop size (b ∷ rest)))
  ]
