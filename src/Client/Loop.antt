-- ===== src/Client/Loop.antt =====
-- The chunk loop of `do_send` against the pieces of the file.
use computer_network_final_p.Base.{
  ℕ, zero, suc, ◌+◌, ◌-◌, ◌/◌, ◌%◌, ◌^◌, ◌≤◌, ◌<◌, ◌≡◌, refl, sym, ap, ◌∙◌, true, false, Bool-cases,
  inl, inr, List, [], ◌∷◌, length, take, drop, length-take, length-drop, le→ltb, ltb, ◌==◌, ok,
  arith,
}
use computer_network_final_p.Base.Action.{pure, ◌>>◌, bind-congr, bind_assoc}
use computer_network_final_p.Wire.{Endian}
use computer_network_final_p.Client.{Socket}
use computer_network_final_p.Client.Requests.{make_file_chunk}
use computer_network_final_p.Client.Sending.{
  default_chunk_size, next_size, send_chunks, announced_chunks,
}
use computer_network_final_p.Client.Chunks.{
  pieces_of, pieces, write_pieces, take_whole, drop_whole, length-pieces_of, no_pieces,
}

pub one_byte : 1 ≤ default_chunk_size
unfolding default_chunk_size
one_byte = omega arith

-- The number of the pieces, as a division.
pub length-pieces :
    (contents : List ℕ) → length (pieces contents) ≡ (length contents + 262143) / 262144
unfolding pieces default_chunk_size
length-pieces contents =
    omega
      (arith, length-pieces_of default_chunk_size one_byte (length contents) contents (omega arith))

positive_count : (n count : ℕ) → count ≡ (suc n + 262143) / 262144 → 1 ≤ count
positive_count n count e = omega arith

module _ (h : Endian) (S : Socket) (transfer_id : ℕ) where
  -- What is to be read is the next piece.
  record NextPiece (to_read b : ℕ) (rest : List ℕ) : Type 0 where
    taken : take to_read (b ∷ rest) ≡ take default_chunk_size (b ∷ rest)
    dropped : drop to_read (b ∷ rest) ≡ drop default_chunk_size (b ∷ rest)
    size : length (take default_chunk_size (b ∷ rest)) ≡ to_read
    some_bytes : 1 ≤ to_read
    left : length (drop default_chunk_size (b ∷ rest)) + to_read ≡ suc (length rest)

  next_piece : (b : ℕ) (rest : List ℕ) → NextPiece (next_size (suc (length rest))) b rest
  unfolding next_size
  next_piece b rest = elim (Bool-cases (ltb (suc (length rest)) default_chunk_size)) [
    | inl short ↦
        let whole = take_whole default_chunk_size (b ∷ rest) (ground arith) in
        let none_left = drop_whole default_chunk_size (b ∷ rest) (ground arith) in
        rw short (record {
          taken = take_whole (suc (length rest)) (b ∷ rest) (omega arith) ∙ sym whole;
          dropped = drop_whole (suc (length rest)) (b ∷ rest) (omega arith) ∙ sym none_left;
          size = ap length whole;
          some_bytes = omega arith;
          left = rw none_left (omega arith);
        })
    | inr long ↦
        let fits : default_chunk_size ≤ suc (length rest) = ground arith in
        rw long (record {
          taken = refl;
          dropped = refl;
          size = length-take default_chunk_size (b ∷ rest) fits;
          some_bytes = one_byte;
          left = omega (arith, length-drop default_chunk_size (b ∷ rest));
        })
  ]

  -- One round where bytes are left.
  send_chunks-step :
      (rounds b : ℕ) (rest : List ℕ) (file_size first total_sent : ℕ) (s : S.State)
      → total_sent + suc (length rest) ≡ file_size
      → file_size < 2 ^ 64
      → first + 1 < 2 ^ 32
      → send_chunks (suc rounds) h S transfer_id file_size (b ∷ rest) first total_sent s
        ≡ (S.write (make_file_chunk h transfer_id first (take default_chunk_size (b ∷ rest)))
              >> send_chunks rounds h S transfer_id file_size
                  (drop default_chunk_size (b ∷ rest))
                  (first + 1)
                  (total_sent + next_size (suc (length rest))))
            s
  unfolding send_chunks
  send_chunks-step rounds b rest file_size first total_sent s ht hs hn =
      let going : ltb total_sent file_size ≡ true = ground arith in
      let remaining : file_size - total_sent ≡ suc (length rest) = omega arith in
      let p = next_piece b rest in
      let nonempty : (next_size (suc (length rest)) == 0) ≡ false = ground (arith, p.some_bytes) in
      let whole : ltb (next_size (suc (length rest))) (next_size (suc (length rest))) ≡ false =
        le→ltb _ _ (omega arith) in
      let next_index : (first + 1) % 2 ^ 32 ≡ first + 1 = omega arith in
      let next_sent : (total_sent + next_size (suc (length rest))) % 2 ^ 64
          ≡ total_sent + next_size (suc (length rest)) =
        omega (arith, p.left) in
      rw (going, remaining, p.taken, p.dropped, p.size, nonempty, whole, next_index, next_sent)

  loop_ends :
      (rounds file_size first total_sent : ℕ) (s : S.State)
      → total_sent + 0 ≡ file_size
      → send_chunks (suc rounds) h S transfer_id file_size [] first total_sent s
        ≡ (write_pieces h S transfer_id first [] >> pure (first + 0, file_size)) s
  unfolding send_chunks write_pieces
  loop_ends rounds file_size first total_sent s ht =
      let over : ltb total_sent file_size ≡ false = ground arith in
      let same : total_sent ≡ file_size = omega arith in
      let first_same : first ≡ first + 0 = omega arith in
      rw over (
        ap (λ (n : ℕ). (s, ok (n, total_sent))) first_same
        ∙ ap (λ (n : ℕ). (s, ok (first + 0, n))) same)

  -- From any point of the loop with rounds enough.
  send_chunks-pieces_of :
      (rounds fuel : ℕ) (rest : List ℕ) (file_size first total_sent : ℕ) (s : S.State)
      → length rest < rounds
      → length rest ≤ fuel
      → total_sent + length rest ≡ file_size
      → file_size < 2 ^ 64
      → first + length (pieces_of default_chunk_size fuel rest) < 2 ^ 32
      → send_chunks rounds h S transfer_id file_size rest first total_sent s
        ≡ (write_pieces h S transfer_id first (pieces_of default_chunk_size fuel rest)
              >> pure (first + length (pieces_of default_chunk_size fuel rest), file_size))
            s
  send_chunks-pieces_of zero fuel rest file_size first total_sent s hr hf ht hs hn =
      absurd (omega arith)
  send_chunks-pieces_of (suc rounds) fuel [] file_size first total_sent s hr hf ht hs hn =
      rw (no_pieces default_chunk_size one_byte fuel)
        (loop_ends rounds file_size first total_sent s ht)
  send_chunks-pieces_of (suc rounds) zero (b ∷ rest) file_size first total_sent s hr hf ht hs hn =
      absurd (omega arith)
  send_chunks-pieces_of (suc rounds) (suc fuel) (b ∷ rest) file_size first total_sent s hr hf ht hs
        hn =
      let p = next_piece b rest in
      let later = pieces_of default_chunk_size fuel (drop default_chunk_size (b ∷ rest)) in
      let count : length (pieces_of default_chunk_size (suc fuel) (b ∷ rest)) ≡ suc (length later) =
        unfold pieces_of in refl in
      let write =
        S.write (make_file_chunk h transfer_id first (take default_chunk_size (b ∷ rest))) in
      send_chunks-step rounds b rest file_size first total_sent s ht hs (omega arith)
      ∙ bind-congr write s _ _ (λ sent mid.
        send_chunks-pieces_of rounds fuel (drop default_chunk_size (b ∷ rest)) file_size (first + 1)
          (total_sent + next_size (suc (length rest))) mid (omega (arith, p.left, p.some_bytes))
          (omega (arith, p.left, p.some_bytes)) (omega (arith, p.left)) hs (omega arith))
      ∙ sym (
          bind_assoc write s (λ sent. write_pieces h S transfer_id (first + 1) later)
            (λ sent. pure (first + 1 + length later, file_size)))
      ∙ (let e : first + 1 + length later
              ≡ first + length (pieces_of default_chunk_size (suc fuel) (b ∷ rest)) =
            omega (arith, count) in
          unfold pieces_of write_pieces in
          (ap
            (λ (n : ℕ).
              (write_pieces h S transfer_id first
                    (pieces_of default_chunk_size (suc fuel) (b ∷ rest))
                  >> pure (n, file_size))
                s)
            e))

  -- For a file below 2 ^ 49 bytes whose reported size is its size, the chunk loop ends, within as many
  -- rounds as it has bytes and one: on every socket it acts as writing the pieces of the file in turn,
  -- numbered from 0, and then returning their number, which FILE_DONE announces, and the file's size.
  pub send_chunks-write_pieces :
      (contents : List ℕ) (s : S.State)
      → length contents < 2 ^ 49
      → send_chunks (length contents + 1) h S transfer_id (length contents) contents 0 0 s
        ≡ (write_pieces h S transfer_id 0 (pieces contents)
              >> pure (length (pieces contents), length contents))
            s
  unfolding pieces
  send_chunks-write_pieces contents s small =
      let count = length (pieces_of default_chunk_size (length contents) contents) in
      let from_zero : 0 + count ≡ count = omega arith in
      send_chunks-pieces_of (length contents + 1) (length contents) contents (length contents) 0 0 s
        (omega arith) (omega arith) (omega arith) (omega arith)
        (omega (arith, length-pieces contents))
      ∙ ap
          (λ (n : ℕ).
            (write_pieces h S transfer_id 0 (pieces contents) >> pure (n, length contents)) s)
          from_zero

announced_at :
    (size count : ℕ)
    → size < 2 ^ 49
    → count ≡ (size + 262143) / 262144
    → announced_chunks size count ≡ count
unfolding announced_chunks default_chunk_size
announced_at zero count small e = omega arith
announced_at (suc n) count small e =
    let some_chunks : (count == 0) ≡ false = ground (arith, positive_count n count e) in
    let up : (suc n + 262144 - 1) % 2 ^ 64 / 262144 % 2 ^ 32 ≡ count = omega arith in
    let filled : ltb 0 (suc n) ≡ true = ground arith in
    rw (filled, some_chunks, up, le→ltb count count (omega arith))

pub announced_chunks-length :
    (contents : List ℕ)
    → length contents < 2 ^ 49
    → announced_chunks (length contents) (length (pieces contents)) ≡ length (pieces contents)
announced_chunks-length contents small = announced_at _ _ small (length-pieces contents)
