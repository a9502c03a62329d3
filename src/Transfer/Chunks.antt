-- ===== src/Transfer/Chunks.antt =====
-- The chunks that a session counts: those that come in order.
use computer_network_final_p.Base.{
  ℕ, suc, ◌+◌, ◌^◌, ◌<◌, ◌≡◌, refl, some, List, [], ◌∷◌, length, ◌==◌, if◌then◌else◌, arith,
}
use computer_network_final_p.Base.Dict.{find-adjust_self, nat_eq}
use computer_network_final_p.Transfer.{
  TransferSession, TransferManager, get_transfer, adjust_session, mark_session, mark_chunk_received,
}

-- A chunk as `mark_chunk_received` sees it: its index and its size.
abbrev pub Chunk : Type 0
Chunk = ℕ × ℕ

unfoldable pub mark_all : TransferManager → ℕ → List Chunk → TransferManager
mark_all m id [] = m
mark_all m id ((index, bytes) ∷ rest) = mark_all ((mark_chunk_received m id index bytes).0) id rest

-- The sizes of the chunks that are next in turn when they come, counting from `expected`.
unfoldable pub in_order : ℕ → List Chunk → List ℕ
in_order expected [] = []
in_order expected ((index, bytes) ∷ rest) =
    let taken = bytes ∷ in_order (suc expected) rest in
    let skipped = in_order expected rest in if index == expected then taken else skipped

unfoldable pub total : List ℕ → ℕ
total [] = 0
total (n ∷ rest) = n + total rest

mark_session_all : TransferSession → List Chunk → TransferSession
mark_session_all s [] = s
mark_session_all s ((index, bytes) ∷ rest) = mark_session_all ((mark_session index bytes s).0) rest

pub mark-get_transfer :
    (m : TransferManager) (id index bytes : ℕ) (s : TransferSession)
    → get_transfer m id ≡ some s
    → get_transfer ((mark_chunk_received m id index bytes).0) id
      ≡ some ((mark_session index bytes s).0)
unfolding mark_chunk_received get_transfer adjust_session
mark-get_transfer m id index bytes s e =
    rw (e, mark_chunk_received) (find-adjust_self id _ m.transfers s e)

mark_all-get_transfer :
    (m : TransferManager) (id : ℕ) (chunks : List Chunk) (s : TransferSession)
    → get_transfer m id ≡ some s
    → get_transfer (mark_all m id chunks) id ≡ some (mark_session_all s chunks)
unfolding mark_all mark_session_all
mark_all-get_transfer m id [] s e = e
mark_all-get_transfer m id ((index, bytes) ∷ rest) s e =
    mark_all-get_transfer ((mark_chunk_received m id index bytes).0) id rest
      ((mark_session index bytes s).0) (mark-get_transfer m id index bytes s e)

mark_session_all_counts :
    (chunks : List Chunk) (s : TransferSession) (e : ℕ)
    → s.expected_chunk_index ≡ e
    → e + length (in_order e chunks) < 2 ^ 32
    → s.bytes_received + total (in_order e chunks) < 2 ^ 64
    → ((mark_session_all s chunks).expected_chunk_index ≡ e + length (in_order e chunks))
      × ((mark_session_all s chunks).bytes_received ≡ s.bytes_received + total (in_order e chunks))
unfolding mark_session_all in_order total mark_session
mark_session_all_counts [] s e he hi hb = omega arith
mark_session_all_counts ((index, bytes) ∷ rest) s e he hi hb = ground (
  arith,
  mark_session_all_counts rest ((mark_session index bytes s).0) (suc e),
  mark_session_all_counts rest s e,
)

-- Over any sequence of chunk reports for a transfer, the session's next index moves by as many as came
-- in turn and its byte count by their sizes, while both fit their counters; the rest count for nothing.
pub mark_all_counts :
    (m : TransferManager) (id : ℕ) (chunks : List Chunk) (s : TransferSession)
    → get_transfer m id ≡ some s
    → s.expected_chunk_index + length (in_order s.expected_chunk_index chunks) < 2 ^ 32
    → s.bytes_received + total (in_order s.expected_chunk_index chunks) < 2 ^ 64
    → (s' : TransferSession) × (get_transfer (mark_all m id chunks) id ≡ some s')
      × (s'.expected_chunk_index
          ≡ s.expected_chunk_index + length (in_order s.expected_chunk_index chunks))
      × (s'.bytes_received ≡ s.bytes_received + total (in_order s.expected_chunk_index chunks))
mark_all_counts m id chunks s e hi hb =
    let (index, received) = mark_session_all_counts chunks s s.expected_chunk_index refl hi hb in
    (mark_session_all s chunks, mark_all-get_transfer m id chunks s e, index, received)

-- The chunks of a sender that numbers them from `first` on.
unfoldable pub numbered : ℕ → List ℕ → List Chunk
numbered first [] = []
numbered first (bytes ∷ rest) = (first, bytes) ∷ numbered (suc first) rest

in_order-numbered : (first : ℕ) (sizes : List ℕ) → in_order first (numbered first sizes) ≡ sizes
unfolding in_order numbered
in_order-numbered first [] = refl
in_order-numbered first (bytes ∷ rest) = ground (arith, in_order-numbered (suc first) rest)
