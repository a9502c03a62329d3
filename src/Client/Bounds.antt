-- ===== src/Client/Bounds.antt =====
-- The sizes of the chunks of `do_send`, and the number that FILE_DONE announces.
use computer_network_final_p.Base.{ℕ, ◌<◌, ◌^◌, ◌*◌, ◌≡◌, List, length, All, arith}
use computer_network_final_p.Client.Sending.{default_chunk_size, announced_chunks}
use computer_network_final_p.Client.Chunks.{
  pieces, concat, concat-pieces_of, IsPiece, pieces_of-IsPiece,
}
use computer_network_final_p.Client.Loop.{one_byte, announced_chunks-length}

pub concat-pieces : (contents : List ℕ) → concat (pieces contents) ≡ contents
unfolding pieces
concat-pieces contents =
    concat-pieces_of default_chunk_size one_byte (length contents) contents (omega arith)

-- The chunks of a file below 2 ^ 49 bytes, joined, are the file; each has at least one byte and at most
-- 256 KiB; and the number that the client announces in FILE_DONE, by the division of the size rounded
-- up, is the number of chunks.
pub announced_chunks-pieces :
    (contents : List ℕ)
    → length contents < 2 ^ 49
    → (concat (pieces contents) ≡ contents)
      × All (IsPiece (256 * 1024)) (pieces contents)
      × (announced_chunks (length contents) (length (pieces contents)) ≡ length (pieces contents))
unfolding pieces default_chunk_size
announced_chunks-pieces contents small = (
  concat-pieces contents,
  pieces_of-IsPiece (256 * 1024) (omega arith) (length contents) contents,
  announced_chunks-length contents small,
)
