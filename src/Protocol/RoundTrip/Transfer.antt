-- ===== src/Protocol/RoundTrip/Transfer.antt =====
-- FILE_ACCEPT_REQ, FILE_CHUNK and FILE_DONE: written with the portable swap, read with `be64toh`.
use computer_network_final_p.Base.{
  ℕ, ◌^◌, ◌<◌, ◌≡◌, refl, Bool, true, false, if◌then◌else◌, [], ◌∷◌, ◌++◌, length, le→ltb, ok,
  arith, ◌==◌,
}
use computer_network_final_p.Wire.{little, put, put64_portable}
use computer_network_final_p.Wire.Reading.{At-start, At-end, get_byte-At}
use computer_network_final_p.Protocol.Fields.{
  get-put, At-put, get-put64_portable, At-put64_portable,
}
use computer_network_final_p.Protocol.FileAcceptReq
use computer_network_final_p.Protocol.FileAcceptReq.{FileAcceptReq}
use computer_network_final_p.Protocol.FileChunk
use computer_network_final_p.Protocol.FileChunk.{FileChunk}
use computer_network_final_p.Protocol.FileDone
use computer_network_final_p.Protocol.FileDone.{FileDone}

flag_bit : (b : Bool) → ((if b then 1 else 0) == 1) ≡ b
flag_bit true = refl
flag_bit false = refl

accept_req_by_flag :
    (id : ℕ) (accept : Bool)
    → id < 2 ^ 64
    → FileAcceptReq.deserialize little
        (FileAcceptReq.serialize little (record { transfer_id = id; accept = accept }))
      ≡ ok (record { transfer_id = id; accept = accept })
unfolding FileAcceptReq.deserialize FileAcceptReq.serialize
accept_req_by_flag id accept fits =
    let flag : ℕ = if accept then 1 else 0 in
    let payload = put64_portable little id ++ (flag ∷ []) in
    let a0 = At-start payload in
    let a1 = At-put64_portable payload 0 id (flag ∷ []) a0 in
    rw (
      le→ltb (length payload) 9 (omega (arith, a1.room)),
      get-put64_portable payload 0 _ _ a0 fits,
      get_byte-At payload 8 flag _ a1,
      flag_bit accept,
    )

pub deserialize-serialize_accept_req :
    (r : FileAcceptReq)
    → r.transfer_id < 2 ^ 64
    → FileAcceptReq.deserialize little (FileAcceptReq.serialize little r) ≡ ok r
deserialize-serialize_accept_req r = accept_req_by_flag r.transfer_id r.accept

-- A chunk comes back with its data, whatever the data is.
pub deserialize-serialize_chunk :
    (r : FileChunk)
    → r.transfer_id < 2 ^ 64
    → r.chunk_index < 2 ^ 32
    → FileChunk.deserialize little (FileChunk.serialize little r) ≡ ok r
unfolding FileChunk.deserialize FileChunk.serialize
deserialize-serialize_chunk r id_fits index_fits =
    let index = put little 4 r.chunk_index in
    let payload = put64_portable little r.transfer_id ++ (index ++ r.bytes) in
    let a0 = At-start payload in
    let a1 = At-put64_portable payload 0 _ (index ++ r.bytes) a0 in
    let a2 = At-put little payload 8 r.bytes 4 _ a1 in
    rw (
      le→ltb (length payload) 12 (omega (arith, a2.room)),
      get-put64_portable payload 0 _ _ a0 id_fits,
      get-put little payload 8 _ 4 _ index_fits a1,
      a2.tail,
    )

-- FILE_DONE comes back whole.
pub deserialize-serialize_done :
    (r : FileDone)
    → r.transfer_id < 2 ^ 64
    → r.total_chunks < 2 ^ 32
    → r.file_size < 2 ^ 64
    → FileDone.deserialize little (FileDone.serialize little r) ≡ ok r
unfolding FileDone.deserialize FileDone.serialize
deserialize-serialize_done r id_fits chunks_fit size_fits =
    let chunks = put little 4 r.total_chunks in
    let size = put64_portable little r.file_size in
    let payload = put64_portable little r.transfer_id ++ (chunks ++ size) in
    let a0 = At-start payload in
    let a1 = At-put64_portable payload 0 _ (chunks ++ size) a0 in
    let a2 = At-put little payload 8 size 4 _ a1 in
    let a3 = At-end payload 12 size a2 in
    let a4 = At-put64_portable payload 12 _ [] a3 in
    rw (
      le→ltb (length payload) 16 (omega (arith, a4.room)),
      get-put64_portable payload 0 _ _ a0 id_fits,
      get-put little payload 8 _ 4 _ chunks_fit a1,
      get-put64_portable payload 12 _ _ a3 size_fits,
    )

-- On a little-endian host, a FILE_ACCEPT_REQ, a FILE_CHUNK, whatever its data is, and a FILE_DONE whose
-- numbers fit their fields are read back as they were written.
pub deserialize-serialize_transfer :
    (accept : FileAcceptReq) (chunk : FileChunk) (done : FileDone)
    → accept.transfer_id < 2 ^ 64
    → chunk.transfer_id < 2 ^ 64
    → chunk.chunk_index < 2 ^ 32
    → done.transfer_id < 2 ^ 64
    → done.total_chunks < 2 ^ 32
    → done.file_size < 2 ^ 64
    → (FileAcceptReq.deserialize little (FileAcceptReq.serialize little accept) ≡ ok accept)
      × (FileChunk.deserialize little (FileChunk.serialize little chunk) ≡ ok chunk)
      × (FileDone.deserialize little (FileDone.serialize little done) ≡ ok done)
deserialize-serialize_transfer accept chunk done h1 h2 h3 h4 h5 h6 = (
  deserialize-serialize_accept_req accept h1,
  deserialize-serialize_chunk chunk h2 h3,
  deserialize-serialize_done done h4 h5 h6,
)
