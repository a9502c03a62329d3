-- ===== src/Client.antt =====
-- What the clients of `client/src` share: frames, and reading and writing on a socket. Each of the four
-- programs has its own copy of this code; the one of `test_file_transfer.cpp` is followed.
pub mod Requests
pub mod Sending
pub mod Chunks
pub mod Loop
pub mod Bounds
pub mod Frames
pub mod Answers
pub mod Exchange
pub mod Reading
pub mod Programs
pub mod Arguments
use computer_network_final_p.Base.{
  ℕ, ◌%◌, ◌^◌, Bool, not, List, [], ◌∷◌, ◌++◌, length, ltb, ◌==◌, if◌then◌else◌, Result, ok, err,
  text,
}
use computer_network_final_p.Base.Action.{Action, pure, lift, ◌>>=◌, ◌>>◌}
use computer_network_final_p.Wire.{Endian, put, hton}
use computer_network_final_p.Protocol.Message.{MessageHeaderWire, header_of}

-- A connected socket of Boost.Asio. `read n` waits for `n` bytes and `write` sends all that it is given;
-- both throw where the connection fails.
pub record Socket : Type 1 where
  pub State : Type 0
  pub read : ℕ → Action State (List ℕ)
  pub write : List ℕ → Action State (Unit {0})

abbrev pub magic : ℕ
magic = 0x46535831

abbrev pub version : ℕ
version = 1

-- The packed `Header`, its fields in network order, and the payload.
unfoldable pub make_frame : Endian → ℕ → List ℕ → List ℕ
make_frame h type payload =
    (put h 4 magic ++ (version ∷ type ∷ (put h 4 (length payload % 2 ^ 32) ++ put h 2 0)))
    ++ payload

unfoldable pub read_header : Endian → (S : Socket) → Action S.State MessageHeaderWire
read_header h S = do
  bytes ← S.read 12
  let header = header_of h bytes
  if not (hton h 4 header.magic_be == magic)
      then lift (err (text "bad magic"))
      else if not (header.version_byte == version)
      then lift (err (text "bad version"))
      else pure header

unfoldable pub read_payload : (S : Socket) → ℕ → Action S.State (List ℕ)
read_payload S len = if ltb 0 len then S.read len else pure []

-- A header of the type that is waited for, and its payload, of at least `least` bytes.
unfoldable pub read_answer :
    Endian → (S : Socket) → ℕ → ℕ → (ℕ → List ℕ) → List ℕ → Action S.State (List ℕ)
unfolding read_header read_payload
read_answer h S type least unexpected short = do
  header ← read_header h S
  if not (header.type_byte == type) then lift (err (unexpected header.type_byte)) else (do
    payload ← read_payload S (hton h 4 header.len_be)
    if ltb (length payload) least then lift (err short) else pure payload)
