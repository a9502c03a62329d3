-- ===== src/Wire.antt =====
-- Integers on the wire: the byte swaps of `core/include/fsx/protocol/file_messages.h`, and the way
-- each message file writes an integer (`htons(x)`, then its bytes in memory) and reads one
-- (`ntohs(*reinterpret_cast<const uint16_t*>(payload.data() + pos))`).
-- A byte is a number below 256. The byte order of the host is an argument.
pub mod Bytes
pub mod Order
pub mod Reading
pub mod Portable
use computer_network_final_p.Base.{
  ℕ, zero, suc, ◌+◌, ◌*◌, ◌/◌, ◌%◌, ◌<◌, List, [], ◌∷◌, ◌++◌, reverse, length, take, drop, leb,
  if◌then◌else◌, Result, ok, fault,
}

abbrev pub IsByte : ℕ → Type 0
IsByte b = b < 256

pub data Endian : Type 0 where
  little big : Endian

-- The `w` bytes of a number, lowest first, and back.
unfoldable pub le_bytes : ℕ → ℕ → List ℕ
le_bytes zero x = []
le_bytes (suc w) x = (x % 256) ∷ le_bytes w (x / 256)

unfoldable pub of_le : List ℕ → ℕ
of_le [] = 0
of_le (b ∷ rest) = b + 256 * of_le rest

-- Network order: highest first.
unfoldable pub be_bytes : ℕ → ℕ → List ℕ
be_bytes w x = reverse (le_bytes w x)

-- The bytes of a `w`-byte unsigned integer in memory, and the integer that such bytes hold.
unfoldable pub store : Endian → ℕ → ℕ → List ℕ
store little w x = le_bytes w x
store big w x = reverse (le_bytes w x)

unfoldable pub load : Endian → List ℕ → ℕ
load little memory = of_le memory
load big memory = of_le (reverse memory)

-- A byte swap, `__builtin_bswap64` for eight bytes.
unfoldable pub bswap : ℕ → ℕ → ℕ
bswap w x = of_le (reverse (le_bytes w x))

-- `htons`, `htonl`, `htobe64` and their inverses are one function for each width.
unfoldable pub hton : Endian → ℕ → ℕ → ℕ
hton little w x = bswap w x
hton big w x = x

-- The last branch of the source's `#if`, by masks and shifts: `(x & 0xFF << 8i) >> j` and `<< j`.
unfoldable pub mask_byte : ℕ → ℕ → ℕ
mask_byte x unit = x / unit % 256 * unit

unfoldable pub swap_by_masks : ℕ → ℕ
unfolding mask_byte
swap_by_masks x =
    mask_byte x 0x100000000000000 / 0x100000000000000
    + mask_byte x 0x1000000000000 / 0x10000000000
    + mask_byte x 0x10000000000 / 0x1000000
    + mask_byte x 0x100000000 / 0x100
    + mask_byte x 0x1000000 * 0x100
    + mask_byte x 0x10000 * 0x1000000
    + mask_byte x 0x100 * 0x10000000000
    + mask_byte x 1 * 0x100000000000000

unfoldable pub be64toh_portable : Endian → ℕ → ℕ
be64toh_portable little x = bswap 8 x
be64toh_portable big x = swap_by_masks x

unfoldable pub htobe64_portable : Endian → ℕ → ℕ
htobe64_portable h x = be64toh_portable h x

-- `auto be = htons(x); out.insert(out.end(), (uint8_t*)&be, (uint8_t*)&be + 2);`
unfoldable pub put : Endian → ℕ → ℕ → List ℕ
put h w x = store h w (hton h w x)

unfoldable pub put64_portable : Endian → ℕ → List ℕ
put64_portable h x = store h 8 (htobe64_portable h x)

-- `n` bytes from `payload.data() + pos`: a read past the end is a fault.
unfoldable pub get_bytes : List ℕ → ℕ → ℕ → Result (List ℕ)
get_bytes payload pos n =
    if leb (pos + n) (length payload) then ok (take n (drop pos payload)) else fault

unfoldable pub get : Endian → ℕ → List ℕ → ℕ → Result ℕ
get h w payload pos =
    if leb (pos + w) (length payload)
    then ok (hton h w (load h (take w (drop pos payload))))
    else fault

unfoldable pub get64_portable : Endian → List ℕ → ℕ → Result ℕ
get64_portable h payload pos =
    if leb (pos + 8) (length payload)
    then ok (be64toh_portable h (load h (take 8 (drop pos payload))))
    else fault

-- `payload[pos]`.
unfoldable pub get_byte : List ℕ → ℕ → Result ℕ
get_byte payload pos = elim (drop pos payload) [ [] ↦ fault | b ∷ _ ↦ ok b ]
