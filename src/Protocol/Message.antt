-- ===== src/Protocol/Message.antt =====
-- The frame header of `core/include/fsx/protocol/message.h`.
use computer_network_final_p.Base.{
  take, drop, if◌then◌else◌, ℕ, List, ◌∷◌, ◌++◌, not, ◌==◌, Result, ◌>>◌, throw_if,
}
use computer_network_final_p.Wire.{Endian, store, load, hton}

abbrev pub magic : ℕ
magic = 0x46535831

abbrev pub version : ℕ
version = 1

abbrev pub header_size : ℕ
header_size = 12

-- `enum class MsgType : uint8_t`. A byte that names no enumerator is still a `MsgType` in C++.
pub data MsgType : Type 0 where
  hello ping pong register_req register_resp login_req login_resp : MsgType
  online_list_req online_list_resp file_offer_req file_offer_resp file_accept_req : MsgType
  file_accept_resp file_chunk file_done file_result : MsgType
  admin_online_list_req admin_online_list_resp : MsgType
  other : ℕ → MsgType

-- `static_cast<uint8_t>(type)`.
unfoldable pub type_code : MsgType → ℕ
type_code hello = 1
type_code ping = 2
type_code pong = 3
type_code register_req = 10
type_code register_resp = 11
type_code login_req = 12
type_code login_resp = 13
type_code online_list_req = 20
type_code online_list_resp = 21
type_code file_offer_req = 30
type_code file_offer_resp = 31
type_code file_accept_req = 32
type_code file_accept_resp = 33
type_code file_chunk = 34
type_code file_done = 35
type_code file_result = 36
type_code admin_online_list_req = 100
type_code admin_online_list_resp = 101
type_code (other c) = c

-- The packed struct: its big-endian fields hold what the host reads as a number.
pub record MessageHeaderWire : Type 0 where
  pub magic_be : ℕ
  pub version_byte : ℕ
  pub type_byte : ℕ
  pub len_be : ℕ
  pub reserved_be : ℕ

unfoldable pub make_header : Endian → MsgType → ℕ → MessageHeaderWire
make_header h type len = record {
  magic_be = hton h 4 magic;
  version_byte = version;
  type_byte = type_code type;
  len_be = hton h 4 len;
  reserved_be = hton h 2 0;
}

unfoldable pub validate_header : Endian → MessageHeaderWire → Result (Unit {0})
validate_header h header = do
  throw_if (not (hton h 4 header.magic_be == magic)) "bad magic"
  throw_if (not (header.version_byte == version)) "bad version"

unfoldable pub payload_len : Endian → MessageHeaderWire → ℕ
payload_len h header = hton h 4 header.len_be

-- The twelve bytes of the struct in memory, and the struct that twelve bytes make.
unfoldable pub header_bytes : Endian → MessageHeaderWire → List ℕ
header_bytes h m =
    store h 4 m.magic_be
    ++ (m.version_byte ∷ m.type_byte ∷ (store h 4 m.len_be ++ store h 2 m.reserved_be))

unfoldable pub header_of : Endian → List ℕ → MessageHeaderWire
header_of h bytes = record {
  magic_be = load h (take 4 bytes);
  version_byte = load h (take 1 (drop 4 bytes));
  type_byte = load h (take 1 (drop 5 bytes));
  len_be = load h (take 4 (drop 6 bytes));
  reserved_be = load h (take 2 (drop 10 bytes));
}

-- `static_cast<MsgType>(header_.type)`, and the comparisons of it with each enumerator.
unfoldable pub type_of : ℕ → MsgType
type_of c =
    if c == 1
    then hello
    else if c == 2
    then ping
    else if c == 3
    then pong
    else if c == 10
    then register_req
    else if c == 11
    then register_resp
    else if c == 12
    then login_req
    else if c == 13
    then login_resp
    else if c == 20
    then online_list_req
    else if c == 21
    then online_list_resp
    else if c == 30
    then file_offer_req
    else if c == 31
    then file_offer_resp
    else if c == 32
    then file_accept_req
    else if c == 33
    then file_accept_resp
    else if c == 34
    then file_chunk
    else if c == 35
    then file_done
    else if c == 36
    then file_result
    else if c == 100
    then admin_online_list_req
    else if c == 101
    then admin_online_list_resp
    else other c
