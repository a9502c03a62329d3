-- ===== src/Protocol/Framing.antt =====
-- The twelve bytes before every payload.
use computer_network_final_p.Base.{
  ℕ, ◌^◌, ◌<◌, ◌≡◌, ◌≢◌, refl, ap, ◌∙◌, [], ◌∷◌, ◌++◌, length, ok, arith,
}
use computer_network_final_p.Wire.{
  Endian, little, big, be_bytes, le_bytes, of_le, load, store, hton, put,
}
use computer_network_final_p.Wire.Order.{put-be_bytes, hton-load-be_bytes}
use computer_network_final_p.Protocol.Message.{
  MsgType, hello, ping, pong, register_req, register_resp, login_req, login_resp, online_list_req,
  online_list_resp, file_offer_req, file_offer_resp, file_accept_req, file_accept_resp, file_chunk,
  file_done, file_result, admin_online_list_req, admin_online_list_resp, other, type_code, type_of,
  make_header, validate_header, payload_len, header_bytes, header_of, magic, version,
}

load_byte : (h : Endian) (b : ℕ) → load h (b ∷ []) ≡ b
unfolding load of_le
load_byte little b = omega arith
load_byte big b = omega arith

type_of-type_code : (type : MsgType) → ((c : ℕ) → type ≢ other c) → type_of (type_code type) ≡ type
unfolding type_of type_code
type_of-type_code hello known = refl
type_of-type_code ping known = refl
type_of-type_code pong known = refl
type_of-type_code register_req known = refl
type_of-type_code register_resp known = refl
type_of-type_code login_req known = refl
type_of-type_code login_resp known = refl
type_of-type_code online_list_req known = refl
type_of-type_code online_list_resp known = refl
type_of-type_code file_offer_req known = refl
type_of-type_code file_offer_resp known = refl
type_of-type_code file_accept_req known = refl
type_of-type_code file_accept_resp known = refl
type_of-type_code file_chunk known = refl
type_of-type_code file_done known = refl
type_of-type_code file_result known = refl
type_of-type_code admin_online_list_req known = refl
type_of-type_code admin_online_list_resp known = refl
type_of-type_code (other c) known = absurd (known c refl)

-- The bytes of a header, by its fields in network order.
header_bytes-be_bytes :
    (h : Endian) (type : MsgType) (len : ℕ)
    → header_bytes h (make_header h type len)
      ≡ be_bytes 4 magic ++ (version ∷ type_code type ∷ (be_bytes 4 len ++ be_bytes 2 0))
unfolding header_bytes make_header
header_bytes-be_bytes h type len = rw (put_as h 4 magic, put_as h 4 len, put_as h 2 0)
  where
    put_as : (h : Endian) (w x : ℕ) → store h w (hton h w x) ≡ be_bytes w x
    put_as h w x = unfold put in put-be_bytes h w x

-- A header that one host writes for an enumerator and a length below 2 ^ 32 has twelve bytes, and any
-- host validates it and reads the type and the length back.
pub header_of-header_bytes :
    (from to : Endian) (type : MsgType) (len : ℕ)
    → ((c : ℕ) → type ≢ other c)
    → len < 2 ^ 32
    → let bytes = header_bytes from (make_header from type len) in
      let m = header_of to bytes in
      (length bytes ≡ 12)
      × (validate_header to m ≡ ok tt)
      × (type_of m.type_byte ≡ type)
      × (payload_len to m ≡ len)
unfolding header_of validate_header payload_len be_bytes le_bytes
header_of-header_bytes from to type len known small = rw (header_bytes-be_bytes from type len) (
  refl,
  rw (hton-load-be_bytes to 4 magic (omega arith), load_byte to version),
  ap type_of (load_byte to (type_code type)) ∙ type_of-type_code type known,
  hton-load-be_bytes to 4 len (omega arith),
)

-- What any host reads in the fields of such a header.
pub header_fields :
    (from to : Endian) (type : MsgType) (len : ℕ)
    → len < 2 ^ 32
    → let bytes = header_bytes from (make_header from type len) in
      let m = header_of to bytes in
      (length bytes ≡ 12)
      × (hton to 4 m.magic_be ≡ magic)
      × (m.version_byte ≡ version)
      × (m.type_byte ≡ type_code type)
      × (hton to 4 m.len_be ≡ len)
unfolding header_of be_bytes le_bytes
header_fields from to type len small = rw (header_bytes-be_bytes from type len) (
  refl,
  hton-load-be_bytes to 4 magic (omega arith),
  load_byte to version,
  load_byte to (type_code type),
  hton-load-be_bytes to 4 len (omega arith),
)
