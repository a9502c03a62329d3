-- ===== src/Client/Frames.antt =====
-- The clients' own frame code against the server's `make_header`, `serialize` and `deserialize`.
use computer_network_final_p.Base.{
  ℕ, ◌+◌, ◌%◌, ◌^◌, ◌≡◌, refl, List, [], ◌++◌, length, le→ltb, ok, arith,
}
use computer_network_final_p.Wire.{Endian, put}
use computer_network_final_p.Wire.Reading.{At-start, At-end}
use computer_network_final_p.Protocol.{put_text}
use computer_network_final_p.Protocol.Fields.{FitsU16, get_text-put_text, At-put_text}
use computer_network_final_p.Protocol.Message.{
  MsgType, type_code, make_header, header_bytes, file_offer_req, file_accept_req, file_chunk,
  file_done,
}
use computer_network_final_p.Protocol.FileOfferReq
use computer_network_final_p.Protocol.FileOfferReq.{FileOfferReq}
use computer_network_final_p.Protocol.FileAcceptReq
use computer_network_final_p.Protocol.FileAcceptReq.{FileAcceptReq}
use computer_network_final_p.Protocol.FileChunk
use computer_network_final_p.Protocol.FileChunk.{FileChunk}
use computer_network_final_p.Protocol.FileDone
use computer_network_final_p.Protocol.FileDone.{FileDone}
use computer_network_final_p.Protocol.LoginReq
use computer_network_final_p.Protocol.LoginReq.{LoginReq}
use computer_network_final_p.Protocol.RegisterReq
use computer_network_final_p.Protocol.RegisterReq.{RegisterReq}
use computer_network_final_p.Client.{make_frame}
use computer_network_final_p.Client.Requests.{
  login_payload, register_payload, make_file_offer_req, make_file_accept_req, make_file_chunk,
  make_file_done,
}

-- A frame as the server makes one.
abbrev pub frame : Endian → MsgType → List ℕ → List ℕ
frame h type payload = header_bytes h (make_header h type (length payload % 2 ^ 32)) ++ payload

pub make_frame-header_bytes :
    (h : Endian) (type : MsgType) (payload : List ℕ)
    → make_frame h (type_code type) payload ≡ frame h type payload
unfolding make_frame make_header header_bytes put
make_frame-header_bytes h type payload = refl

-- On every host, each file request that the client writes is the server's frame of the message's
-- `serialize`; an offer has the transfer id 0.
pub make_frame-serialize :
    (h : Endian) (offer : FileOfferReq) (accept : FileAcceptReq) (chunk : FileChunk)
    (done : FileDone)
    → (make_file_offer_req h offer.receiver_username offer.filename offer.file_size offer.chunk_size
        ≡ frame h file_offer_req
            (FileOfferReq.serialize h (record offer { client_transfer_id = 0 })))
      × (make_file_accept_req h accept.transfer_id accept.accept
          ≡ frame h file_accept_req (FileAcceptReq.serialize h accept))
      × (make_file_chunk h chunk.transfer_id chunk.chunk_index chunk.bytes
          ≡ frame h file_chunk (FileChunk.serialize h chunk))
      × (make_file_done h done.transfer_id done.total_chunks done.file_size
          ≡ frame h file_done (FileDone.serialize h done))
unfolding make_file_offer_req make_file_accept_req make_file_chunk make_file_done
    FileOfferReq.serialize FileAcceptReq.serialize FileChunk.serialize FileDone.serialize type_code
make_frame-serialize h offer accept chunk done = (
  make_frame-header_bytes h file_offer_req _,
  make_frame-header_bytes h file_accept_req _,
  make_frame-header_bytes h file_chunk _,
  make_frame-header_bytes h file_done _,
)

deserialize-login_payload :
    (h : Endian) (username password : List ℕ)
    → FitsU16 username
    → FitsU16 password
    → LoginReq.deserialize h (login_payload h username password)
      ≡ ok (record { username = username; password = password })
unfolding LoginReq.deserialize login_payload
deserialize-login_payload h username password name_fits word_fits =
    let word = put_text h password in
    let payload = put_text h username ++ word in
    let p1 = 0 + 2 + length username in
    let a0 = At-start payload in
    let a1 = At-put_text h payload 0 username word name_fits a0 in
    let a2 = At-end payload p1 word a1 in
    let a3 = At-put_text h payload p1 password [] word_fits a2 in
    rw (
      le→ltb (length payload) 4 (omega (arith, a3.room)),
      get_text-put_text h payload 0 username word name_fits a0,
      le→ltb (length payload) (p1 + 2) (omega (arith, a3.room)),
      get_text-put_text h payload p1 password [] word_fits a2,
    )

deserialize-register_payload :
    (h : Endian) (username email password : List ℕ)
    → FitsU16 username
    → FitsU16 email
    → FitsU16 password
    → RegisterReq.deserialize h (register_payload h username email password)
      ≡ ok (record { username = username; email = email; password = password })
unfolding RegisterReq.deserialize register_payload
deserialize-register_payload h username email password name_fits mail_fits word_fits =
    let mail = put_text h email in
    let word = put_text h password in
    let payload = put_text h username ++ (mail ++ word) in
    let p1 = 0 + 2 + length username in
    let p2 = p1 + 2 + length email in
    let a0 = At-start payload in
    let a1 = At-put_text h payload 0 username (mail ++ word) name_fits a0 in
    let a2 = At-put_text h payload p1 email word mail_fits a1 in
    let a3 = At-end payload p2 word a2 in
    let a4 = At-put_text h payload p2 password [] word_fits a3 in
    rw (
      le→ltb (length payload) 6 (omega (arith, a4.room)),
      get_text-put_text h payload 0 username (mail ++ word) name_fits a0,
      le→ltb (length payload) (p1 + 2) (omega (arith, a4.room)),
      get_text-put_text h payload p1 email word mail_fits a1,
      le→ltb (length payload) (p2 + 2) (omega (arith, a4.room)),
      get_text-put_text h payload p2 password [] word_fits a3,
    )

-- A LOGIN_REQ and a REGISTER_REQ of a client, with names, mail address and password below 65536 bytes,
-- are read back by a host of the same byte order.
pub deserialize-login_and_register :
    (h : Endian) (username email password : List ℕ)
    → FitsU16 username
    → FitsU16 email
    → FitsU16 password
    → (LoginReq.deserialize h (login_payload h username password)
        ≡ ok (record { username = username; password = password }))
      × (RegisterReq.deserialize h (register_payload h username email password)
          ≡ ok (record { username = username; email = email; password = password }))
deserialize-login_and_register h username email password name_fits mail_fits word_fits = (
  deserialize-login_payload h username password name_fits word_fits,
  deserialize-register_payload h username email password name_fits mail_fits word_fits,
)
