-- ===== src/Server/Reading.antt =====
-- What the read loop does with the header of a well-formed frame.
use computer_network_final_p.Base.{
  ℕ, ◌*◌, ◌^◌, ◌<◌, ◌≡◌, ◌≢◌, false, [], ltb, ◌==◌, ok, ◌>>=◌, if◌then◌else◌,
}
use computer_network_final_p.Wire.{Endian, little}
use computer_network_final_p.Protocol.Message.{MsgType, other, make_header, header_bytes}
use computer_network_final_p.Protocol.Framing.{header_of-header_bytes}
use computer_network_final_p.Auth.PasswordHash.{HexReader}
use computer_network_final_p.Db.{Services}
use computer_network_final_p.Server.{World, FileAnswers}
use computer_network_final_p.Server.Dispatch.{header, body, stopped, handle_message, header_read}

module _ {S : Services} (read : HexReader) (a : FileAnswers) (w : World S) (self : ℕ)
    (from : Endian) (type : MsgType) (known : (c : ℕ) → type ≢ other c) where
  -- After the whole header of a frame of a known type, the read loop stops, and keeps the session, where
  -- more than 16 MiB are announced; it handles the message at once where nothing is announced, and
  -- waits for the announced number of bytes otherwise.
  pub header_read-header_bytes :
      (len : ℕ)
      → len < 2 ^ 32
      → header_read read a w self false 12 (header_bytes from (make_header from type len)) ≡ (
          if ltb (16 * 1024 * 1024) len
          then ok (w, stopped)
          else if len == 0
          then (do w' ← handle_message read a w self type []; ok (w', header))
          else ok (w, body type len))
  unfolding header_read
  header_read-header_bytes len small =
      let (size, valid, type_read, len_read) =
        header_of-header_bytes from little type len known small in
      rw (valid, type_read, len_read)
