-- ===== src/Tests/Client.antt =====
-- The client's code at small inputs.
use computer_network_final_p.Base.{
  ℕ, ◌+◌, ◌≡◌, true, List, [], ◌∷◌, ◌++◌, length, take, ok, ◌>>=◌, arith,
}
use computer_network_final_p.Base.Action.{pure, ◌>>◌}
use computer_network_final_p.Wire.{little}
use computer_network_final_p.Protocol.Message.{
  ping, online_list_req, file_offer_req, file_accept_req, file_chunk, file_done,
}
use computer_network_final_p.Protocol.FileOfferReq
use computer_network_final_p.Protocol.FileOfferReq.{FileOfferReq}
use computer_network_final_p.Protocol.FileAcceptReq
use computer_network_final_p.Protocol.FileAcceptReq.{FileAcceptReq}
use computer_network_final_p.Protocol.FileChunk
use computer_network_final_p.Protocol.FileChunk.{FileChunk}
use computer_network_final_p.Protocol.FileDone
use computer_network_final_p.Protocol.FileDone.{FileDone}
use computer_network_final_p.Client.{Socket}
use computer_network_final_p.Client.Requests.{
  make_file_offer_req, make_file_accept_req, make_file_chunk, make_file_done,
}
use computer_network_final_p.Client.Sending.{send_chunks}
use computer_network_final_p.Client.Chunks.{pieces, write_pieces}
use computer_network_final_p.Client.Loop.{send_chunks-write_pieces}
use computer_network_final_p.Client.Frames.{frame, make_frame-serialize}
use computer_network_final_p.Server.Dispatch.{header}
use computer_network_final_p.Server.Streaming.{
  Message, read_loop, handle_all, frames, read_loop-frames,
}
use computer_network_final_p.Tests.Auth.{reader}
use computer_network_final_p.Tests.Server.{start, answers}

-- A socket that keeps the frames that are written.
abbrev recorder : Socket
recorder = record {
  State = List (List ℕ);
  read = λ n s. (s, ok (take n (0 ∷ 0 ∷ [])));
  write = λ bytes s. (s ++ (bytes ∷ []), ok tt);
}

abbrev file : List ℕ
file = 5 ∷ 6 ∷ 7 ∷ []

send_chunks-write_pieces_example :
    send_chunks (length file + 1) little recorder 1 (length file) file 0 0 []
    ≡ (write_pieces little recorder 1 0 (pieces file) >> pure (length (pieces file), length file))
        []
send_chunks-write_pieces_example = send_chunks-write_pieces little recorder 1 file [] (omega arith)

abbrev offer : FileOfferReq
offer = record {
  client_transfer_id = 0;
  receiver_username = b'b' ∷ [];
  filename = b'f' ∷ [];
  file_size = 3;
  chunk_size = 4096;
}

abbrev accept : FileAcceptReq
accept = record { transfer_id = 1; accept = true }

abbrev chunk : FileChunk
chunk = record { transfer_id = 1; chunk_index = 0; bytes = 5 ∷ 6 ∷ 7 ∷ [] }

abbrev done : FileDone
done = record { transfer_id = 1; total_chunks = 1; file_size = 3 }

make_frame-serialize_example :
    (make_file_offer_req little offer.receiver_username offer.filename offer.file_size
        offer.chunk_size
      ≡ frame little file_offer_req
          (FileOfferReq.serialize little (record offer { client_transfer_id = 0 })))
    × (make_file_accept_req little accept.transfer_id accept.accept
        ≡ frame little file_accept_req (FileAcceptReq.serialize little accept))
    × (make_file_chunk little chunk.transfer_id chunk.chunk_index chunk.bytes
        ≡ frame little file_chunk (FileChunk.serialize little chunk))
    × (make_file_done little done.transfer_id done.total_chunks done.file_size
        ≡ frame little file_done (FileDone.serialize little done))
make_frame-serialize_example = make_frame-serialize little offer accept chunk done

abbrev name : List ℕ
name = b'b' ∷ []

abbrev mail : List ℕ
mail = b'm' ∷ []

abbrev word : List ℕ
word = b'x' ∷ b'y' ∷ []

-- A ping, a message of a session that has not logged in, and one without a payload.
abbrev three : List Message
three = (ping, word) ∷ (file_done, name) ∷ (online_list_req, []) ∷ []

read_loop-frames_example :
    read_loop reader (λ n. answers) 1 7 0 start header (frames little three)
    ≡ (do w' ← handle_all reader (λ n. answers) 1 0 start three; ok (w', header))
read_loop-frames_example =
    read_loop-frames reader (λ n. answers) 1 little three 7 0 start
      (
        ((λ c e. cc), (omega arith)),
        (((λ c e. cc), (omega arith)), (((λ c e. cc), (omega arith)), tt)),
      )
      (omega arith)
