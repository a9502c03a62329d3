-- ===== src/Tests/Protocol.antt =====
-- The messages of `core/include/fsx/protocol/` at concrete values.
use computer_network_final_p.Base.{
  ℕ, ◌<◌, ◌≤◌, ◌≡◌, ◌≢◌, ◌↔◌, refl, true, false, List, [], ◌∷◌, length, ok, fault, arith,
}
use computer_network_final_p.Wire.{little, le_bytes, of_le, put, bswap, hton, store}
use computer_network_final_p.Protocol.FileOfferReq
use computer_network_final_p.Protocol.FileOfferReq.{FileOfferReq}
use computer_network_final_p.Protocol.FileOfferResp
use computer_network_final_p.Protocol.FileOfferResp.{FileOfferResp}
use computer_network_final_p.Protocol.FileAcceptReq
use computer_network_final_p.Protocol.FileAcceptReq.{FileAcceptReq}
use computer_network_final_p.Protocol.FileAcceptResp
use computer_network_final_p.Protocol.FileAcceptResp.{FileAcceptResp}
use computer_network_final_p.Protocol.FileChunk
use computer_network_final_p.Protocol.FileChunk.{FileChunk}
use computer_network_final_p.Protocol.FileDone
use computer_network_final_p.Protocol.FileDone.{FileDone}
use computer_network_final_p.Protocol.FileResult
use computer_network_final_p.Protocol.FileResult.{FileResult}
use computer_network_final_p.Protocol.RegisterReq
use computer_network_final_p.Protocol.LoginReq
use computer_network_final_p.Protocol.OnlineListResp
use computer_network_final_p.Protocol.RoundTrip.Files.{deserialize-serialize_files}
use computer_network_final_p.Protocol.Safety.{deserialize-ne-fault, deserialize_done_faults}

put_on_little : put little 4 0x46535831 ≡ 0x46 ∷ 0x53 ∷ 0x58 ∷ 0x31 ∷ []
unfolding put store hton bswap le_bytes of_le
put_on_little = refl

abbrev offer : FileOfferReq
offer = record {
  client_transfer_id = 0;
  receiver_username = b'b' ∷ b'o' ∷ b'b' ∷ [];
  filename = b'a' ∷ b'.' ∷ b't' ∷ [];
  file_size = 300_000;
  chunk_size = 262_144;
}

abbrev refusal : FileOfferResp
refusal = record { is_ok = false; transfer_id = 0; reason = b'n' ∷ b'o' ∷ [] }

abbrev rejection : FileAcceptResp
rejection = record { is_ok = false; reason = b'n' ∷ b'o' ∷ [] }

abbrev saved : FileResult
saved = record { transfer_id = 7; is_ok = true; path_or_reason = b'.' ∷ b'/' ∷ b's' ∷ [] }

abbrev acceptance : FileAcceptReq
acceptance = record { transfer_id = 7; accept = true }

abbrev piece : FileChunk
piece = record { transfer_id = 7; chunk_index = 3; bytes = 1 ∷ 2 ∷ 255 ∷ [] }

abbrev finish : FileDone
finish = record { transfer_id = 7; total_chunks = 2; file_size = 300_000 }

deserialize-serialize_files_example :
    (FileOfferReq.deserialize little (FileOfferReq.serialize little offer) ≡ ok offer)
    × ((FileOfferResp.deserialize little (FileOfferResp.serialize little refusal) ≡ ok refusal)
        × (FileAcceptResp.deserialize little (FileAcceptResp.serialize little rejection)
            ≡ ok rejection)
        × (FileResult.deserialize little (FileResult.serialize little saved) ≡ ok saved))
    × ((FileAcceptReq.deserialize little (FileAcceptReq.serialize little acceptance)
          ≡ ok acceptance)
        × (FileChunk.deserialize little (FileChunk.serialize little piece) ≡ ok piece)
        × (FileDone.deserialize little (FileDone.serialize little finish) ≡ ok finish))
deserialize-serialize_files_example =
    deserialize-serialize_files offer refusal acceptance rejection piece finish saved (omega arith)
      (omega arith) (omega arith) (omega arith) (omega arith) (omega arith) (omega arith)
      (omega arith) (omega arith) (omega arith) (omega arith) (omega arith)

-- A payload whose length field promises more than there is.
abbrev overlong : List ℕ
overlong = 0 ∷ 200 ∷ b'x' ∷ 0 ∷ 0 ∷ 0 ∷ 1 ∷ []

deserialize-ne-fault_example :
    (FileOfferReq.deserialize little overlong ≢ fault)
    × (FileOfferResp.deserialize little overlong ≢ fault)
    × (FileAcceptReq.deserialize little overlong ≢ fault)
    × (FileAcceptResp.deserialize little overlong ≢ fault)
    × (FileChunk.deserialize little overlong ≢ fault)
    × (FileResult.deserialize little overlong ≢ fault)
    × (RegisterReq.deserialize little overlong ≢ fault)
    × (LoginReq.deserialize little overlong ≢ fault)
    × (OnlineListResp.deserialize little overlong ≢ fault)
deserialize-ne-fault_example = deserialize-ne-fault little overlong

abbrev sixteen : List ℕ
sixteen = 0 ∷ 0 ∷ 0 ∷ 0 ∷ 0 ∷ 0 ∷ 0 ∷ 7 ∷ 0 ∷ 0 ∷ 0 ∷ 2 ∷ 0 ∷ 0 ∷ 0 ∷ 0 ∷ []

deserialize_done_faults_example :
    (FileDone.deserialize little sixteen ≡ fault) ↔ ((16 ≤ length sixteen) × (length sixteen < 20))
deserialize_done_faults_example = deserialize_done_faults little sixteen
