-- ===== src/Protocol/RoundTrip/Files.antt =====
-- The messages of a transfer, all together.
use computer_network_final_p.Base.{◌^◌, ◌<◌, ◌≡◌, [], if◌then◌else◌, ok}
use computer_network_final_p.Wire.{little}
use computer_network_final_p.Protocol.Fields.{FitsU16}
use computer_network_final_p.Protocol.FileOfferReq
use computer_network_final_p.Protocol.FileOfferReq.{FileOfferReq}
use computer_network_final_p.Protocol.FileOfferResp
use computer_network_final_p.Protocol.FileOfferResp.{FileOfferResp}
use computer_network_final_p.Protocol.FileAcceptReq
use computer_network_final_p.Protocol.FileAcceptReq.{FileAcceptReq}
use computer_network_final_p.Protocol.FileAcceptResp
use computer_network_final_p.Protocol.FileAcceptResp.{FileAcceptResp}
use computer_network_final_p.Protocol.FileChunk
use computer_network_final_p.Protocol.FileChunk.{FileChunk}
use computer_network_final_p.Protocol.FileDone
use computer_network_final_p.Protocol.FileDone.{FileDone}
use computer_network_final_p.Protocol.FileResult
use computer_network_final_p.Protocol.FileResult.{FileResult}
use computer_network_final_p.Protocol.RoundTrip.Offer.{
  IsFileOfferReq, deserialize-serialize_offer_req,
}
use computer_network_final_p.Protocol.RoundTrip.Reply.{deserialize-serialize_reply}
use computer_network_final_p.Protocol.RoundTrip.Transfer.{deserialize-serialize_transfer}

-- On a little-endian host, the messages of `file_messages.h` whose numbers fit their fields and whose
-- texts are shorter than 65536 bytes are read back as they were written, but for the reason of a
-- FILE_OFFER_RESP and a FILE_ACCEPT_RESP, which is empty where the status is a success. The data of a
-- FILE_CHUNK is any.
pub deserialize-serialize_files :
    (offer : FileOfferReq) (offered : FileOfferResp) (accept : FileAcceptReq)
    (accepted : FileAcceptResp) (chunk : FileChunk) (done : FileDone) (result : FileResult)
    → IsFileOfferReq offer
    → offered.transfer_id < 2 ^ 64
    → FitsU16 offered.reason
    → accept.transfer_id < 2 ^ 64
    → FitsU16 accepted.reason
    → chunk.transfer_id < 2 ^ 64
    → chunk.chunk_index < 2 ^ 32
    → done.transfer_id < 2 ^ 64
    → done.total_chunks < 2 ^ 32
    → done.file_size < 2 ^ 64
    → result.transfer_id < 2 ^ 64
    → FitsU16 result.path_or_reason
    → (FileOfferReq.deserialize little (FileOfferReq.serialize little offer) ≡ ok offer)
      × ((FileOfferResp.deserialize little (FileOfferResp.serialize little offered)
            ≡ ok (record offered { reason = if offered.is_ok then [] else offered.reason }))
          × (FileAcceptResp.deserialize little (FileAcceptResp.serialize little accepted)
              ≡ ok (record accepted { reason = if accepted.is_ok then [] else accepted.reason }))
          × (FileResult.deserialize little (FileResult.serialize little result) ≡ ok result))
      × ((FileAcceptReq.deserialize little (FileAcceptReq.serialize little accept) ≡ ok accept)
          × (FileChunk.deserialize little (FileChunk.serialize little chunk) ≡ ok chunk)
          × (FileDone.deserialize little (FileDone.serialize little done) ≡ ok done))
deserialize-serialize_files offer offered accept accepted chunk done result h0 h1 h2 h3 h4 h5 h6 h7
      h8 h9 h10 h11 =
    (
      deserialize-serialize_offer_req offer h0,
      deserialize-serialize_reply offered accepted result h1 h2 h4 h10 h11,
      deserialize-serialize_transfer accept chunk done h3 h5 h6 h7 h8 h9,
    )
