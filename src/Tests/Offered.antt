-- ===== src/Tests/Offered.antt =====
-- A connection that logs in and offers a file, from the start of a server on.
use computer_network_final_p.Base.{false, Option, none, some, Result, ok, err, fault}
use computer_network_final_p.Base.Dict.{nat_eq}
use computer_network_final_p.Protocol.FileOfferReq
use computer_network_final_p.Protocol.Message.{file_offer_req}
use computer_network_final_p.Transfer.{TransferSession, get_transfer}
use computer_network_final_p.Server.{World}
use computer_network_final_p.Server.Dispatch.{Phase, body_read}
use computer_network_final_p.Server.Steps.{Reach}
use computer_network_final_p.Tests.Auth.{services, reader}
use computer_network_final_p.Tests.Server.{answers, from_ann}
use computer_network_final_p.Tests.Reach.{offer_bytes}
use computer_network_final_p.Tests.Granted.{nobody, entered}

abbrev world_in : Result (World services × Phase) → World services
world_in r = elim r [ ok p ↦ p.0 | err what ↦ nobody | fault ↦ nobody ]

abbrev w_offered : World services
w_offered = world_in (body_read reader answers entered 1 file_offer_req 26 false offer_bytes)

abbrev transfer_in : Option TransferSession → TransferSession
transfer_in none = from_ann
transfer_in (some t) = t

abbrev from_bob : TransferSession
from_bob = transfer_in (get_transfer w_offered.transfers 1)
