-- ===== src/Server/Offers.antt =====
-- The handler of FILE_OFFER_REQ of `core/src/net/tcp_session.cpp`.
use computer_network_final_p.Base.{
  ℕ, ◌*◌, Bool, true, false, Option, none, some, List, [], ◌++◌, ltb, ◌==◌, if◌then◌else◌, Result,
  ok, err, fault, text,
}
use computer_network_final_p.Base.Dict.{nat_eq}
use computer_network_final_p.Wire.{little}
use computer_network_final_p.Protocol.Message.{file_offer_resp}
use computer_network_final_p.Protocol.FileOfferReq
use computer_network_final_p.Protocol.FileOfferReq.{FileOfferReq}
use computer_network_final_p.Protocol.FileOfferResp
use computer_network_final_p.Transfer.{Offer, create_transfer, adjust_session}
use computer_network_final_p.FileStore.{get_temp_path, get_file_path}
use computer_network_final_p.Db.{Services}
use computer_network_final_p.Db.Users.{UserRow, get_user_by_username}
use computer_network_final_p.Server.Sessions.{TcpSession, is_authenticated}
use computer_network_final_p.Server.{World, self_of, send}

-- `if (chunk_size < 1024) …; if (chunk_size > 1024 * 1024) …;`
unfoldable pub effective_chunk_size : ℕ → ℕ
effective_chunk_size requested =
    let raised = if ltb requested 1024 then 64 * 1024 else requested in
    if ltb (1024 * 1024) raised then 256 * 1024 else raised

unfoldable pub offer_of : TcpSession → FileOfferReq → UserRow → Offer
unfolding effective_chunk_size
offer_of s req receiver = record {
  sender_user_id = s.user_id;
  sender_username = s.username;
  sender_token = s.token;
  receiver_user_id = receiver.id;
  receiver_username = receiver.username;
  filename = req.filename;
  file_size = req.file_size;
  chunk_size = effective_chunk_size req.chunk_size;
}

module _ {S : Services} where
  unfoldable pub answer_offer : World S → ℕ → Bool → ℕ → List ℕ → World S
  answer_offer w self is_ok id reason =
      send w self file_offer_resp (
        FileOfferResp.serialize little
          (record { is_ok = is_ok; transfer_id = id; reason = reason }))

  -- From the creation of the transfer on.
  unfoldable pub offer_to : World S → ℕ → FileOfferReq → UserRow → World S
  unfolding answer_offer offer_of
  offer_to w self req receiver =
      let (manager, id) = create_transfer w.transfers (offer_of (self_of w self) req receiver) in
      let created = record w { transfers = manager } in
      let base = w.store.base_path in
      let with_paths = adjust_session manager id λ t. record t {
        temp_file_path = get_temp_path base id req.filename;
        final_file_path = get_file_path base id req.filename;
      } in
      if id == 0
      then answer_offer created self false 0 (text "Failed to create transfer")
      else answer_offer (record w { transfers = with_paths }) self true id []

  unfoldable pub offer_found :
      World S → ℕ → FileOfferReq → Result (Option UserRow) → Result (World S)
  unfolding offer_to answer_offer
  offer_found w self req fault = fault
  offer_found w self req (err what) = ok (answer_offer w self false 0 (text "error: " ++ what))
  offer_found w self req (ok none) = ok (answer_offer w self false 0 (text "Receiver not found"))
  offer_found w self req (ok (some receiver)) = ok (offer_to w self req receiver)

  unfoldable pub offer_parsed : World S → ℕ → Result FileOfferReq → Result (World S)
  unfolding offer_found answer_offer
  offer_parsed w self fault = fault
  offer_parsed w self (err what) = ok (answer_offer w self false 0 (text "error: " ++ what))
  offer_parsed w self (ok req) =
      let (services, found) = get_user_by_username S req.receiver_username w.services in
      offer_found (record w { services = services }) self req found

  unfoldable pub handle_file_offer_req : World S → ℕ → List ℕ → Result (World S)
  unfolding offer_parsed answer_offer
  handle_file_offer_req w self payload =
      if is_authenticated (self_of w self)
      then offer_parsed w self (FileOfferReq.deserialize little payload)
      else ok (answer_offer w self false 0 (text "Not authenticated"))
