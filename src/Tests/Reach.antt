-- ===== src/Tests/Reach.antt =====
-- An offer and its acceptance over concrete services.
use computer_network_final_p.Base.{
  ℕ, ◌≡◌, ◌≢◌, ◌⊎◌, refl, true, false, Option, some, none, List, [], ◌∷◌, Result, ok, err, fault,
  c_str, eq_bytes,
}
use computer_network_final_p.Base.Dict.{find, insert, adjust, nat_eq, bytes_eq}
use computer_network_final_p.Wire.{
  little, le_bytes, get, hton, bswap, of_le, load, get_bytes, get_byte, get64_portable,
  be64toh_portable,
}
use computer_network_final_p.Protocol.{get_text}
use computer_network_final_p.Protocol.Message.{file_offer_req, file_accept_req}
use computer_network_final_p.Protocol.FileOfferReq
use computer_network_final_p.Protocol.FileAcceptReq
use computer_network_final_p.Protocol.FileDone
use computer_network_final_p.Protocol.FileDone.{FileDone}
use computer_network_final_p.Transfer.{
  TransferSession, init, create_transfer, generate_transfer_id, new_session, adjust_session,
  get_transfer, update_state,
}
use computer_network_final_p.Db.{
  exec_params, must_ok, nth_cell, stoll, parse_signed, skip_spaces, leading_number, signed_pattern,
  is_space, is_digit,
}
use computer_network_final_p.Db.Users.{get_user_by_username, first_user}
use computer_network_final_p.Server.{World, self_of, send}
use computer_network_final_p.Server.Sessions.{TcpSession, is_authenticated, get_session}
use computer_network_final_p.Server.Files.{
  is_accepted_or_receiving, handle_file_chunk, handle_file_done, handle_file_accept_req,
  accept_parsed, accept_found, accept_offer, accept_opened, mark_state, notify_sender,
  answer_accept,
}
use computer_network_final_p.Server.Offers.{
  handle_file_offer_req, offer_parsed, offer_found, offer_to, offer_of, effective_chunk_size,
  answer_offer,
}
use computer_network_final_p.Server.Dispatch.{Phase, header, handle_message, body_read}
use computer_network_final_p.FileStore.{ensure_directory, open_for_write}
use computer_network_final_p.FileStore.Files.{fopen_wb}
use computer_network_final_p.Server.Steps.{Reach, starts, reads_body}
use computer_network_final_p.Server.Reach.{IsMisplaced, Reach-Held, handle_file_messages-Reach}
use computer_network_final_p.FileStore.Streams.{IsOpen}
use computer_network_final_p.Tests.Auth.{services, reader}
use computer_network_final_p.Tests.Server.{start, answers, ann, from_ann}

abbrev bob_7 : TcpSession
bob_7 = record { token = b'u' ∷ []; user_id = 7; username = b'b' ∷ []; outq = [] }

-- ann and bob are logged in, and nothing was offered yet.
abbrev quiet : World services
quiet = record start {
  objects = (0, ann) ∷ (2, bob_7) ∷ [];
  transfers = record { next_transfer_id = 1; transfers = [] };
}

abbrev world_in : Result (World services × Phase) → World services
world_in r = elim r [ ok p ↦ p.0 | err what ↦ start | fault ↦ start ]

-- ann offers the file `f` of three bytes to `b`.
abbrev pub offer_bytes : List ℕ
offer_bytes =
    0 ∷ 0 ∷ 0 ∷ 0 ∷ 0 ∷ 0 ∷ 0 ∷ 0 ∷ 0 ∷ 1 ∷ b'b' ∷ 0 ∷ 1 ∷ b'f' ∷ 0 ∷ 0 ∷ 0 ∷ 0 ∷ 0 ∷ 0 ∷ 0 ∷ 3 ∷ 0
    ∷ 0 ∷ 16 ∷ 0 ∷ []

abbrev accept_bytes : List ℕ
accept_bytes = 0 ∷ 0 ∷ 0 ∷ 0 ∷ 0 ∷ 0 ∷ 0 ∷ 1 ∷ 1 ∷ []

abbrev w_offered : World services
w_offered = world_in (body_read reader answers quiet 0 file_offer_req 26 false offer_bytes)

abbrev w_accepted : World services
w_accepted = world_in (body_read reader answers w_offered 2 file_accept_req 9 false accept_bytes)

offer_handled :
    body_read reader answers quiet 0 file_offer_req 26 false offer_bytes ≡ ok (w_offered, header)
unfolding body_read handle_message handle_file_offer_req offer_parsed offer_found offer_to offer_of
    get_user_by_username first_user exec_params must_ok nth_cell stoll parse_signed skip_spaces
    leading_number signed_pattern is_space is_digit FileOfferReq.deserialize get_text get hton bswap
    of_le load le_bytes get_bytes get64_portable be64toh_portable self_of find is_authenticated
    c_str create_transfer generate_transfer_id
offer_handled = refl

accept_handled :
    body_read reader answers w_offered 2 file_accept_req 9 false accept_bytes
    ≡ ok (w_accepted, header)
unfolding body_read handle_message handle_file_offer_req offer_parsed offer_found offer_to offer_of
    get_user_by_username first_user exec_params must_ok nth_cell stoll parse_signed skip_spaces
    leading_number signed_pattern is_space is_digit FileOfferReq.deserialize get_text get hton bswap
    of_le load le_bytes get_bytes get_byte get64_portable be64toh_portable self_of find
    is_authenticated c_str create_transfer generate_transfer_id handle_file_accept_req accept_parsed
    FileAcceptReq.deserialize send adjust
accept_handled = refl

empty_at_first : quiet.transfers ≡ init
unfolding init
empty_at_first = refl

accepted_is_reached : Reach quiet w_accepted
accepted_is_reached =
    reads_body reader answers w_offered w_accepted 2 file_accept_req 9 false accept_bytes header
      (reads_body reader answers quiet w_offered 0 file_offer_req 26 false offer_bytes header
        (starts empty_at_first) offer_handled)
      accept_handled

abbrev transfer_in : Option TransferSession → TransferSession
transfer_in none = from_ann
transfer_in (some t) = t

abbrev ann_to_bob : TransferSession
ann_to_bob = transfer_in (get_transfer w_accepted.transfers 1)

ann_to_bob_facts :
    (get_transfer w_accepted.transfers 1 ≡ some ann_to_bob)
    × (is_accepted_or_receiving ann_to_bob.state ≡ true)
    × (is_authenticated (self_of w_accepted 0) ≡ true)
    × (ann_to_bob.sender_user_id ≡ (self_of w_accepted 0).user_id)
unfolding body_read handle_message handle_file_offer_req offer_parsed offer_found offer_to offer_of
    get_user_by_username first_user exec_params must_ok nth_cell stoll parse_signed skip_spaces
    leading_number signed_pattern is_space is_digit FileOfferReq.deserialize get_text get hton bswap
    of_le load le_bytes get_bytes get_byte get64_portable be64toh_portable self_of find
    is_authenticated c_str create_transfer generate_transfer_id handle_file_accept_req accept_parsed
    FileAcceptReq.deserialize send adjust is_accepted_or_receiving get_transfer accept_found
    accept_offer accept_opened open_for_write ensure_directory fopen_wb insert adjust_session
    update_state mark_state notify_sender get_session answer_accept answer_offer new_session
    effective_chunk_size eq_bytes
ann_to_bob_facts = (refl, refl, refl, refl)

abbrev done_of_ann : FileDone
done_of_ann = record { transfer_id = 1; total_chunks = 1; file_size = 3 }

abbrev done_bytes : List ℕ
done_bytes = FileDone.serialize little done_of_ann

Reach-Held_example :
    (h : ℕ) × (k : ℕ) × (ann_to_bob.file_handle ≡ some h)
    × IsOpen w_accepted.store.disk.streams h
    × (ann_to_bob.file_handle ≡ some k)
    × IsOpen w_accepted.store.disk.streams k
    × ((◌≡◌ {A = ℕ} 1 1) ⊎ (h ≢ k))
Reach-Held_example =
    Reach-Held accepted_is_reached 1 1 ann_to_bob ann_to_bob ann_to_bob_facts.0 ann_to_bob_facts.0
      ann_to_bob_facts.1 ann_to_bob_facts.1

handle_file_messages-Reach_example :
    ((w' : World services) × (handle_file_chunk answers w_accepted 0 done_bytes ≡ ok w'))
    × (((w' : World services) × (handle_file_done answers w_accepted 0 done_bytes ≡ ok w'))
        ⊎ IsMisplaced w_accepted 0 done_bytes)
handle_file_messages-Reach_example =
    handle_file_messages-Reach accepted_is_reached answers 0 done_bytes
