-- ===== src/Server/Senders.antt =====
-- What the messages keep of who sends the transfers: only an offer adds a transfer, and nothing changes the
-- sender of one.
pub mod Messages
use computer_network_final_p.Base.{
  ℕ, ◌≡◌, refl, sym, ap, ◌∙◌, subst, Bool, true, false, Bool-cases, inl, inr, Option, none, some,
  Option-cases, List, [], length, ◌==◌, Result, Result-cases, ok, err, fault, ok-injective,
}
use computer_network_final_p.Base.Dict.{find, adjust, nat_eq, find-insert, find-adjust_cases}
use computer_network_final_p.Wire.{little}
use computer_network_final_p.Protocol.FileOfferReq.{FileOfferReq}
use computer_network_final_p.Protocol.FileAcceptReq.{FileAcceptReq}
use computer_network_final_p.Protocol.FileChunk.{FileChunk}
use computer_network_final_p.Protocol.FileDone.{FileDone}
use computer_network_final_p.Protocol.Message.{
  MsgType, ping, register_req, login_req, online_list_req, file_offer_req, file_accept_req,
  file_chunk, file_done,
}
use computer_network_final_p.Transfer.{
  TransferState, TransferSession, TransferManager, Offer, new_session, generate_transfer_id,
  create_transfer, get_transfer, adjust_session, update_state, mark_session, mark_chunk_received,
}
use computer_network_final_p.FileStore.{FileStore, write_chunk, finalize_file}
use computer_network_final_p.Auth.PasswordHash.{HexReader}
use computer_network_final_p.Db.{Services}
use computer_network_final_p.Db.Users.{UserRow}
use computer_network_final_p.Server.Sessions.{TcpSession, is_authenticated, get_session}
use computer_network_final_p.Server.{World, FileAnswers, self_of, send}
use computer_network_final_p.Server.Access.{register_parsed-Keeps, login_parsed-Keeps}
use computer_network_final_p.Server.Offers.{
  offer_of, answer_offer, offer_to, offer_found, offer_parsed, handle_file_offer_req,
}
use computer_network_final_p.Server.Files.{
  is_accepted_or_receiving, answer_accept, answer_done, notify_sender, mark_state, accept_opened,
  accept_offer, reject_offer, accept_found, accept_parsed, handle_file_accept_req, store_chunk,
  chunk_found, chunk_parsed, handle_file_chunk, finish_transfer, done_found, done_parsed,
  handle_file_done,
}
use computer_network_final_p.Server.Dispatch.{handle_message, handle_online_list}

-- What holds of the senders of all transfers.
module _ (Q : ℕ → List ℕ → List ℕ → Type 0) where
  abbrev pub OfSender : TransferSession → Type 0
  OfSender t = Q t.sender_user_id t.sender_username t.sender_token

  abbrev pub OfSenders : TransferManager → Type 0
  OfSenders m = (id : ℕ) (t : TransferSession) → get_transfer m id ≡ some t → OfSender t

  pub adjust_session-OfSenders :
      (m : TransferManager) (id : ℕ) (f : TransferSession → TransferSession)
      → ((t : TransferSession) → OfSender t → OfSender (f t))
      → OfSenders m
      → OfSenders (adjust_session m id f)
  unfolding get_transfer adjust_session
  adjust_session-OfSenders m id f keeps v j t found =
      elim (find-adjust_cases id j f m.transfers t found) [
        | inl old ↦ v j t old
        | inr (u, old, changed) ↦ subst OfSender (sym changed) (keeps u (v j u old))
      ]

  pub update_state-OfSenders :
      (m : TransferManager) (id : ℕ) (state : TransferState)
      → OfSenders m
      → OfSenders ((update_state m id state).0)
  unfolding update_state
  update_state-OfSenders m id state v = elim (Option-cases (find id m.transfers)) [
    | inl missing ↦ rw (missing, update_state) v
    | inr (t, there) ↦ rw (there, update_state) (adjust_session-OfSenders m id _ (λ t q. q) v)
  ]

  mark_session-OfSender :
      (chunk_index chunk_bytes : ℕ) (t : TransferSession)
      → OfSender t
      → OfSender ((mark_session chunk_index chunk_bytes t).0)
  unfolding mark_session
  mark_session-OfSender chunk_index chunk_bytes t q =
      elim (Bool-cases (chunk_index == t.expected_chunk_index)) [
        | inl turn ↦ simp turn q
        | inr other ↦ simp other q
      ]

  pub mark_chunk_received-OfSenders :
      (m : TransferManager) (id chunk_index chunk_bytes : ℕ)
      → OfSenders m
      → OfSenders ((mark_chunk_received m id chunk_index chunk_bytes).0)
  unfolding mark_chunk_received
  mark_chunk_received-OfSenders m id chunk_index chunk_bytes v =
      elim (Option-cases (find id m.transfers)) [
        | inl missing ↦ rw (missing, mark_chunk_received) v
        | inr (t, there) ↦
            rw (there, mark_chunk_received)
              (adjust_session-OfSenders m id _ (mark_session-OfSender chunk_index chunk_bytes) v)
      ]

  pub create_transfer-OfSenders :
      (m : TransferManager) (o : Offer)
      → Q o.sender_user_id o.sender_username o.sender_token
      → OfSenders m
      → OfSenders ((create_transfer m o).0)
  unfolding create_transfer get_transfer generate_transfer_id new_session
  create_transfer-OfSenders m o q v j t found =
      let e =
        sym (find-insert m.next_transfer_id j (new_session m.next_transfer_id o) m.transfers)
        ∙ found in
      elim (Bool-cases (m.next_transfer_id == j)) [
        | inr other ↦ v j t (rw other at e)
        | inl same ↦
            let e1 : some (new_session m.next_transfer_id o) ≡ some t = rw same at e in
            let e2 : new_session m.next_transfer_id o ≡ t = cc in
            subst OfSender e2 (unfold new_session in q)
      ]
