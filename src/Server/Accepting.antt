-- ===== src/Server/Accepting.antt =====
-- What an accepted FILE_ACCEPT_REQ sets up for the chunks that follow.
use computer_network_final_p.Base.{
  ℕ, ◌≡◌, refl, sym, ◌∙◌, Bool, true, Bool-cases, inl, inr, some, Option-cases, List, [], length,
  IsPlain, c_str, c_str-IsPlain, ◌==◌,
}
use computer_network_final_p.Base.Dict.{nat_eq, bytes_eq, find-adjust_self}
use computer_network_final_p.Protocol.Message.{MsgType}
use computer_network_final_p.Transfer.{accepted, TransferSession, get_transfer, adjust_session}
use computer_network_final_p.FileStore.{ensure_directory, get_temp_path, open_for_write}
use computer_network_final_p.FileStore.Files.{fopen_wb}
use computer_network_final_p.FileStore.Paths.{get_temp_path-IsPlain}
use computer_network_final_p.FileStore.Writing.{fopen-Writing}
use computer_network_final_p.Db.{Services}
use computer_network_final_p.Server.Sessions.{is_authenticated, get_session}
use computer_network_final_p.Server.{World, FileAnswers, self_of, send}
use computer_network_final_p.Server.Login.{self_of-send, is_authenticated-send}
use computer_network_final_p.Server.Files.{
  answer_accept, is_accepted_or_receiving, notify_sender, mark_state, accept_opened, accept_offer,
}
use computer_network_final_p.Server.Finishing.{mark_state-get_transfer}
use computer_network_final_p.Server.Upload.{Uploading}

module _ {S : Services} (self id : ℕ) (base filename : List ℕ) (first : ℕ) (bytes : List ℕ) where
  send-Uploading :
      (w : World S) (to : ℕ) (type : MsgType) (payload : List ℕ)
      → Uploading w self id base filename first bytes
      → Uploading (send w to type payload) self id base filename first bytes
  unfolding send
  send-Uploading w to type payload u = record {
    transfer = u.transfer;
    handle = u.handle;
    logged_in = is_authenticated-send w to type payload self ∙ u.logged_in;
    found = u.found;
    sender = u.sender ∙ sym (self_of-send (λ s. s.user_id) w to type payload self (λ s q. refl));
    live = u.live;
    held = u.held;
    named = u.named;
    based = u.based;
    next = u.next;
    received = u.received;
    writing = u.writing;
  }

  answer_accept-Uploading :
      (w : World S) (to : ℕ) (is_ok : Bool) (reason : List ℕ)
      → Uploading w self id base filename first bytes
      → Uploading (answer_accept w to is_ok reason) self id base filename first bytes
  unfolding answer_accept
  answer_accept-Uploading w to is_ok reason u = send-Uploading w to _ _ u

  notify_sender-Uploading :
      (w : World S) (t : TransferSession) (is_ok : Bool) (reason : List ℕ)
      → Uploading w self id base filename first bytes
      → Uploading (notify_sender w t is_ok reason) self id base filename first bytes
  unfolding notify_sender
  notify_sender-Uploading w t is_ok reason u = elim (Bool-cases (length t.sender_token == 0)) [
    | inl unnamed ↦ rw unnamed u
    | inr named ↦ elim (Option-cases (get_session w.sessions w.objects t.sender_token)) [
      | inl gone ↦ rw (named, gone) u
      | inr (sender, there) ↦ rw (named, there) (answer_accept-Uploading w sender is_ok reason u)
    ]
  ]

module _ {S : Services} (a : FileAnswers) (w : World S) (receiver self id : ℕ) (t : TransferSession)
    (found : get_transfer w.transfers id ≡ some t)
    (logged : is_authenticated (self_of w self) ≡ true)
    (sender : t.sender_user_id ≡ (self_of w self).user_id) (next : t.expected_chunk_index ≡ 0)
    (received : t.bytes_received ≡ 0) (hb : IsPlain w.store.base_path) (hf : IsPlain t.filename)
    (there : ensure_directory a.directory ≡ true) (opens : a.opens ≡ true) where
  -- The stream that `fopen` opened, kept with the transfer.
  opened-Uploading :
      let (disk, handle) = fopen_wb w.store.disk (get_temp_path w.store.base_path id t.filename) in
      Uploading
        (mark_state
          (record w {
            store = record w.store { disk = disk };
            transfers = adjust_session w.transfers id (λ t. record t { file_handle = some handle });
          })
          id
          accepted)
        self
        id
        w.store.base_path
        t.filename
        0
        []
  unfolding self_of mark_state adjust_session get_transfer is_accepted_or_receiving
  opened-Uploading =
      let path = get_temp_path w.store.base_path id t.filename in
      let (disk, handle) = fopen_wb w.store.disk path in
      let held : TransferSession = record t { file_handle = some handle } in
      record {
        transfer = record held { state = accepted };
        handle = handle;
        logged_in = logged;
        found =
            mark_state-get_transfer
              (record w {
                transfers =
                    adjust_session w.transfers id (λ t. record t { file_handle = some handle });
              })
              id accepted held (find-adjust_self id _ w.transfers.transfers t found);
        sender = sender;
        live = refl;
        held = refl;
        named = refl;
        based = refl;
        next = next;
        received = received;
        writing = fopen-Writing w.store.disk path;
      }

  file_opened :
      let (disk, handle) = fopen_wb w.store.disk (get_temp_path w.store.base_path id t.filename) in
      open_for_write a.directory a.opens w.store id t.filename
      ≡ (record w.store { disk = disk }, some handle)
  unfolding open_for_write
  file_opened =
      let path = get_temp_path w.store.base_path id t.filename in
      let plain : c_str path ≡ path =
        c_str-IsPlain path (get_temp_path-IsPlain w.store.base_path id t.filename hb hf) in
      rw (there, opens, plain)

  pub accept_offer-Uploading :
      Uploading (accept_offer a w receiver id t) self id w.store.base_path t.filename 0 []
  unfolding accept_offer accept_opened
  accept_offer-Uploading =
      let base = w.store.base_path in
      rw file_opened (
        answer_accept-Uploading self id base t.filename 0 [] _ receiver true []
          (notify_sender-Uploading self id base t.filename 0 [] _ t true [] opened-Uploading))
