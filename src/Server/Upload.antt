-- ===== src/Server/Upload.antt =====
-- A transfer that has been accepted, from its first chunk to its file.
use computer_network_final_p.Base.{
  ℕ, suc, ◌+◌, ◌%◌, ◌^◌, ◌<◌, ◌≡◌, refl, sym, ap, ◌∙◌, true, some, List, [], ◌∷◌, ◌++◌,
  append_assoc, append-nil, length, length-append, map, All, ◌==◌, ==_iff, Result, ok, ◌>>=◌, arith,
}
use computer_network_final_p.Base.Dict.{nat_eq}
use computer_network_final_p.Wire.{little}
use computer_network_final_p.Protocol.Message.{file_chunk}
use computer_network_final_p.Protocol.FileChunk
use computer_network_final_p.Protocol.FileChunk.{FileChunk}
use computer_network_final_p.Protocol.RoundTrip.Transfer.{deserialize-serialize_chunk}
use computer_network_final_p.Transfer.{
  TransferState, offered, accepted, receiving, completed, failed, receiving_from, TransferSession,
  get_transfer, mark_session, mark_chunk_received,
}
use computer_network_final_p.Transfer.Chunks.{mark-get_transfer}
use computer_network_final_p.FileStore.{get_temp_path}
use computer_network_final_p.FileStore.Writing.{Writing, write_chunk-Writing}
use computer_network_final_p.FileStore.Storing.{IsTaken}
use computer_network_final_p.Client.Chunks.{concat}
use computer_network_final_p.Auth.PasswordHash.{HexReader}
use computer_network_final_p.Db.{Services}
use computer_network_final_p.Server.Sessions.{is_authenticated}
use computer_network_final_p.Server.{World, FileAnswers, self_of}
use computer_network_final_p.Server.Files.{
  is_accepted_or_receiving, store_chunk, chunk_found, chunk_parsed, handle_file_chunk,
}
use computer_network_final_p.Server.Dispatch.{handle_message}

-- A live transfer stays live when a chunk counts.
receiving-live :
    (state : TransferState)
    → is_accepted_or_receiving state ≡ true
    → is_accepted_or_receiving (receiving_from state) ≡ true
unfolding is_accepted_or_receiving receiving_from
receiving-live accepted live = refl
receiving-live receiving live = refl
receiving-live offered live = cc
receiving-live completed live = cc
receiving-live failed live = cc

-- The chunk that is next in turn counts.
mark_session-next :
    (t : TransferSession) (first n received : ℕ)
    → t.expected_chunk_index ≡ first
    → t.bytes_received ≡ received
    → first + 1 < 2 ^ 32
    → received + n < 2 ^ 64
    → (mark_session first n t).0 ≡ record t {
      expected_chunk_index = first + 1;
      bytes_received = received + n;
      state = receiving_from t.state;
    }
unfolding mark_session
mark_session-next t first n received next got more fits =
    let turn : (first == t.expected_chunk_index) ≡ true = (==_iff _ _).1 (sym next) in
    let index : (t.expected_chunk_index + 1) % 2 ^ 32 ≡ first + 1 = omega arith in
    let total : (t.bytes_received + n) % 2 ^ 64 ≡ received + n = omega arith in
    simp (turn, index, total) refl

-- The system takes the chunk.
abbrev pub IsWritten : FileAnswers × List ℕ → Type 0
IsWritten (a, bytes) = IsTaken (a.write, bytes)

module _ {S : Services} where
  -- A session that sends the file of an accepted transfer: `first` chunks came, with `bytes`.
  pub record Uploading (w : World S) (self id : ℕ) (base filename : List ℕ) (first : ℕ)
      (bytes : List ℕ) : Type 0 where
    pub transfer : TransferSession
    pub handle : ℕ
    pub logged_in : is_authenticated (self_of w self) ≡ true
    pub found : get_transfer w.transfers id ≡ some transfer
    pub sender : transfer.sender_user_id ≡ (self_of w self).user_id
    pub live : is_accepted_or_receiving transfer.state ≡ true
    pub held : transfer.file_handle ≡ some handle
    pub named : transfer.filename ≡ filename
    pub based : w.store.base_path ≡ base
    pub next : transfer.expected_chunk_index ≡ first
    pub received : transfer.bytes_received ≡ length bytes
    pub writing : Writing w.store.disk handle (get_temp_path base id filename) bytes

  module _ (a : FileAnswers) (w : World S) (self id : ℕ) (base filename : List ℕ) (first : ℕ)
      (old bytes : List ℕ) (u : Uploading w self id base filename first old) where
    -- The chunk that is next in turn.
    abbrev chunk : FileChunk
    chunk = record { transfer_id = id; chunk_index = first; bytes = bytes }

    handle_file_chunk-store_chunk :
        id < 2 ^ 64
        → first < 2 ^ 32
        → handle_file_chunk a w self (FileChunk.serialize little chunk)
          ≡ store_chunk a w chunk u.transfer
    unfolding handle_file_chunk chunk_parsed chunk_found
    handle_file_chunk-store_chunk id_fits first_fits = rw (
      u.logged_in,
      deserialize-serialize_chunk chunk id_fits first_fits,
      chunk_parsed,
      u.found,
      chunk_found,
      (==_iff _ _).1 u.sender,
      u.live,
    )

    after_chunk :
        IsTaken (a.write, bytes)
        → first + 1 < 2 ^ 32
        → length old + length bytes < 2 ^ 64
        → (w' : World S) × (store_chunk a w chunk u.transfer ≡ ok w')
          × Uploading w' self id base filename (first + 1) (old ++ bytes)
    unfolding store_chunk self_of
    after_chunk good more fits =
        let (disk, wrote, writing) =
          write_chunk-Writing a.write w.store u.handle (get_temp_path base id filename) old bytes
            u.writing good.0 good.1 good.2 in
        let marked : TransferSession = record u.transfer {
          expected_chunk_index = first + 1;
          bytes_received = length old + length bytes;
          state = receiving_from u.transfer.state;
        } in
        let counts =
          mark_session-next u.transfer first (length bytes) (length old) u.next u.received more
            fits in
        (
          record w {
            store = record w.store { disk = disk };
            transfers = (mark_chunk_received w.transfers id first (length bytes)).0;
          },
          rw (u.held, wrote),
          record {
            transfer = marked;
            handle = u.handle;
            logged_in = u.logged_in;
            found =
                mark-get_transfer w.transfers id first (length bytes) u.transfer u.found
                ∙ ap some counts;
            sender = u.sender;
            live = receiving-live u.transfer.state u.live;
            held = u.held;
            named = u.named;
            based = u.based;
            next = refl;
            received = sym (length-append old bytes);
            writing = writing;
          },
        )

  -- The chunks of a transfer, numbered from `first`, handled one after the other, each with what the
  -- system answers.
  unfoldable pub handle_chunks :
      HexReader → World S → ℕ → ℕ → ℕ → List (FileAnswers × List ℕ) → Result (World S)
  handle_chunks read w self id first [] = ok w
  handle_chunks read w self id first ((a, bytes) ∷ rest) = do
    w' ← handle_message read a w self file_chunk (
        FileChunk.serialize little
          (record { transfer_id = id; chunk_index = first; bytes = bytes }))
    handle_chunks read w' self id (first + 1) rest

  module _ (read : HexReader) (self id : ℕ) (base filename : List ℕ) (id_fits : id < 2 ^ 64) where
    pub handle_chunks-Uploading :
        (chunks : List (FileAnswers × List ℕ)) (w : World S) (first : ℕ) (old : List ℕ)
        → Uploading w self id base filename first old
        → All IsWritten chunks
        → first + length chunks < 2 ^ 32
        → length old + length (concat (map (λ c. c.1) chunks)) < 2 ^ 64
        → (w' : World S) × (handle_chunks read w self id first chunks ≡ ok w')
          × Uploading w' self id base filename
              (first + length chunks)
              (old ++ concat (map (λ c. c.1) chunks))
    unfolding handle_chunks handle_message concat
    handle_chunks-Uploading [] w first old u good few fits =
        let same : first + 0 ≡ first = omega arith in (w, refl, rw (append-nil old, same) u)
    handle_chunks-Uploading ((a, bytes) ∷ rest) w first old u good few fits =
        let joined_rest = concat (map (λ c. c.1) rest) in
        let room : length bytes + length joined_rest ≡ length (bytes ++ joined_rest) =
          sym (length-append bytes joined_rest) in
        let (w1, stored, u1) =
          after_chunk a w self id base filename first old bytes u good.0 (omega arith)
            (omega arith) in
        let (w2, handled, u2) =
          handle_chunks-Uploading rest w1 (first + 1) (old ++ bytes) u1 good.1 (omega arith)
            (omega (arith, length-append old bytes)) in
        let index : first + 1 + length rest ≡ first + suc (length rest) = omega arith in
        (
          w2,
          rw
              (
                handle_file_chunk-store_chunk a w self id base filename first old bytes u id_fits
                    (omega arith),
                stored,
              )
              handled,
          rw (← index, ← append_assoc old bytes joined_rest) u2,
        )
