-- ===== src/Client/Sending.antt =====
-- `do_login`, `do_send` and `do_recv` of `client/src/test_file_transfer.cpp`. The progress messages are
-- left out.
use computer_network_final_p.Base.{
  ℕ, zero, suc, ◌+◌, ◌-◌, ◌*◌, ◌/◌, ◌%◌, ◌^◌, Bool, true, false, not, List, [], ◌∷◌, ◌++◌, length,
  take, drop, ltb, ◌==◌, if◌then◌else◌, err, fault, text,
}
use computer_network_final_p.Base.Action.{Action, pure, lift, ◌>>=◌, ◌>>◌}
use computer_network_final_p.Wire.{Endian, hton, get_byte, get64_portable}
use computer_network_final_p.Protocol.{optional_text}
use computer_network_final_p.FileStore.Decimal.{to_string}
use computer_network_final_p.Client.{Socket, read_header, read_payload, read_answer}
use computer_network_final_p.Client.Requests.{
  make_login_req, make_file_offer_req, make_file_accept_req, make_file_chunk, make_file_done,
}

unfoldable pub default_chunk_size : ℕ
default_chunk_size = 256 * 1024

unfoldable pub do_login : Endian → (S : Socket) → List ℕ → List ℕ → Action S.State Bool
unfolding read_header read_payload
do_login h S username password = do
  S.write (make_login_req h username password)
  header ← read_header h S
  if not (header.type_byte == 13) then pure false else (do
    payload ← read_payload S (hton h 4 header.len_be)
    if ltb (length payload) 1
        then pure false
        else (do flag ← lift (get_byte payload 0); pure (not (flag == 0))))

-- The file at the path that is given: what `exists`, `file_size` and the stream's constructor
-- answer, and the bytes that the stream reads.
pub record SourceFile : Type 0 where
  pub exists : Bool
  pub file_size : ℕ
  pub opens : Bool
  pub contents : List ℕ

-- `std::filesystem::path(filepath).filename()`: what stands behind the last slash.
unfoldable pub filename_from : List ℕ → List ℕ → List ℕ
filename_from so_far [] = so_far
filename_from so_far (c ∷ rest) = filename_from (if c == b'/' then [] else so_far ++ (c ∷ [])) rest

unfoldable pub filename_of : List ℕ → List ℕ
unfolding filename_from
filename_of path = filename_from [] path

-- `to_read`.
unfoldable pub next_size : ℕ → ℕ
next_size remaining = if ltb remaining default_chunk_size then remaining else default_chunk_size

-- The chunk loop: `rest` is what the stream has not read yet. The result is the chunk index and the
-- number of bytes sent. Without rounds left it is a fault.
unfoldable pub send_chunks :
    ℕ → Endian → (S : Socket) → ℕ → ℕ → List ℕ → ℕ → ℕ → Action S.State (ℕ × ℕ)
unfolding next_size
send_chunks zero h S transfer_id file_size rest chunk_index total_sent = lift fault
send_chunks (suc rounds) h S transfer_id file_size rest chunk_index total_sent =
    let to_read = next_size (file_size - total_sent) in
    let bytes = take to_read rest in
    let next_index = (chunk_index + 1) % 2 ^ 32 in
    let next_sent = (total_sent + length bytes) % 2 ^ 64 in
    let more =
      send_chunks rounds h S transfer_id file_size (drop to_read rest) next_index next_sent in
    if not (ltb total_sent file_size)
    then pure (chunk_index, total_sent)
    else if length bytes == 0
    then pure (chunk_index, total_sent)
    else (S.write (make_file_chunk h transfer_id chunk_index bytes)
        >> (if ltb (length bytes) to_read then pure (next_index, next_sent) else more))

-- `total_chunks` of the FILE_DONE.
unfoldable pub announced_chunks : ℕ → ℕ → ℕ
announced_chunks file_size chunk_index =
    let rounded_up = (file_size + default_chunk_size - 1) % 2 ^ 64 / default_chunk_size % 2 ^ 32 in
    if ltb 0 file_size
    then if chunk_index == 0
      then 1
      else if ltb rounded_up chunk_index
      then chunk_index
      else rounded_up
    else 0

-- The text behind a status that is not a success, thrown behind `what`.
unfoldable pub throw_reason : {S : Type 0} {A : Type 0} → Endian → List ℕ → ℕ → List ℕ → Action S A
throw_reason h payload pos what = do
  reason ← lift (optional_text h payload pos)
  lift (err (what ++ reason))

unfoldable pub unexpected : List ℕ → ℕ → List ℕ
unexpected wanted type = text "Expected " ++ (wanted ++ (text ", got type " ++ to_string type))

-- The FILE_ACCEPT_RESP that both sides wait for.
unfoldable pub read_accepted : Endian → (S : Socket) → List ℕ → Action S.State (Unit {0})
unfolding read_answer throw_reason unexpected
read_accepted h S refusal = do
  payload ←
      read_answer h S 33 1 (unexpected (text "FILE_ACCEPT_RESP"))
        (text "FILE_ACCEPT_RESP too short")
  flag ← lift (get_byte payload 0)
  if flag == 0 then pure tt else throw_reason h payload 1 refusal

-- The transfer id of the FILE_OFFER_RESP.
unfoldable pub read_offered : Endian → (S : Socket) → Action S.State ℕ
unfolding read_answer throw_reason unexpected
read_offered h S = do
  payload ←
      read_answer h S 31 9 (unexpected (text "FILE_OFFER_RESP")) (text "FILE_OFFER_RESP too short")
  flag ← lift (get_byte payload 0)
  transfer_id ← lift (get64_portable h payload 1)
  if flag == 0 then pure transfer_id else throw_reason h payload 9 (text "FILE_OFFER failed: ")

-- The path of the FILE_RESULT.
unfoldable pub read_saved : Endian → (S : Socket) → Action S.State (List ℕ)
unfolding read_answer throw_reason unexpected
read_saved h S = do
  payload ← read_answer h S 36 9 (unexpected (text "FILE_RESULT")) (text "FILE_RESULT too short")
  transfer_id ← lift (get64_portable h payload 0)
  flag ← lift (get_byte payload 8)
  if flag == 0
      then lift (optional_text h payload 9)
      else throw_reason h payload 9 (text "FILE_RESULT failed: ")

-- The path that the last message names.
unfoldable pub do_send :
    Endian → (S : Socket) → List ℕ → List ℕ → SourceFile → Action S.State (List ℕ)
unfolding filename_of send_chunks announced_chunks read_accepted read_offered read_saved
do_send h S receiver_username filepath file =
    if not file.exists
    then lift (err (text "File not found: " ++ filepath))
    else if not file.opens
    then lift (err (text "Failed to open file: " ++ filepath))
    else (do
      S.write (
          make_file_offer_req h receiver_username (filename_of filepath) file.file_size
            default_chunk_size)
      transfer_id ← read_offered h S
      read_accepted h S (text "Receiver rejected: ")
      (chunk_index, total_sent) ←
          send_chunks (length file.contents + 1) h S transfer_id file.file_size file.contents 0 0
      S.write (
          make_file_done h transfer_id (announced_chunks file.file_size chunk_index) file.file_size)
      read_saved h S)

unfoldable pub do_recv : Endian → (S : Socket) → ℕ → Action S.State (Unit {0})
unfolding read_accepted
do_recv h S transfer_id = do
  S.write (make_file_accept_req h transfer_id true)
  read_accepted h S (text "Transfer rejected: ")
