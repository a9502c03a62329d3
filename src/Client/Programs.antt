-- ===== src/Client/Programs.antt =====
-- `main` of `client/src/test_auth.cpp`, `client/src/test_persistent.cpp` and `client/src/main.cpp` once they
-- are connected, and of `client/src/test_file_transfer.cpp`.
use computer_network_final_p.Base.{
  ℕ, zero, suc, Bool, false, none, some, List, if◌then◌else◌, ok, err, fault, text,
}
use computer_network_final_p.Base.Action.{Action, pure, lift, catch, ◌>>=◌, ◌>>◌}
use computer_network_final_p.Wire.{Endian, hton}
use computer_network_final_p.Protocol.Message.{header_of}
use computer_network_final_p.Client.{Socket, make_frame, read_payload}
use computer_network_final_p.Client.Requests.{make_login_req, make_register_req}
use computer_network_final_p.Client.Sending.{SourceFile, do_login, do_send, do_recv}
use computer_network_final_p.Client.Answers.{
  Shown, complaint, header_complaint, show_payload, login_succeeds,
}

unfoldable pub read_response : Endian → (S : Socket) → ℕ → Action S.State Shown
unfolding header_complaint read_payload show_payload
read_response h S expected = do
  bytes ← S.read 12
  let header = header_of h bytes
  elim (header_complaint h expected header) [
    | some what ↦ pure (complaint what)
    | none ↦ (do
      payload ← read_payload S (hton h 4 header.len_be)
      lift (show_payload h expected payload))
  ]

unfoldable pub register_or_login :
    Endian → (S : Socket) → Bool → List ℕ → List ℕ → List ℕ → Action S.State Shown
unfolding read_response
register_or_login h S registers username email password =
    if registers
    then (do S.write (make_register_req h username email password); read_response h S 11)
    else (do S.write (make_login_req h username password); read_response h S 13)

unfoldable pub read_login_response : Endian → (S : Socket) → Action S.State Bool
unfolding header_complaint read_payload login_succeeds
read_login_response h S = do
  bytes ← S.read 12
  let header = header_of h bytes
  elim (header_complaint h 13 header) [
    | some what ↦ pure false
    | none ↦ (do payload ← read_payload S (hton h 4 header.len_be); lift (login_succeeds h payload))
  ]

unfoldable pub ping_frame : Endian → List ℕ
ping_frame h = make_frame h 2 (text "ping")

-- `n` rounds of the loop that pings every five seconds; it ends where a write throws.
unfoldable pub keep_alive : ℕ → Endian → (S : Socket) → Action S.State (Unit {0})
unfolding ping_frame
keep_alive zero h S s = (s, ok tt)
keep_alive (suc n) h S s =
    let (s', sent) = S.write (ping_frame h) s in
    let more = keep_alive n h S s' in
    elim sent [ ok _ ↦ more | err what ↦ (s', ok tt) | fault ↦ (s', fault) ]

-- The exit code of `test_persistent` where it pings `n` times.
unfoldable pub stay_connected : ℕ → Endian → (S : Socket) → List ℕ → List ℕ → Action S.State ℕ
unfolding read_login_response keep_alive
stay_connected n h S username password =
    catch
      (do
        S.write (make_login_req h username password)
        is_ok ← read_login_response h S
        if is_ok then (do keep_alive n h S; pure 0) else pure 1)
      (λ what. 1)

-- `main.cpp`: HELLO with the client's name, then PING.
unfoldable pub greet : Endian → (S : Socket) → List ℕ → Action S.State (Unit {0})
unfolding ping_frame
greet h S name = do S.write (make_frame h 1 name); S.write (ping_frame h)

-- `test_file_transfer`: to send a file, or to accept a transfer.
pub data Command : Type 0 where
  send_file : List ℕ → List ℕ → SourceFile → Command
  receive : ℕ → Command

unfoldable pub run_command : Endian → (S : Socket) → Command → Action S.State ℕ
run_command h S (send_file receiver filepath file) = do
  path ← do_send h S receiver filepath file
  pure 0
run_command h S (receive transfer_id) = do do_recv h S transfer_id; pure 0

-- The exit code, 1 where anything throws.
unfoldable pub transfer : Endian → (S : Socket) → List ℕ → List ℕ → Command → Action S.State ℕ
unfolding run_command
transfer h S username password command =
    catch
      (do is_ok ← do_login h S username password; if is_ok then run_command h S command else pure 1)
      (λ what. 1)
