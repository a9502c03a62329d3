-- ===== src/Tests/Server.antt =====
-- The server over concrete services.
use computer_network_final_p.Base.{
  ◌>>=◌, ltb, ◌==◌, if◌then◌else◌, ◌*◌, ℕ, ◌≡◌, refl, true, false, some, List, [], ◌∷◌, ok, text,
  err, fault, Result, arith, eq_bytes,
}
use computer_network_final_p.Base.Dict.{find, adjust, nat_eq, bytes_eq}
use computer_network_final_p.Wire.{little, le_bytes, get, hton, bswap, of_le, load, get_bytes}
use computer_network_final_p.Protocol.LoginReq
use computer_network_final_p.Protocol.LoginReq.{LoginReq}
use computer_network_final_p.Protocol.LoginResp.{LoginResp}
use computer_network_final_p.Protocol.Message.{ping, pong, login_req, login_resp}
use computer_network_final_p.Transfer.{TransferSession, accepted}
use computer_network_final_p.FileStore.Files.{Disk}
use computer_network_final_p.Server.{World, FileAnswers, self_of, send}
use computer_network_final_p.Server.Sessions.{TcpSession, is_authenticated, get_session, set_auth}
use computer_network_final_p.Server.Dispatch.{
  handle_message, enter, answer_login, login_parsed, logged_in,
}
use computer_network_final_p.Server.Access.{handle_message_unauthenticated}
use computer_network_final_p.Server.Answered.{Answered, answer_type, handle_message-Answered}
use computer_network_final_p.Server.Directory.{IsMap}
use computer_network_final_p.Server.Directory.Entering.{get_session-enter}
use computer_network_final_p.Protocol.{get_text}
use computer_network_final_p.Auth.{handle_login}
use computer_network_final_p.Auth.Laws.{LoggedInAs}
use computer_network_final_p.Server.Reading.{header_read-header_bytes}
use computer_network_final_p.Protocol.Message.{file_chunk, make_header, header_bytes}
use computer_network_final_p.Server.Dispatch.{header_read, body, stopped, header}
use computer_network_final_p.Server.Login.{authenticated_by_login}
use computer_network_final_p.Tests.Auth.{services, reader, answered_bob, login_of_bob, login_runs}

abbrev pub ann : TcpSession
ann = record { token = b't' ∷ []; user_id = 1; username = b'a' ∷ []; outq = [] }

abbrev pub guest : TcpSession
guest = record { token = []; user_id = 0; username = []; outq = [] }

abbrev pub bob_in : TcpSession
bob_in = record { token = b'u' ∷ []; user_id = 2; username = b'b' ∷ []; outq = [] }

abbrev pub from_ann : TransferSession
from_ann = record {
  transfer_id = 1;
  sender_user_id = 1;
  sender_username = b'a' ∷ [];
  sender_token = b't' ∷ [];
  receiver_user_id = 2;
  receiver_username = b'b' ∷ [];
  filename = b'f' ∷ [];
  file_size = 3;
  chunk_size = 1024;
  expected_chunk_index = 0;
  bytes_received = 0;
  state = accepted;
  temp_file_path = [];
  final_file_path = b'f' ∷ [];
  file_handle = some 0;
}

abbrev pub disk : Disk
disk = record {
  names = (b'p' ∷ [], 0) ∷ [];
  contents = (0, []) ∷ [];
  streams = (0, record { file = 0; position = 0; is_open = true }) ∷ [];
  next_file = 1;
  next_stream = 1;
}

-- Connection 0 is ann's, connection 1 has not logged in, connection 2 is bob's, and ann's transfer 1 has been accepted.
abbrev pub start : World services
start = record {
  objects = (0, ann) ∷ (1, guest) ∷ (2, bob_in) ∷ [];
  sessions = (b't' ∷ [], 0) ∷ (b'u' ∷ [], 2) ∷ [];
  transfers = record { next_transfer_id = 2; transfers = (1, from_ann) ∷ [] };
  store = record { base_path = b's' ∷ []; disk = disk };
  services = tt;
}

abbrev pub answers : FileAnswers
answers = record {
  directory = record {
    creates = true;
    stat_finds = true;
    is_directory = true;
    mkdir_succeeds = true;
  };
  opens = true;
  write = record { takes = 100; flushes = true };
  renames = true;
}

guest_out : is_authenticated (self_of start 1) ≡ false
unfolding self_of find is_authenticated
guest_out = refl

pub ann_in : is_authenticated (self_of start 0) ≡ true
unfolding self_of find is_authenticated
ann_in = refl

pinged : handle_message reader answers start 1 ping [] ≡ ok (send start 1 pong (text "pong"))
unfolding handle_message
pinged = refl

ann_found : find 0 start.objects ≡ some ann
unfolding find
ann_found = refl

ann_is_in : is_authenticated ann ≡ true
unfolding is_authenticated
ann_is_in = refl

handle_message_unauthenticated_example :
    ((send start 1 pong (text "pong")).transfers ≡ start.transfers)
    × ((send start 1 pong (text "pong")).store ≡ start.store)
handle_message_unauthenticated_example =
    handle_message_unauthenticated reader answers start (send start 1 pong (text "pong")) 1 ping []
      guest_out pinged

-- A first login, where the registry is empty.
abbrev empty_registry : World services
empty_registry = record start { sessions = [] }

nothing_twice : IsMap empty_registry.sessions
unfolding IsMap
nothing_twice = tt

get_session-enter_example :
    let w' = enter empty_registry 0 answered_bob in
    (is_authenticated (self_of w' 0) ≡ true)
    × (get_session w'.sessions w'.objects (b'9' ∷ []) ≡ (
        if eq_bytes (b'9' ∷ []) (b'9' ∷ [])
        then some 0
        else get_session empty_registry.sessions empty_registry.objects (b'9' ∷ [])))
    × IsMap w'.sessions
get_session-enter_example =
    get_session-enter empty_registry 0 ann answered_bob ann_found (λ e. cc) nothing_twice
      (b'9' ∷ [])

-- What a handler gives, where it returns.
abbrev pub world_of : Result (World services) → World services
world_of r = elim r [ ok w ↦ w | err what ↦ start | fault ↦ start ]

-- The payload of a LOGIN_REQ for `b` with the password `x`.
abbrev pub login_bytes : List ℕ
login_bytes = 0 ∷ 1 ∷ b'b' ∷ 0 ∷ 1 ∷ b'x' ∷ []

abbrev after_login : World services
after_login = world_of (handle_message reader answers start 1 login_req login_bytes)

pub login_parsed_bob : LoginReq.deserialize little login_bytes ≡ ok login_of_bob
unfolding LoginReq.deserialize get_text get hton bswap of_le load le_bytes get_bytes
login_parsed_bob = refl

after_login_is :
    handle_message reader answers start 1 login_req login_bytes
    ≡ ok (enter (answer_login start 1 answered_bob) 1 answered_bob)
unfolding handle_message login_parsed logged_in
after_login_is = rw (login_parsed_bob, login_parsed, login_runs, logged_in)

entered_in :
    is_authenticated (self_of (enter (answer_login start 1 answered_bob) 1 answered_bob) 1) ≡ true
unfolding is_authenticated self_of enter answer_login send adjust find set_auth
entered_in = refl

authenticated_by_login_example :
    (login_req ≡ login_req)
    × (req : LoginReq) × (s' : Unit {0}) × (resp : LoginResp) × (LoginReq.deserialize little
          login_bytes
        ≡ ok req)
    × (handle_login reader services req tt ≡ (s', ok resp))
    × LoggedInAs reader services req tt s' resp
authenticated_by_login_example =
    authenticated_by_login reader answers start
      (enter (answer_login start 1 answered_bob) 1 answered_bob) 1 login_req login_bytes guest_out
      after_login_is entered_in

header_read-header_bytes_example :
    header_read reader answers start 0 false 12
      (header_bytes little (make_header little file_chunk 14))
    ≡ (if ltb (16 * 1024 * 1024) 14
        then ok (start, stopped)
        else if 14 == 0
        then (do w' ← handle_message reader answers start 0 file_chunk []; ok (w', header))
        else ok (start, body file_chunk 14))
header_read-header_bytes_example =
    header_read-header_bytes reader answers start 0 little file_chunk (λ c e. cc) 14 (omega arith)

guest_found : find 1 start.objects ≡ some guest
unfolding find
guest_found = refl

login_is_answered : answer_type login_req ≡ some login_resp
unfolding answer_type
login_is_answered = refl

handle_message-Answered_example :
    Answered start.objects
      (enter (answer_login start 1 answered_bob) 1 answered_bob).objects
      1
      0
      guest
      login_resp
handle_message-Answered_example =
    handle_message-Answered reader answers start
      (enter (answer_login start 1 answered_bob) 1 answered_bob) 1 0 login_req login_resp
      login_bytes guest guest_found refl login_is_answered after_login_is
