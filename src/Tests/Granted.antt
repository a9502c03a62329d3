-- ===== src/Tests/Granted.antt =====
-- A connection that logs in, from the start of a server on.
use computer_network_final_p.Base.{◌≡◌, refl, false, Option, none, some, [], ok}
use computer_network_final_p.Base.Dict.{find, nat_eq}
use computer_network_final_p.Protocol.Message.{login_req}
use computer_network_final_p.Transfer.{init}
use computer_network_final_p.Server.{World}
use computer_network_final_p.Server.Sessions.{TcpSession}
use computer_network_final_p.Server.Dispatch.{
  header, body_read, handle_message, login_parsed, logged_in, answer_login, enter,
  accept_connection,
}
use computer_network_final_p.Server.Steps.{Reach, starts, accepts, reads_body}
use computer_network_final_p.Tests.Auth.{services, reader, answered_bob, login_runs}
use computer_network_final_p.Tests.Server.{disk, answers, login_bytes, login_parsed_bob}

abbrev pub nobody : World services
nobody = record {
  objects = [];
  sessions = [];
  transfers = record { next_transfer_id = 1; transfers = [] };
  store = record { base_path = []; disk = disk };
  services = tt;
}

nobody_offers : nobody.transfers ≡ init
unfolding init
nobody_offers = refl

abbrev connected : World services
connected = accept_connection nobody 1

abbrev pub entered : World services
entered = enter (answer_login connected 1 answered_bob) 1 answered_bob

login_read :
    body_read reader answers connected 1 login_req 6 false login_bytes ≡ ok (entered, header)
unfolding body_read handle_message login_parsed logged_in accept_connection
login_read = rw (login_parsed_bob, login_parsed, login_runs, logged_in)

pub entered_is_reached : Reach nobody entered
entered_is_reached =
    reads_body reader answers connected entered 1 login_req 6 false login_bytes header
      (accepts nobody 1 (starts nobody_offers)) login_read

abbrev session_in : Option TcpSession → TcpSession
session_in none = record { token = []; user_id = 0; username = []; outq = [] }
session_in (some s) = s

abbrev bob_entered : TcpSession
bob_entered = session_in (find 1 entered.objects)
