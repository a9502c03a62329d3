-- ===== src/Tests/Log.antt =====
-- The log file, the older client of the database and the unused settings at concrete inputs.
use computer_network_final_p.Base.{ℕ, ◌≡◌, false, some, none, List, [], ◌∷◌, text}
use computer_network_final_p.Log.{Logger}
use computer_network_final_p.Log.Lines.{Call, infos, errors}
use computer_network_final_p.Start.Config.{StorageConfig}
use computer_network_final_p.Start.DbClient.{Libpq, closed}
use computer_network_final_p.Start.DbClient.Handles.{
  traced, also_open, connects, execs, perform_all, new_client, perform_all-closed,
}

abbrev unset : Logger
unset = record { path = []; files = [] }

abbrev two_calls : List Call
two_calls = infos (text "T1") (text "up") ∷ errors (text "T2") (text "down") ∷ []

-- A libpq that gives the connection 3 and then refuses it.
abbrev refusing : Libpq
refusing = record {
  State = Unit;
  PgResult = ℕ;
  connectdb = λ conninfo s. (s, some 3);
  status_ok = λ p s. false;
  error_message = λ p s. text "refused";
  finish = λ p s. s;
  pq_exec = λ p sql s. (s, none);
  result_status = λ r. r;
  result_message = λ r. [];
  clear = λ r s. s;
}

abbrev anywhere : StorageConfig
anywhere = record { host = []; port = []; user = []; password = []; dbname = [] }

perform_all-closed_example :
    let c =
      perform_all {L = traced refusing}
        (connects anywhere ∷ execs [] ∷ [])
        (new_client refusing tt) in
    (c.lib.1 ≡ also_open c.conn []) × ((closed c).lib.1 ≡ [])
perform_all-closed_example = perform_all-closed refusing (connects anywhere ∷ execs [] ∷ []) tt
