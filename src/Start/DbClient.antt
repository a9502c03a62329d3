-- ===== src/Start/DbClient.antt =====
-- The older client of the database, `DbClient` of `core/src/storage/db_client.cpp`, which `main` does not
-- use. libpq is a parameter; a connection is the number of its object.
pub mod Handles
use computer_network_final_p.Base.{
  ℕ, Bool, true, false, Option, none, some, List, [], ◌∷◌, ◌++◌, ◌==◌, if◌then◌else◌, Result, ok,
  err, text, c_str, ◌≡◌, refl, sym, ap, ◌∙◌, ◌⊎◌, inl, inr,
}
use computer_network_final_p.Base.Action.{Action}
use computer_network_final_p.Start.Config.{StorageConfig}

-- `PQconnectdb`, `PQstatus` compared with `CONNECTION_OK`, `PQerrorMessage`, `PQfinish`, `PQexec`,
-- `PQresultStatus`, `PQresultErrorMessage` and `PQclear`. A null pointer is `none`.
pub record Libpq : Type 1 where
  pub State : Type 0
  pub PgResult : Type 0
  pub connectdb : List ℕ → State → State × Option ℕ
  pub status_ok : ℕ → State → Bool
  pub error_message : ℕ → State → List ℕ
  pub finish : ℕ → State → State
  pub pq_exec : ℕ → List ℕ → State → State × Option PgResult
  pub result_status : PgResult → ℕ
  pub result_message : PgResult → List ℕ
  pub clear : PgResult → State → State

-- `conn_`, and what libpq keeps.
pub record DbClient (L : Libpq) : Type 0 where
  pub conn : Option ℕ
  pub lib : L.State

unfoldable pub conn_string : StorageConfig → List ℕ
conn_string cfg =
    text "host="
    ++ (cfg.host
        ++ (text " port="
            ++ (cfg.port
                ++ (text " user="
                    ++ (cfg.user
                        ++ (text " password="
                            ++ (cfg.password ++ (text " dbname=" ++ cfg.dbname))))))))

-- `PQexec`, which answers a null pointer for a null connection.
unfoldable pub answered : (L : Libpq) → Option ℕ → List ℕ → L.State → L.State × Option L.PgResult
answered L none sql lib = (lib, none)
answered L (some p) sql lib = L.pq_exec p (c_str sql) lib

unfoldable pub checked_result : {A : Type 0} → Option A → Result A
checked_result none = err (text "PQexec returned null")
checked_result (some r) = ok r

module _ {L : Libpq} where
  -- `if (conn_) { PQfinish(conn_); conn_ = nullptr; }`, which is all of the destructor.
  unfoldable pub closed : DbClient L → DbClient L
  closed c = elim c.conn [ none ↦ c | some p ↦ record { conn = none; lib = L.finish p c.lib } ]

  -- What `connect` makes of the answer of `PQconnectdb`.
  unfoldable pub checked_conn : Option ℕ → L.State → DbClient L × Result (Unit {0})
  checked_conn none lib =
      (record { conn = none; lib = lib }, err (text "PQconnectdb returned null"))
  checked_conn (some p) lib =
      if L.status_ok p lib then (record { conn = some p; lib = lib }, ok tt) else (
        record { conn = none; lib = L.finish p lib },
        err (text "DB connect failed: " ++ L.error_message p lib),
      )

  unfoldable pub connect : StorageConfig → Action (DbClient L) (Unit {0})
  unfolding closed checked_conn conn_string
  connect cfg c =
      let (lib, answer) = L.connectdb (c_str (conn_string cfg)) ((closed c).lib) in
      checked_conn answer lib

  unfoldable pub is_connected : DbClient L → Bool
  is_connected c = elim c.conn [ none ↦ false | some p ↦ L.status_ok p c.lib ]

  unfoldable pub exec : List ℕ → Action (DbClient L) L.PgResult
  unfolding is_connected answered checked_result
  exec sql c =
      if is_connected c
      then (let (lib, r) = answered L c.conn sql c.lib in
          (record c { lib = lib }, checked_result r))
      else (c, err (text "DB not connected"))

  -- A result of another status is cleared before the error is thrown.
  unfoldable pub expect : Option L.PgResult → ℕ → List ℕ → Action (DbClient L) (Unit {0})
  expect none expected what c = (c, err (what ++ text ": null PGresult"))
  expect (some r) expected what c = if L.result_status r == expected then (c, ok tt) else (
    record c { lib = L.clear r c.lib },
    err (what ++ (text " failed: " ++ L.result_message r)),
  )
