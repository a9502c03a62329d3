-- ===== src/Start.antt =====
-- The start of the server: `main` of `core/src/main.cpp`, and `Db::conninfo` and `Db::connect` of
-- `core/src/db/db.cpp`. An `int` is its 32-bit pattern.
pub mod Serving
pub mod DbClient
pub mod Config
use computer_network_final_p.Base.{
  ℕ, ◌%◌, ◌^◌, Bool, not, ◌&&◌, Option, none, some, List, [], ◌∷◌, ◌++◌, ltb, leb, if◌then◌else◌,
  Result, ok, err, fault, ◌>>=◌, text, c_str,
}
use computer_network_final_p.Db.{Services, stoi, to_string_signed}
use computer_network_final_p.Transfer.{init}
use computer_network_final_p.FileStore.{DirectoryAnswer, initialize}
use computer_network_final_p.FileStore.Files.{Disk}
use computer_network_final_p.Server.{World}

-- `std::getenv`: the value of a variable, if it has one.
abbrev pub Environment : Type 0
Environment = List ℕ → Option (List ℕ)

unfoldable pub value_or : Option (List ℕ) → List ℕ → List ℕ
value_or none default = default
value_or (some v) default = v

unfoldable pub env_or : Environment → List ℕ → List ℕ → List ℕ
unfolding value_or
env_or env k default = value_or (env k) default

-- What `catch (...)` makes of a number that does not parse.
unfoldable pub parsed_or : Result ℕ → ℕ → Result ℕ
parsed_or (ok n) default = ok n
parsed_or (err what) default = ok default
parsed_or fault default = fault

unfoldable pub int_or : Option (List ℕ) → ℕ → Result ℕ
unfolding parsed_or
int_or none default = ok default
int_or (some []) default = ok default
int_or (some (c ∷ rest)) default = parsed_or (stoi (c ∷ rest)) default

unfoldable pub env_int_or : Environment → List ℕ → ℕ → Result ℕ
unfolding int_or
env_int_or env k default = int_or (env k) default

pub record DbConfig : Type 0 where
  pub host : List ℕ
  pub port : ℕ
  pub user : List ℕ
  pub password : List ℕ
  pub name : List ℕ

unfoldable pub load_config : Environment → Result DbConfig
unfolding env_or env_int_or
load_config env = do
  port ← env_int_or env (text "FSX_DB_PORT") 5432
  ok (record {
    host = env_or env (text "FSX_DB_HOST") (text "localhost");
    port = port;
    user = env_or env (text "FSX_DB_USER") (text "fsx");
    password = env_or env (text "FSX_DB_PASSWORD") (text "fsxpass");
    name = env_or env (text "FSX_DB_NAME") (text "fsx");
  })

unfoldable pub conninfo : DbConfig → List ℕ
conninfo cfg =
    text "host="
    ++ (cfg.host
        ++ (text " port="
            ++ (to_string_signed 32 cfg.port
                ++ (text " dbname="
                    ++ (cfg.name
                        ++ (text " user="
                            ++ (cfg.user
                                ++ (text " password="
                                    ++ (cfg.password ++ text " connect_timeout=10")))))))))

-- What `PQconnectdb` gives: a null pointer, a connection that is not OK with its message, or one that is.
pub data Connection : Type 0 where
  null : Connection
  failed : List ℕ → Connection
  connected : Connection

unfoldable pub checked : Connection → Result (Unit {0})
checked null = err (text "DB connect failed: " ++ text "PQconnectdb failed")
checked (failed message) = err (text "DB connect failed: " ++ message)
checked connected = ok tt

unfoldable pub connect : (List ℕ → Connection) → DbConfig → Result (Unit {0})
unfolding conninfo checked
connect pq_connectdb cfg = checked (pq_connectdb (c_str (conninfo cfg)))

-- The port of the first argument, if there is one that parses, as a `uint16_t`.
unfoldable pub argument_port : List (List ℕ) → Result ℕ
unfolding parsed_or
argument_port [] = ok 9000
argument_port (arg ∷ rest) = do n ← parsed_or (stoi arg) 9000; ok (n % 2 ^ 16)

-- `FSX_TCP_PORT` goes before the argument where it is from 1 to 65535.
unfoldable pub choose_port : Environment → List (List ℕ) → Result ℕ
unfolding argument_port env_int_or
choose_port env args = do
  port ← argument_port args
  env_port ← env_int_or env (text "FSX_TCP_PORT") 0
  ok (if ltb 0 env_port && leb env_port 65535 then env_port else port)

-- `main` ends with an exit code, or it serves on a port.
pub data Started (S : Services) : Type 0 where
  exits : ℕ → Started S
  serves : ℕ → World S → Started S

module _ {S : Services} where
  -- The objects that `main` makes, over what the disk and the services are at that time.
  unfoldable pub first_world : Disk → S.State → World S
  first_world disk services = record {
    objects = [];
    sessions = [];
    transfers = init;
    store = record { base_path = text "./storage/transfers"; disk = disk };
    services = services;
  }

  -- The body of the `try` block. `listens` is whether the acceptor can be bound to the port; its
  -- constructor throws otherwise.
  unfoldable pub serve :
      (List ℕ → Connection)
      → DirectoryAnswer
      → (ℕ → Bool)
      → Disk
      → S.State
      → Environment
      → List (List ℕ)
      → Result (Started S)
  unfolding load_config connect choose_port first_world
  serve pq_connectdb a listens disk services env args = do
    cfg ← load_config env
    done ← connect pq_connectdb cfg
    if not (initialize a) then ok (exits 1) else (do
      port ← choose_port env args
      if listens port then ok (serves port (first_world disk services)) else err (text "bind"))

  unfoldable pub caught : Result (Started S) → Result (Started S)
  caught (ok started) = ok started
  caught (err what) = ok (exits 1)
  caught fault = fault

  -- `main`, without the program's name among the arguments.
  unfoldable pub main :
      (List ℕ → Connection)
      → DirectoryAnswer
      → (ℕ → Bool)
      → Disk
      → S.State
      → Environment
      → List (List ℕ)
      → Result (Started S)
  unfolding serve caught
  main pq_connectdb a listens disk services env args =
      caught (serve pq_connectdb a listens disk services env args)
