-- ===== src/Start/Config.antt =====
-- The settings of `core/include/fsx/common/config.h` and `core/src/storage/db_config.cpp`, which `main`
-- does not use.
use computer_network_final_p.Base.{
  ℕ, Option, none, some, List, [], ◌∷◌, Result, ok, err, fault, ok-injective, ◌>>=◌, text, ◌≡◌,
  refl, sym, ◌∙◌, ap,
}
use computer_network_final_p.Db.{stoi}
use computer_network_final_p.Start.{Environment, env_or, parsed_or, int_or, env_int_or}

-- `DbConfig` of `storage/db_config.h`, whose port is a text.
pub record StorageConfig : Type 0 where
  pub host : List ℕ
  pub port : List ℕ
  pub user : List ℕ
  pub password : List ℕ
  pub dbname : List ℕ

unfoldable pub load_db_config_from_env : Environment → StorageConfig
unfolding env_or
load_db_config_from_env env = record {
  host = env_or env (text "FSX_DB_HOST") (text "127.0.0.1");
  port = env_or env (text "FSX_DB_PORT") (text "5432");
  user = env_or env (text "FSX_DB_USER") (text "fsx");
  password = env_or env (text "FSX_DB_PASSWORD") (text "fsxpass");
  dbname = env_or env (text "FSX_DB_NAME") (text "fsx");
}

unfoldable pub load_db_cfg : Environment → StorageConfig
unfolding env_or
load_db_cfg env = record {
  host = env_or env (text "FSX_DB_HOST") (text "127.0.0.1");
  port = env_or env (text "FSX_DB_PORT") (text "5432");
  user = env_or env (text "FSX_DB_USER") (text "fsx");
  password = env_or env (text "FSX_DB_PASSWORD") (text "fsxpass");
  dbname = env_or env (text "FSX_DB_NAME") (text "fsx");
}

-- Here a variable that is set to the empty text counts as not set.
unfoldable pub filled_or : Option (List ℕ) → List ℕ → List ℕ
filled_or none default = default
filled_or (some []) default = default
filled_or (some (c ∷ rest)) default = c ∷ rest

unfoldable pub getenv_or : Environment → List ℕ → List ℕ → List ℕ
unfolding filled_or
getenv_or env k default = filled_or (env k) default

pub record Config : Type 0 where
  pub tcp_port : ℕ
  pub admin_port : ℕ
  pub log_path : List ℕ

-- A port that does not parse throws.
unfoldable pub from_env : Environment → Result Config
unfolding getenv_or
from_env env = do
  tcp_port ← stoi (getenv_or env (text "FSX_TCP_PORT") (text "9000"))
  admin_port ← stoi (getenv_or env (text "FSX_ADMIN_PORT") (text "9100"))
  ok (record {
    tcp_port = tcp_port;
    admin_port = admin_port;
    log_path = getenv_or env (text "FSX_LOG_PATH") (text "./report.log");
  })

-- A number that `stoi` reads from a variable, or from the default's text, is the one that `env_int_or`
-- gives.
stoi-int_or :
    (v : Option (List ℕ)) (default_text : List ℕ) (default n : ℕ)
    → stoi default_text ≡ ok default
    → stoi (filled_or v default_text) ≡ ok n
    → int_or v default ≡ ok n
unfolding int_or filled_or parsed_or
stoi-int_or none default_text default n hd h = sym hd ∙ h
stoi-int_or (some []) default_text default n hd h = sym hd ∙ h
stoi-int_or (some (c ∷ rest)) default_text default n hd h = rw (h, parsed_or) refl

ports :
    (tcp admin : Result ℕ) (log_path : List ℕ) (c : Config)
    → (do
      tcp_port ← tcp
      admin_port ← admin
      ok (record { tcp_port = tcp_port; admin_port = admin_port; log_path = log_path }))
      ≡ ok c
    → (tcp ≡ ok c.tcp_port) × (admin ≡ ok c.admin_port)
ports (ok t) (ok a) log_path c h =
    let e = ok-injective h in (ap (λ c. ok c.tcp_port) e, ap (λ c. ok c.admin_port) e)
ports (ok t) (err what) log_path c h = absurd cc
ports (ok t) fault log_path c h = absurd cc
ports (err what) admin log_path c h = absurd cc
ports fault admin log_path c h = absurd cc

stoi_9000 : stoi (text "9000") ≡ ok 9000
unfolding stoi text
stoi_9000 = refl

stoi_9100 : stoi (text "9100") ≡ ok 9100
unfolding stoi text
stoi_9100 = refl

-- Where `from_env` returns, its ports are those that the `env_int_or` of `main` gives with the same
-- defaults.
pub from_env-env_int_or :
    (env : Environment) (c : Config)
    → from_env env ≡ ok c
    → (env_int_or env (text "FSX_TCP_PORT") 9000 ≡ ok c.tcp_port)
      × (env_int_or env (text "FSX_ADMIN_PORT") 9100 ≡ ok c.admin_port)
unfolding from_env getenv_or env_int_or
from_env-env_int_or env c h =
    let (tcp, admin) = ports _ _ _ c h in
    (
      stoi-int_or (env (text "FSX_TCP_PORT")) (text "9000") 9000 c.tcp_port stoi_9000 tcp,
      stoi-int_or (env (text "FSX_ADMIN_PORT")) (text "9100") 9100 c.admin_port stoi_9100 admin,
    )
