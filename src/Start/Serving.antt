-- ===== src/Start/Serving.antt =====
-- When the server serves, and in what state.
use computer_network_final_p.Base.{
  ℕ, ◌-◌, ◌%◌, ◌^◌, ◌<◌, ◌≡◌, ◌≢◌, refl, sym, ap, ◌∙◌, ◌⊎◌, inl, inr, Bool, true, false, ◌&&◌,
  Bool-cases, Option, none, some, List, [], ◌∷◌, ◌++◌, ltb, leb, ◌==◌, ok, err, fault, Result-cases,
  text, c_str, arith,
}
use computer_network_final_p.Db.{Services, stoi, parse_signed, signed_pattern, skip_spaces}
use computer_network_final_p.FileStore.{DirectoryAnswer, initialize}
use computer_network_final_p.FileStore.Files.{Disk}
use computer_network_final_p.Server.Steps.{Reach, starts}
use computer_network_final_p.Start.{
  Environment, DbConfig, env_or, parsed_or, int_or, env_int_or, load_config, conninfo, Connection,
  null, failed, connected, checked, connect, argument_port, choose_port, exits, serves, first_world,
  serve, caught, main,
}

signed_pattern-ne-fault :
    (bits : ℕ) (negative : Bool) (n : Option ℕ) (name : List ℕ)
    → signed_pattern bits negative n name ≢ fault
unfolding signed_pattern
signed_pattern-ne-fault bits negative none name = λ e. cc
signed_pattern-ne-fault bits true (some n) name = elim (Bool-cases (leb n (2 ^ (bits - 1)))) [
  | inl fits ↦ rw fits (λ e. cc)
  | inr large ↦ rw large (λ e. cc)
]
signed_pattern-ne-fault bits false (some n) name = elim (Bool-cases (ltb n (2 ^ (bits - 1)))) [
  | inl fits ↦ rw fits (λ e. cc)
  | inr large ↦ rw large (λ e. cc)
]

parse_signed-ne-fault : (bits : ℕ) (name s : List ℕ) → parse_signed bits name s ≢ fault
unfolding parse_signed
parse_signed-ne-fault bits name [] = λ e. cc
parse_signed-ne-fault bits name (c ∷ rest) = elim (Bool-cases (c == b'-')) [
  | inl minus ↦ rw minus (signed_pattern-ne-fault bits true _ name)
  | inr other ↦ elim (Bool-cases (c == b'+')) [
    | inl plus ↦ rw (other, plus) (signed_pattern-ne-fault bits false _ name)
    | inr digit ↦ rw (other, digit) (signed_pattern-ne-fault bits false _ name)
  ]
]

parsed_or-returns : (s : List ℕ) (default : ℕ) → (n : ℕ) × (parsed_or (stoi s) default ≡ ok n)
unfolding stoi parsed_or
parsed_or-returns s default = elim (Result-cases (stoi s)) [
  | inl (n, parsed) ↦ (n, rw (parsed, parsed_or))
  | inr (inl (what, refused)) ↦ (default, rw (refused, parsed_or))
  | inr (inr broken) ↦ absurd (parse_signed-ne-fault 32 (text "stoi") (skip_spaces s) broken)
]

env_int_or-returns :
    (env : Environment) (k : List ℕ) (default : ℕ) → (n : ℕ) × (env_int_or env k default ≡ ok n)
unfolding env_int_or
env_int_or-returns env k default = by_value (env k)
  where
    by_value : (v : Option (List ℕ)) → (n : ℕ) × (int_or v default ≡ ok n)
    by_value none = (default, unfold int_or in refl)
    by_value (some []) = (default, unfold int_or in refl)
    by_value (some (c ∷ rest)) =
        let (n, e) = parsed_or-returns (c ∷ rest) default in (n, unfold int_or in e)

argument_port-returns :
    (args : List (List ℕ)) → (port : ℕ) × (argument_port args ≡ ok port) × (port < 65536)
unfolding argument_port
argument_port-returns [] = (9000, refl, omega arith)
argument_port-returns (arg ∷ rest) =
    let (n, e) = parsed_or-returns arg 9000 in (n % 2 ^ 16, rw e, omega arith)

choose_port-returns :
    (env : Environment) (args : List (List ℕ))
    → (port : ℕ) × (choose_port env args ≡ ok port) × (port < 65536)
unfolding choose_port
choose_port-returns env args =
    let (port, from_args, small) = argument_port-returns args in
    let (n, from_env) = env_int_or-returns env (text "FSX_TCP_PORT") 0 in
    elim (Bool-cases (ltb 0 n && leb n 65535)) [
      | inl good ↦ (n, rw (from_args, from_env, good), ground (arith, good))
      | inr bad ↦ (port, rw (from_args, from_env, bad), small)
    ]

load_config-returns : (env : Environment) → (cfg : DbConfig) × (load_config env ≡ ok cfg)
unfolding load_config
load_config-returns env =
    let (port, parsed) = env_int_or-returns env (text "FSX_DB_PORT") 5432 in
    (
      record {
        host = env_or env (text "FSX_DB_HOST") (text "localhost");
        port = port;
        user = env_or env (text "FSX_DB_USER") (text "fsx");
        password = env_or env (text "FSX_DB_PASSWORD") (text "fsxpass");
        name = env_or env (text "FSX_DB_NAME") (text "fsx");
      },
      rw parsed,
    )

connect_cases :
    (pq_connectdb : List ℕ → Connection) (cfg : DbConfig)
    → ((pq_connectdb (c_str (conninfo cfg)) ≡ connected) × (connect pq_connectdb cfg ≡ ok tt))
      ⊎ ((pq_connectdb (c_str (conninfo cfg)) ≢ connected)
          × (what : List ℕ) × (connect pq_connectdb cfg ≡ err what))
unfolding connect checked
connect_cases pq_connectdb cfg = by_answer (pq_connectdb (c_str (conninfo cfg))) refl
  where
    by_answer :
        (c : Connection)
        → pq_connectdb (c_str (conninfo cfg)) ≡ c
        → ((pq_connectdb (c_str (conninfo cfg)) ≡ connected) × (connect pq_connectdb cfg ≡ ok tt))
          ⊎ ((pq_connectdb (c_str (conninfo cfg)) ≢ connected)
              × (what : List ℕ) × (connect pq_connectdb cfg ≡ err what))
    by_answer null e = inr (
      (λ h. let e1 = sym e ∙ h in cc),
      text "DB connect failed: " ++ text "PQconnectdb failed",
      ap checked e,
    )
    by_answer (failed message) e =
        inr ((λ h. let e1 = sym e ∙ h in cc), text "DB connect failed: " ++ message, ap checked e)
    by_answer connected e = inl (e, ap checked e)

-- `main` always comes to an end of its start: it serves, with no transfer, on the port that it chose,
-- where the database is connected, the storage directory is there and the port can be bound; it exits
-- with 1 where one of these fails. The port is a `uint16_t`, also where the environment and the
-- argument hold any text.
pub main_cases :
    {S : Services} (pq_connectdb : List ℕ → Connection) (a : DirectoryAnswer) (listens : ℕ → Bool)
    (disk : Disk) (services : S.State) (env : Environment) (args : List (List ℕ))
    → (cfg : DbConfig) × (port : ℕ) × (load_config env ≡ ok cfg)
      × (choose_port env args ≡ ok port)
      × (port < 65536)
      × (((main {S = S} pq_connectdb a listens disk services env args
              ≡ ok (serves port (first_world disk services)))
            × (pq_connectdb (c_str (conninfo cfg)) ≡ connected)
            × (initialize a ≡ true)
            × (listens port ≡ true)
            × Reach {S = S} (first_world disk services) (first_world disk services))
          ⊎ ((main {S = S} pq_connectdb a listens disk services env args ≡ ok (exits 1))
              × ((pq_connectdb (c_str (conninfo cfg)) ≢ connected)
                  ⊎ ((initialize a ≡ false) ⊎ (listens port ≡ false)))))
unfolding main serve caught
main_cases pq_connectdb a listens disk services env args =
    let (cfg, loaded) = load_config-returns env in
    let (port, chosen, small) = choose_port-returns env args in
    let reached : Reach (first_world disk services) (first_world disk services) =
      starts (unfold first_world in refl) in
    (
      cfg,
      port,
      loaded,
      chosen,
      small,
      (elim (connect_cases pq_connectdb cfg) [
        | inr (refused, what, thrown) ↦ inr (rw (loaded, thrown, caught), inl refused)
        | inl (there, made) ↦ elim (Bool-cases (initialize a)) [
          | inr no_directory ↦ inr (rw (loaded, made, no_directory, caught), inr (inl no_directory))
          | inl directory ↦ elim (Bool-cases (listens port)) [
            | inr taken ↦ inr (rw (loaded, made, directory, chosen, taken, caught), inr (inr taken))
            | inl free ↦ inl (
              rw (loaded, made, directory, chosen, free, caught),
              there,
              directory,
              free,
              reached,
            )
          ]
        ]
      ]),
    )
