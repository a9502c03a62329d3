-- ===== src/Tests/Start.antt =====
-- A start with an empty environment.
use computer_network_final_p.Base.{
  ℕ, ◌<◌, ◌≡◌, ◌≢◌, ◌⊎◌, refl, Bool, true, false, none, List, [], ok, c_str,
}
use computer_network_final_p.FileStore.{initialize, ensure_directory}
use computer_network_final_p.FileStore.Files.{empty}
use computer_network_final_p.Server.Steps.{Reach}
use computer_network_final_p.Start.{
  DbConfig, Environment, load_config, conninfo, Connection, connected, choose_port, exits, serves,
  first_world, main, serve, caught, env_int_or, int_or, connect, checked, argument_port,
}
use computer_network_final_p.Start.Serving.{main_cases}
use computer_network_final_p.Tests.Auth.{services}
use computer_network_final_p.Tests.Server.{answers}

abbrev no_variables : Environment
no_variables = λ k. none

abbrev accepts_all : List ℕ → Connection
accepts_all = λ info. connected

main_cases_example :
    (cfg : DbConfig) × (port : ℕ) × (load_config no_variables ≡ ok cfg)
    × (choose_port no_variables [] ≡ ok port)
    × (port < 65536)
    × (((main {S = services} accepts_all answers.directory (λ p. true) empty tt no_variables []
            ≡ ok (serves port (first_world empty tt)))
          × (accepts_all (c_str (conninfo cfg)) ≡ connected)
          × (initialize answers.directory ≡ true)
          × (◌≡◌ {A = Bool} true true)
          × Reach {S = services} (first_world empty tt) (first_world empty tt))
        ⊎ ((main {S = services} accepts_all answers.directory (λ p. true) empty tt no_variables []
              ≡ ok (exits 1))
            × ((accepts_all (c_str (conninfo cfg)) ≢ connected)
                ⊎ ((initialize answers.directory ≡ false) ⊎ (◌≡◌ {A = Bool} true false)))))
main_cases_example =
    main_cases {S = services} accepts_all answers.directory (λ p. true) empty tt no_variables []

serves_on_9000 :
    main {S = services} accepts_all answers.directory (λ p. true) empty tt no_variables []
    ≡ ok (serves 9000 (first_world empty tt))
unfolding main serve caught load_config env_int_or int_or connect checked choose_port argument_port
    initialize ensure_directory
serves_on_9000 = refl
