-- ===== src/Start/DbClient/Handles.antt =====
-- What the older client of the database does with the connections that libpq gives it.
use computer_network_final_p.Base.{
  ℕ, true, Option, none, some, List, [], ◌∷◌, ◌==◌, if◌then◌else◌, Result, ok, err, text, ◌≡◌, refl,
  ◌∙◌, ◌⊎◌, inl, inr, arith, Bool-cases,
}
use computer_network_final_p.Start.Config.{StorageConfig}
use computer_network_final_p.Start.DbClient.{
  Libpq, DbClient, closed, checked_conn, connect, is_connected, answered, exec, expect,
}

-- A list of numbers without the first `p` of it.
unfoldable pub without : ℕ → List ℕ → List ℕ
without p [] = []
without p (q ∷ rest) = let more = without p rest in if q == p then rest else q ∷ more

unfoldable pub also_open : Option ℕ → List ℕ → List ℕ
also_open none given = given
also_open (some p) given = p ∷ given

-- libpq with a record of the connections that were given out and not finished.
abbrev pub traced : Libpq → Libpq
traced L = record {
  State = L.State × List ℕ;
  PgResult = L.PgResult;
  connectdb = λ conninfo s.
      (let (lib, answer) = L.connectdb conninfo s.0 in ((lib, also_open answer s.1), answer));
  status_ok = λ p s. L.status_ok p s.0;
  error_message = λ p s. L.error_message p s.0;
  finish = λ p s. (L.finish p s.0, without p s.1);
  pq_exec = λ p sql s. (let (lib, answer) = L.pq_exec p sql s.0 in ((lib, s.1), answer));
  result_status = L.result_status;
  result_message = L.result_message;
  clear = λ r s. (L.clear r s.0, s.1);
}

-- A call of the client, whether or not it throws.
pub data Use (L : Libpq) : Type 0 where
  connects : StorageConfig → Use L
  execs : List ℕ → Use L
  expects : Option L.PgResult → ℕ → List ℕ → Use L

unfoldable pub perform : {L : Libpq} → Use L → DbClient L → DbClient L
unfolding connect exec expect
perform (connects cfg) c = (connect cfg c).0
perform (execs sql) c = (exec sql c).0
perform (expects r expected what) c = (expect r expected what c).0

unfoldable pub perform_all : {L : Libpq} → List (Use L) → DbClient L → DbClient L
unfolding perform
perform_all [] c = c
perform_all (u ∷ rest) c = perform_all rest (perform u c)

module _ (L : Libpq) where
  -- The only connection that is open is the one in `conn_`.
  abbrev pub HoldsAll : DbClient (traced L) → Type 0
  HoldsAll c = c.lib.1 ≡ also_open c.conn []

  without_only : (p : ℕ) → without p (p ∷ []) ≡ []
  unfolding without
  without_only p = ground arith

  closed-given :
      (conn : Option ℕ) (lib : L.State) (given : List ℕ)
      → given ≡ also_open conn []
      → (closed {L = traced L} (record { conn = conn; lib = (lib, given) })).lib.1 ≡ []
  unfolding closed also_open
  closed-given none lib given h = h
  closed-given (some p) lib given h = rw h (without_only p)

  checked_conn-HoldsAll :
      (answer : Option ℕ) (lib : L.State) (given : List ℕ)
      → given ≡ []
      → HoldsAll ((checked_conn {L = traced L} answer (lib, also_open answer given)).0)
  unfolding checked_conn also_open
  checked_conn-HoldsAll none lib given h = h
  checked_conn-HoldsAll (some p) lib given h = elim (Bool-cases (L.status_ok p lib)) [
    | inl good ↦ rw (good, h) refl
    | inr bad ↦ rw (bad, h) (without_only p)
  ]

  exec-HoldsAll : (sql : List ℕ) (c : DbClient (traced L)) → HoldsAll c → HoldsAll ((exec sql c).0)
  unfolding exec
  exec-HoldsAll sql c h = elim (Bool-cases (is_connected c)) [
    | inl here ↦ rw here (kept c.conn sql c.lib ∙ h)
    | inr away ↦ rw away h
  ]
    where
      kept :
          (conn : Option ℕ) (sql : List ℕ) (lib : L.State × List ℕ)
          → (answered (traced L) conn sql lib).0.1 ≡ lib.1
      kept none sql lib = refl
      kept (some p) sql lib = refl

  expect-HoldsAll :
      (r : Option L.PgResult) (expected : ℕ) (what : List ℕ) (c : DbClient (traced L))
      → HoldsAll c
      → HoldsAll ((expect {L = traced L} r expected what c).0)
  unfolding expect
  expect-HoldsAll none expected what c h = h
  expect-HoldsAll (some r) expected what c h = elim (Bool-cases (L.result_status r == expected)) [
    | inl same ↦ rw same h
    | inr other ↦ rw other h
  ]

  perform-HoldsAll :
      (u : Use (traced L)) (c : DbClient (traced L)) → HoldsAll c → HoldsAll (perform u c)
  unfolding perform connect
  perform-HoldsAll (connects cfg) c h =
      checked_conn-HoldsAll _ _ ((closed c).lib.1) (closed-given c.conn c.lib.0 c.lib.1 h)
  perform-HoldsAll (execs sql) c h = exec-HoldsAll sql c h
  perform-HoldsAll (expects r expected what) c h = expect-HoldsAll r expected what c h

  perform_all-HoldsAll :
      (uses : List (Use (traced L))) (c : DbClient (traced L))
      → HoldsAll c
      → HoldsAll (perform_all uses c)
  unfolding perform_all
  perform_all-HoldsAll [] c h = h
  perform_all-HoldsAll (u ∷ rest) c h =
      perform_all-HoldsAll rest (perform u c) (perform-HoldsAll u c h)

  unfoldable pub new_client : L.State → DbClient (traced L)
  new_client lib = record { conn = none; lib = (lib, []) }

  -- After any calls of a new client, whether or not they threw, at most one connection is not finished, the
  -- one that the client holds, and the destructor finishes it.
  pub perform_all-closed :
      (uses : List (Use (traced L))) (lib : L.State)
      → let c = perform_all uses (new_client lib) in
        (c.lib.1 ≡ also_open c.conn []) × ((closed c).lib.1 ≡ [])
  unfolding also_open new_client
  perform_all-closed uses lib =
      let c = perform_all uses (new_client lib) in
      let held = perform_all-HoldsAll uses (new_client lib) refl in
      (held, closed-given c.conn c.lib.0 c.lib.1 held)

module _ {L : Libpq} where
  unfoldable pub IsOpenOrNot : List ℕ → DbClient L × Result (Unit {0}) → Type 0
  IsOpenOrNot sql (c, r) =
      ((r ≡ ok tt) × (is_connected c ≡ true))
      ⊎ ((what : List ℕ) × (r ≡ err what) × (exec sql c ≡ (c, err (text "DB not connected"))))

module _ (L : Libpq) where
  checked_conn-IsOpenOrNot :
      (answer : Option ℕ) (lib : L.State) (sql : List ℕ)
      → IsOpenOrNot sql (checked_conn {L = L} answer lib)
  unfolding IsOpenOrNot checked_conn is_connected exec
  checked_conn-IsOpenOrNot none lib sql = inr (_, refl, refl)
  checked_conn-IsOpenOrNot (some p) lib sql = elim (Bool-cases (L.status_ok p lib)) [
    | inl good ↦ rw good (inl (refl, good))
    | inr bad ↦ rw bad (inr (_, refl, refl))
  ]

  -- A call of `connect` that returns leaves a client whose `connected` is true; after one that throws every
  -- `exec` throws "DB not connected".
  pub connect-IsOpenOrNot :
      (cfg : StorageConfig) (c : DbClient L) (sql : List ℕ) → IsOpenOrNot sql (connect cfg c)
  unfolding connect
  connect-IsOpenOrNot cfg c sql = checked_conn-IsOpenOrNot _ _ sql
