-- ===== src/Db/Sessions.antt =====
-- `SessionRepository` of `core/src/db/session_repository.cpp`.
use computer_network_final_p.Base.{
  ℕ, ◌+◌, ◌-◌, ◌/◌, ◌%◌, Option, none, some, List, [], ◌∷◌, ltb, if◌then◌else◌, ok, err, text,
}
use computer_network_final_p.Base.Action.{Action, lift, pure, ◌>>=◌}
use computer_network_final_p.Db.{
  Services, exec, exec_params, must_ok, nth_cell, stoll, to_string_signed,
}

pub record SessionRow : Type 0 where
  pub id : ℕ
  pub user_id : ℕ
  pub token : List ℕ
  pub expires_at : List ℕ
  pub last_seen_at : List ℕ

-- `std::hex << std::setw(2) << std::setfill('0') << (int)b` for a byte.
unfoldable pub hex_digit : ℕ → ℕ
hex_digit n = if ltb n 10 then b'0' + n else b'a' + (n - 10)

unfoldable pub to_hex : List ℕ → List ℕ
unfolding hex_digit
to_hex [] = []
to_hex (b ∷ rest) = hex_digit (b / 16) ∷ hex_digit (b % 16) ∷ to_hex rest

unfoldable pub random_hex_token : (S : Services) → ℕ → Action S.State (List ℕ)
random_hex_token S nbytes s =
    let (s', buffer) = S.rand_bytes nbytes s in
    elim buffer [
      | none ↦ (s', err (text "RAND_bytes failed"))
      | some bytes ↦ (s', ok (to_hex bytes))
    ]

unfoldable pub returned_token : {S : Type 0} → List (List (List ℕ)) → Action S (List ℕ)
returned_token (row ∷ []) = lift (nth_cell row 0)
returned_token table = lift (err (text "create_session: unexpected row count"))

unfoldable pub create_session : (S : Services) → ℕ → ℕ → Action S.State (List ℕ)
unfolding returned_token random_hex_token
create_session S user_id ttl_seconds = do
  token ← random_hex_token S 32
  r ←
      exec_params S
        (text
          "INSERT INTO sessions(user_id, token, expires_at) VALUES ($1, $2, now() + ($3 || ' seconds')::interval) RETURNING token;")
        (to_string_signed 64 user_id ∷ token ∷ to_string_signed 32 ttl_seconds ∷ [])
  table ← lift (must_ok r (text "create_session"))
  returned_token table

unfoldable pub session_row : {S : Type 0} → List (List ℕ) → Action S SessionRow
session_row row = do
  id_text ← lift (nth_cell row 0)
  id ← lift (stoll id_text)
  user_id_text ← lift (nth_cell row 1)
  user_id ← lift (stoll user_id_text)
  token ← lift (nth_cell row 2)
  expires_at ← lift (nth_cell row 3)
  last_seen_at ← lift (nth_cell row 4)
  pure (record {
    id = id;
    user_id = user_id;
    token = token;
    expires_at = expires_at;
    last_seen_at = last_seen_at;
  })

unfoldable pub first_session : {S : Type 0} → List (List (List ℕ)) → Action S (Option SessionRow)
unfolding session_row
first_session [] = pure none
first_session (row ∷ _) = do found ← session_row row; pure (some found)

unfoldable pub validate_token : (S : Services) → List ℕ → Action S.State (Option SessionRow)
unfolding first_session
validate_token S token = do
  r ←
      exec_params S
        (text
          "SELECT id, user_id, token, expires_at::text, last_seen_at::text FROM sessions WHERE token = $1 AND expires_at > now() LIMIT 1;")
        (token ∷ [])
  table ← lift (must_ok r (text "validate_token"))
  first_session table

unfoldable pub touch_session : (S : Services) → List ℕ → Action S.State (Unit {0})
touch_session S token = do
  r ← exec_params S (text "UPDATE sessions SET last_seen_at = now() WHERE token = $1;") (token ∷ [])
  table ← lift (must_ok r (text "touch_session"))
  pure tt

unfoldable pub session_rows : {S : Type 0} → List (List (List ℕ)) → Action S (List SessionRow)
unfolding session_row
session_rows [] = pure []
session_rows (row ∷ table) = do
  first ← session_row row
  rest ← session_rows table
  pure (first ∷ rest)

unfoldable pub list_valid_sessions : (S : Services) → Action S.State (List SessionRow)
unfolding session_rows
list_valid_sessions S = do
  r ← exec S (
      text
        "SELECT id, user_id, token, expires_at::text, last_seen_at::text FROM sessions WHERE expires_at > now() ORDER BY last_seen_at DESC;")
  table ← lift (must_ok r (text "list_valid_sessions"))
  session_rows table
