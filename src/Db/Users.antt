-- ===== src/Db/Users.antt =====
-- `UserRepository` of `core/src/db/user_repository.cpp`.
use computer_network_final_p.Base.{ℕ, Option, none, some, List, [], ◌∷◌, err, text}
use computer_network_final_p.Base.Action.{Action, lift, pure, ◌>>=◌}
use computer_network_final_p.Db.{Services, exec_params, must_ok, nth_cell, stoll}

-- An id is the pattern of a `long long`.
pub record UserRow : Type 0 where
  pub id : ℕ
  pub username : List ℕ
  pub email : List ℕ
  pub pass_hash : List ℕ

-- The id of the one row that the INSERT returns.
unfoldable pub created_id : {S : Type 0} → List (List (List ℕ)) → Action S ℕ
created_id (row ∷ []) = do id_text ← lift (nth_cell row 0); lift (stoll id_text)
created_id table = lift (err (text "create_user: unexpected row count"))

unfoldable pub create_user : (S : Services) → List ℕ → List ℕ → List ℕ → Action S.State ℕ
unfolding created_id
create_user S username email pass_hash = do
  r ←
      exec_params S
        (text "INSERT INTO users(username, email, pass_hash) VALUES ($1, $2, $3) RETURNING id;")
        (username ∷ email ∷ pass_hash ∷ [])
  table ← lift (must_ok r (text "create_user"))
  created_id table

unfoldable pub first_user : {S : Type 0} → List (List (List ℕ)) → Action S (Option UserRow)
first_user [] = pure none
first_user (row ∷ _) = do
  id_text ← lift (nth_cell row 0)
  id ← lift (stoll id_text)
  username ← lift (nth_cell row 1)
  email ← lift (nth_cell row 2)
  pass_hash ← lift (nth_cell row 3)
  pure (some (record { id = id; username = username; email = email; pass_hash = pass_hash }))

unfoldable pub get_user_by_username : (S : Services) → List ℕ → Action S.State (Option UserRow)
unfolding first_user
get_user_by_username S username = do
  r ←
      exec_params S
        (text "SELECT id, username, email, pass_hash FROM users WHERE username = $1 LIMIT 1;")
        (username ∷ [])
  table ← lift (must_ok r (text "get_user_by_username"))
  first_user table
