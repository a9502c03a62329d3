-- ===== src/Auth.antt =====
-- `AuthHandler` of `core/src/net/auth_handler.cpp`.
pub mod PasswordHash
pub mod Laws
pub mod Verifying
use computer_network_final_p.Base.{
  ℕ, ◌*◌, Bool, true, false, not, ◌||◌, Option, none, some, List, [], ◌∷◌, ◌++◌, length, ltb, ◌==◌,
  if◌then◌else◌, Result, ok, err, fault, text,
}
use computer_network_final_p.Base.Action.{Action, lift, pure, catch, ◌>>=◌}
use computer_network_final_p.Db.{Services}
use computer_network_final_p.Db.Users.{UserRow, create_user, get_user_by_username}
use computer_network_final_p.Db.Sessions.{create_session}
use computer_network_final_p.Protocol.RegisterReq.{RegisterReq}
use computer_network_final_p.Protocol.RegisterResp.{RegisterResp}
use computer_network_final_p.Protocol.LoginReq.{LoginReq}
use computer_network_final_p.Protocol.LoginResp.{LoginResp}
use PasswordHash.{HexReader, hash_password_pbkdf2, verify_password_pbkdf2}

-- `s.empty() || s.size() > most`.
unfoldable pub out_of_range : List ℕ → ℕ → Bool
out_of_range s most = (length s == 0) || ltb most (length s)

abbrev pub registration : Bool → List ℕ → RegisterResp
registration is_ok msg = record { is_ok = is_ok; msg = msg }

-- The body of the `try` block.
unfoldable pub create_account : (S : Services) → RegisterReq → Action S.State RegisterResp
create_account S r = do
  pass_hash ← hash_password_pbkdf2 S r.password 120000
  user_id ← create_user S r.username r.email pass_hash
  pure (registration true (text "user created successfully"))

unfoldable pub register_new :
    (S : Services) → RegisterReq → Option UserRow → Action S.State RegisterResp
unfolding out_of_range create_account
register_new S r (some existing) = pure (registration false (text "username already exists"))
register_new S r none =
    if out_of_range r.email 255
    then pure (registration false (text "email must be 1-255 characters"))
    else catch (create_account S r)
        λ what. registration false (text "registration failed: " ++ what)

unfoldable pub handle_register : (S : Services) → RegisterReq → Action S.State RegisterResp
unfolding out_of_range register_new
handle_register S r =
    if out_of_range r.username 64
    then pure (registration false (text "username must be 1-64 characters"))
    else if out_of_range r.password 128
    then pure (registration false (text "password must be 1-128 characters"))
    else (do existing ← get_user_by_username S r.username; register_new S r existing)

unfoldable pub refused : List ℕ → LoginResp
refused msg = record { is_ok = false; token = []; user_id = 0; username = []; msg = msg }

unfoldable pub open_session : (S : Services) → UserRow → Action S.State LoginResp
open_session S user = do
  token ← create_session S user.id (24 * 3600)
  pure (record {
    is_ok = true;
    token = token;
    user_id = user.id;
    username = user.username;
    msg = text "login successful";
  })

unfoldable pub login_verified : (S : Services) → UserRow → Bool → Action S.State LoginResp
unfolding open_session refused
login_verified S user false = pure (refused (text "invalid username or password"))
login_verified S user true =
    catch (open_session S user) λ what. refused (text "login failed: " ++ what)

unfoldable pub login_as :
    HexReader → (S : Services) → LoginReq → Option UserRow → Action S.State LoginResp
unfolding login_verified refused
login_as read S r none = pure (refused (text "invalid username or password"))
login_as read S r (some user) = do
  matches ← lift (verify_password_pbkdf2 read S r.password user.pass_hash)
  login_verified S user matches

unfoldable pub handle_login : HexReader → (S : Services) → LoginReq → Action S.State LoginResp
unfolding login_as refused
handle_login read S r =
    if (length r.username == 0) || (length r.password == 0)
    then pure (refused (text "username and password required"))
    else (do user ← get_user_by_username S r.username; login_as read S r user)
