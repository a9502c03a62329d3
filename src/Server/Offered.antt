-- ===== src/Server/Offered.antt =====
-- Who the transfers come from, in every world that the server reaches.
use computer_network_final_p.Base.{ℕ, ◌≡◌, true, some, List}
use computer_network_final_p.Base.Dict.{find, nat_eq}
use computer_network_final_p.Db.{Services}
use computer_network_final_p.Server.Sessions.{TcpSession, is_authenticated}
use computer_network_final_p.Server.{World}
use computer_network_final_p.Server.Steps.{Reach}
use computer_network_final_p.Server.Granted.{Grant}

-- A session, of a world that the server had reached, that a LOGIN_REQ had logged in, with this user id,
-- name and token.
pub record Sender {S : Services} (first : World S) (user_id : ℕ) (username token : List ℕ)
    : Type 0 where
  pub before : World S
  pub id : ℕ
  pub session : TcpSession
  pub reached : Reach first before
  pub there : find id before.objects ≡ some session
  pub logged_in : is_authenticated session ≡ true
  pub grant : Grant first id session
  pub user_id_is : session.user_id ≡ user_id
  pub username_is : session.username ≡ username
  pub token_is : session.token ≡ token
