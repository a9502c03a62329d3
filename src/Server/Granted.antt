-- ===== src/Server/Granted.antt =====
-- Where the authentication of a session comes from, in every world that the server reaches.
use computer_network_final_p.Base.{ℕ, ◌≡◌, true, List, ok}
use computer_network_final_p.Base.Dict.{nat_eq}
use computer_network_final_p.Wire.{little}
use computer_network_final_p.Protocol.Message.{login_req}
use computer_network_final_p.Protocol.LoginReq
use computer_network_final_p.Protocol.LoginReq.{LoginReq}
use computer_network_final_p.Protocol.LoginResp.{LoginResp}
use computer_network_final_p.Auth.Laws.{LoggedInAs}
use computer_network_final_p.Auth.PasswordHash.{HexReader}
use computer_network_final_p.Db.{Services}
use computer_network_final_p.Server.Sessions.{TcpSession, is_authenticated}
use computer_network_final_p.Server.{World, FileAnswers}
use computer_network_final_p.Server.Dispatch.{handle_message}
use computer_network_final_p.Server.Steps.{Reach}

-- A LOGIN_REQ that the connection `id` sent to a world that the server had reached, for which the database
-- found the user, whose stored hash the password verified, and that gave the session what it has.
pub record Grant {S : Services} (first : World S) (id : ℕ) (s : TcpSession) : Type 0 where
  pub read : HexReader
  pub answers : FileAnswers
  pub before : World S
  pub after : World S
  pub payload : List ℕ
  pub req : LoginReq
  pub resp : LoginResp
  pub services : S.State
  pub reached : Reach first before
  pub handled : handle_message read answers before id login_req payload ≡ ok after
  pub parsed : LoginReq.deserialize little payload ≡ ok req
  pub logged_in : LoggedInAs read S req before.services services resp
  pub token : s.token ≡ resp.token
  pub user_id : s.user_id ≡ resp.user_id
  pub username : s.username ≡ resp.username

module _ {S : Services} (first : World S) where
  abbrev pub Granted : ℕ → TcpSession → Type 0
  Granted id s = is_authenticated s ≡ true → Grant first id s
