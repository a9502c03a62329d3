-- ===== src/Server/Sessions.antt =====
-- `SessionManager` of `core/src/net/session_manager.cpp`, and the part of a `TcpSession` that it reads.
-- A weak pointer is the number of a session object; it has expired when that object is gone.
use computer_network_final_p.Base.{
  ℕ, ◌+◌, Bool, not, Option, none, some, List, [], ◌∷◌, length, ◌==◌, if◌then◌else◌,
}
use computer_network_final_p.Base.Dict.{Dict, find, insert, erase, nat_eq, bytes_eq}

-- A session object: `token_`, `user_id_`, `username_` and the frames of `outq_`.
pub record TcpSession : Type 0 where
  pub token : List ℕ
  pub user_id : ℕ
  pub username : List ℕ
  pub outq : List (List ℕ)

unfoldable pub new_tcp_session : TcpSession
new_tcp_session = record { token = []; user_id = 0; username = []; outq = [] }

unfoldable pub is_authenticated : TcpSession → Bool
is_authenticated s = not (length s.token == 0)

unfoldable pub set_auth : TcpSession → List ℕ → ℕ → List ℕ → TcpSession
set_auth s token user_id username = record s {
  token = token;
  user_id = user_id;
  username = username;
}

unfoldable pub clear_auth : TcpSession → TcpSession
clear_auth s = record s { token = []; user_id = 0; username = [] }

-- The session objects that are alive, and `sessions_`: token to weak pointer.
abbrev pub Objects : Type 0
Objects = Dict ℕ TcpSession

abbrev pub Registry : Type 0
Registry = Dict (List ℕ) ℕ

unfoldable pub add_session : Registry → List ℕ → ℕ → Registry
add_session sessions token self = insert token self sessions

unfoldable pub remove_session : Registry → List ℕ → Registry
remove_session sessions token = erase token sessions

-- `remove_session(std::shared_ptr<TcpSession>)`: expired entries on the way go too.
unfoldable pub remove_session_object : Registry → Objects → ℕ → Registry
remove_session_object [] objects self = []
remove_session_object ((token, id) ∷ rest) objects self =
    let later = remove_session_object rest objects self in
    elim (find id objects) [
      | none ↦ later
      | some s ↦ if id == self then rest else (token, id) ∷ later
    ]

-- The walk that `get_online_usernames` and `count` share drops expired entries.
unfoldable pub drop_expired : Registry → Objects → Registry
drop_expired [] objects = []
drop_expired ((token, id) ∷ rest) objects =
    let later = drop_expired rest objects in
    elim (find id objects) [ none ↦ later | some s ↦ (token, id) ∷ later ]

unfoldable pub online_usernames : Registry → Objects → List (List ℕ)
unfolding is_authenticated
online_usernames [] objects = []
online_usernames ((token, id) ∷ rest) objects =
    let later = online_usernames rest objects in
    elim (find id objects) [
      | none ↦ later
      | some s ↦ if is_authenticated s then s.username ∷ later else later
    ]

unfoldable pub get_online_usernames : Registry → Objects → Registry × List (List ℕ)
unfolding drop_expired online_usernames
get_online_usernames sessions objects =
    (drop_expired sessions objects, online_usernames sessions objects)

unfoldable pub count_authenticated : Registry → Objects → ℕ
unfolding is_authenticated
count_authenticated [] objects = 0
count_authenticated ((token, id) ∷ rest) objects =
    let later = count_authenticated rest objects in
    elim (find id objects) [
      | none ↦ later
      | some s ↦ if is_authenticated s then later + 1 else later
    ]

unfoldable pub count : Registry → Objects → Registry × ℕ
unfolding drop_expired count_authenticated
count sessions objects = (drop_expired sessions objects, count_authenticated sessions objects)

-- The live object that a token leads to.
unfoldable pub get_session : Registry → Objects → List ℕ → Option ℕ
get_session sessions objects token = elim (find token sessions) [
  | none ↦ none
  | some id ↦ elim (find id objects) [ none ↦ none | some s ↦ some id ]
]
