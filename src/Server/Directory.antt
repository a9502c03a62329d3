-- ===== src/Server/Directory.antt =====
-- What the registry of sessions means to those who look a token up: from a token to the live session that it
-- was last added for. `SessionManager` of `core/src/net/session_manager.cpp` keeps this however its expired
-- entries come and go.
pub mod Lookup
pub mod Refine
pub mod Entering
use computer_network_final_p.Base.{
  ℕ, ◌≡◌, refl, sym, ap, ◌∙◌, subst, Bool, true, false, Bool-cases, inl, inr, Option, none, some,
  Option-cases, List, [], ◌∷◌, ◌==◌, ==_iff, eq_bytes, eq_bytes→eq, eq_bytes_refl, if◌then◌else◌,
}
use computer_network_final_p.Base.Dict.{
  find, insert, erase, nat_eq, bytes_eq, find-insert, find-erase,
}
use computer_network_final_p.Server.Online.{drop_expired_gone, drop_expired_live}
use computer_network_final_p.Server.Sessions.{
  TcpSession, Objects, Registry, add_session, remove_session, remove_session_object, drop_expired,
  get_online_usernames, count, get_session,
}

-- The calls of the manager, both overloads of `remove_session` among them, and the end of a session object.
pub data Call : Type 0 where
  adds : List ℕ → ℕ → Call
  removes : List ℕ → Call
  leaves : ℕ → Call
  lists : Call
  counts : Call
  dies : ℕ → Call

pub record Members : Type 0 where
  pub sessions : Registry
  pub objects : Objects

unfoldable pub call : Call → Members → Members
unfolding add_session remove_session remove_session_object get_online_usernames count
call (adds token id) m = record m { sessions = add_session m.sessions token id }
call (removes token) m = record m { sessions = remove_session m.sessions token }
call (leaves id) m = record m { sessions = remove_session_object m.sessions m.objects id }
call lists m = record m { sessions = (get_online_usernames m.sessions m.objects).0 }
call counts m = record m { sessions = (count m.sessions m.objects).0 }
call (dies id) m = record m { objects = erase id m.objects }

unfoldable pub calls : List Call → Members → Members
unfolding call
calls [] m = m
calls (c ∷ rest) m = calls rest (call c m)

-- The abstract directory: which sessions live, and the live session of a token.
pub record Directory : Type 0 where
  pub alive : ℕ → Bool
  pub session : List ℕ → Option ℕ

unfoldable pub is_there : {A : Type 0} → Option A → Bool
is_there none = false
is_there (some a) = true

-- The part of an entry that a death leaves.
unfoldable pub without : ℕ → Option ℕ → Option ℕ
without id none = none
without id (some j) = if id == j then none else some j

unfoldable pub entered : Bool → ℕ → Option ℕ
entered true id = some id
entered false id = none

unfoldable pub meant : Call → Directory → Directory
unfolding without entered
meant (adds token id) d = record d {
  session = λ u. (if eq_bytes token u then entered (d.alive id) id else d.session u);
}
meant (removes token) d = record d {
  session = λ u. (if eq_bytes token u then none else d.session u);
}
meant (leaves id) d = record d { session = λ u. without id (d.session u) }
meant lists d = d
meant counts d = d
meant (dies id) d = record {
  alive = λ j. (if id == j then false else d.alive j);
  session = λ u. without id (d.session u);
}

unfoldable pub all_meant : List Call → Directory → Directory
unfolding meant
all_meant [] d = d
all_meant (c ∷ rest) d = all_meant rest (meant c d)

unfoldable pub view : Members → Directory
unfolding is_there
view m = record {
  alive = λ id. is_there (find id m.objects);
  session = get_session m.sessions m.objects;
}

-- `remove_session` with a session erases the first entry of that session only: what it means is clear where at
-- most one token leads to the session.
unfoldable pub IsClear : Call → Directory → Type 0
IsClear (leaves id) d = (t u : List ℕ) → d.session t ≡ some id → d.session u ≡ some id → t ≡ u
IsClear _ d = Unit

unfoldable pub AllClear : List Call → Directory → Type 0
unfolding IsClear meant
AllClear [] d = Unit
AllClear (c ∷ rest) d = IsClear c d × AllClear rest (meant c d)

-- A registry has one entry for a token.
unfoldable pub IsMap : Registry → Type 0
IsMap [] = Unit
IsMap ((t, id) ∷ rest) = (find t rest ≡ none) × IsMap rest
