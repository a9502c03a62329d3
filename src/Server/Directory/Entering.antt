-- ===== src/Server/Directory/Entering.antt =====
-- What a successful login does to the registry: `TcpSession::handle_message` on LOGIN_REQ
-- (`core/src/net/tcp_session.cpp`), seen through the directory.
use computer_network_final_p.Base.{
  ℕ, ◌≡◌, ◌≢◌, refl, sym, ap, ◌∙◌, true, not, Bool-cases, inl, inr, some, Option-cases, List, [],
  ◌∷◌, length, ◌==◌, ==_iff, eq_bytes, if◌then◌else◌, subst, arith,
}
use computer_network_final_p.Base.Dict.{find, adjust, nat_eq, bytes_eq, beq_self, find-adjust}
use computer_network_final_p.Protocol.LoginResp.{LoginResp}
use computer_network_final_p.Db.{Services}
use computer_network_final_p.Server.Sessions.{
  TcpSession, Objects, Registry, is_authenticated, set_auth, add_session, count, get_session,
}
use computer_network_final_p.Server.{World, self_of}
use computer_network_final_p.Server.Dispatch.{enter}
use computer_network_final_p.Server.Online.{self_of-live}
use computer_network_final_p.Server.Directory.{
  adds, counts, Members, call, calls, meant, all_meant, is_there, entered, view, IsMap, IsClear,
  AllClear,
}
use computer_network_final_p.Server.Directory.Lookup.{live_one, get_session-live_one}
use computer_network_final_p.Server.Directory.Refine.{calls-IsMap, view-calls}

-- A change of a session object leaves what the tokens lead to.
get_session-adjust :
    (sessions : Registry) (objects : Objects) (self : ℕ) (f : TcpSession → TcpSession)
    (s : TcpSession)
    → find self objects ≡ some s
    → (token : List ℕ)
    → get_session sessions (adjust self f objects) token ≡ get_session sessions objects token
unfolding live_one is_there entered
get_session-adjust sessions objects self f s live token =
    get_session-live_one sessions (adjust self f objects) token
    ∙ (elim (Option-cases (find token sessions)) [
      | inl absent ↦ rw absent refl
      | inr (j, found) ↦
          rw (found, find-adjust self f objects s live j)
            (elim (Bool-cases (self == j)) [
              | inr other ↦ rw other refl
              | inl same ↦
                  let there : find j objects ≡ some s =
                    subst (λ k. find k objects ≡ some s) ((==_iff self j).0 same) live in
                  rw (same, there) refl
            ])
    ])
    ∙ sym (get_session-live_one sessions objects token)

module _ {S : Services} (w : World S) (self : ℕ) (s : TcpSession) (resp : LoginResp)
    (live : find self w.objects ≡ some s) (nonempty : resp.token ≢ [])
    (one_each : IsMap w.sessions) where
  abbrev granted : TcpSession → TcpSession
  granted s = set_auth s resp.token resp.user_id resp.username

  abbrev between : Members
  between = record { sessions = w.sessions; objects = adjust self granted w.objects }

  still : find self (adjust self granted w.objects) ≡ some (granted s)
  still = find-adjust self granted w.objects s live self ∙ rw (beq_self self)

  filled : (token : List ℕ) → token ≢ [] → not (length token == 0) ≡ true
  filled [] nonempty = absurd (nonempty refl)
  filled (c ∷ rest) nonempty = ground arith

  -- After a successful login of a live session with a token that is not empty, on a registry with one entry
  -- for a token, the session is authenticated; its token leads to it, every other token leads to
  -- where it led before, if anywhere; and the registry has one entry for a token.
  pub get_session-enter :
      (token : List ℕ)
      → let w' = enter w self resp in
        (is_authenticated (self_of w' self) ≡ true)
        × (get_session w'.sessions w'.objects token ≡ (
            if eq_bytes resp.token token
            then some self
            else get_session w.sessions w.objects token))
        × IsMap w'.sessions
  unfolding enter is_authenticated set_auth call calls meant all_meant view is_there entered
      add_session count AllClear IsClear
  get_session-enter token =
      let cs = adds resp.token self ∷ counts ∷ [] in
      let seen = ap (λ d. d.session token) (view-calls cs between one_each (tt, (tt, tt))) in
      (
        rw (self_of-live (enter w self resp) self (granted s) still) (filled resp.token nonempty),
        seen ∙ (elim (Bool-cases (eq_bytes resp.token token)) [
          | inl same ↦ rw (same, still) refl
          | inr other ↦ rw other (get_session-adjust w.sessions w.objects self granted s live token)
        ]),
        calls-IsMap cs between one_each,
      )
