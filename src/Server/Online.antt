-- ===== src/Server/Online.antt =====
-- The registry of sessions: who is online, and who leaves.
use computer_network_final_p.Base.{
  ℕ, ◌≡◌, refl, ap, ◌∙◌, inl, inr, true, false, Bool-cases, none, some, Option-cases, List, [], ◌∷◌,
  length, arith,
}
use computer_network_final_p.Base.Dict.{
  find, adjust, nat_eq, bytes_eq, beq_self, find-erase, find-adjust,
}
use computer_network_final_p.Db.{Services}
use computer_network_final_p.Server.Sessions.{
  TcpSession, Objects, Registry, is_authenticated, clear_auth, remove_session, drop_expired,
  online_usernames, get_online_usernames, count_authenticated, count, get_session,
}
use computer_network_final_p.Server.{World, self_of, drop_auth}

module _ (token : List ℕ) (id : ℕ) (rest : Registry) (objects : Objects) where
  pub drop_expired_gone :
      find id objects ≡ none → drop_expired ((token, id) ∷ rest) objects ≡ drop_expired rest objects
  unfolding drop_expired
  drop_expired_gone gone = rw (gone, drop_expired)

  pub drop_expired_live :
      (s : TcpSession)
      → find id objects ≡ some s
      → drop_expired ((token, id) ∷ rest) objects ≡ (token, id) ∷ drop_expired rest objects
  unfolding drop_expired
  drop_expired_live s live = rw (live, drop_expired)

-- The number that `count` gives is the number of the names that are listed, and the two drop the same
-- entries.
pub count-get_online_usernames :
    (sessions : Registry) (objects : Objects)
    → let (kept, usernames) = get_online_usernames sessions objects in
      count sessions objects ≡ (kept, length usernames)
unfolding count get_online_usernames count_authenticated online_usernames
count-get_online_usernames sessions objects =
    ap (λ n. (drop_expired sessions objects, n)) (same sessions)
  where
    same :
        (sessions : Registry)
        → count_authenticated sessions objects ≡ length (online_usernames sessions objects)
    same [] = refl
    same ((token, id) ∷ rest) = elim (Option-cases (find id objects)) [
      | inl gone ↦ rw (gone, count_authenticated, online_usernames) (same rest)
      | inr (s, live) ↦
          rw (live, count_authenticated, online_usernames)
            (elim (Bool-cases (is_authenticated s)) [
              | inl here ↦ rw here (omega (arith, same rest))
              | inr away ↦ rw away (same rest)
            ])
    ]

get_session-none :
    (sessions : Registry) (objects : Objects) (token : List ℕ)
    → find token sessions ≡ none
    → get_session sessions objects token ≡ none
unfolding get_session
get_session-none sessions objects token absent = rw (absent, get_session)

pub self_of-live :
    {S : Services} (w : World S) (self : ℕ) (s : TcpSession)
    → find self w.objects ≡ some s
    → self_of w self ≡ s
unfolding self_of
self_of-live w self s live = rw (live, self_of)

module _ {S : Services} (w : World S) (self : ℕ) (s : TcpSession)
    (live : find self w.objects ≡ some s) where
  -- After the end of a connection whose live session was authenticated, its token leads nowhere and the
  -- session is not authenticated.
  pub drop_auth-get_session :
      is_authenticated s ≡ true
      → let w' = drop_auth w self in
        (get_session w'.sessions w'.objects s.token ≡ none)
        × (is_authenticated (self_of w' self) ≡ false)
  unfolding drop_auth count clear_auth remove_session is_authenticated
  drop_auth-get_session here = rw dropped (
    get_session-none _ after.objects s.token
        (find-erase s.token s.token (drop_expired w.sessions w.objects) ∙ rw (beq_self s.token)),
    rw (
        self_of-live after self (clear_auth s)
          (find-adjust self clear_auth w.objects s live self ∙ rw (beq_self self))),
  )
    where
      after : World S
      after = record w {
        sessions = remove_session ((count w.sessions w.objects).0) s.token;
        objects = adjust self clear_auth w.objects;
      }

      dropped : drop_auth w self ≡ after
      dropped = rw (self_of-live w self s live, here)
