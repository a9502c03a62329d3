-- ===== src/Server/Listing.antt =====
-- ONLINE_LIST_REQ: who is named in the answer, in `core/src/net/tcp_session.cpp` and
-- `core/src/net/session_manager.cpp`.
use computer_network_final_p.Base.{
  ℕ, ◌%◌, ◌^◌, ◌<◌, ◌≤◌, ◌≡◌, ◌↔◌, ◌⊎◌, refl, sym, ap, ◌∙◌, subst, true, false, Bool-cases, inl,
  inr, none, some, Option-cases, List, [], ◌∷◌, ◌++◌, length, All, Result, ok, arith,
}
use computer_network_final_p.Base.Dict.{find, nat_eq, find-adjust_self}
use mathlib.Core.List.{Memᴰ}
use mathlib.Core.List.Memᴰ
use computer_network_final_p.Wire.{little}
use computer_network_final_p.Protocol.Message.{
  make_header, header_bytes, online_list_req, online_list_resp,
}
use computer_network_final_p.Protocol.Fields.{FitsU16}
use computer_network_final_p.Protocol.OnlineListResp
use computer_network_final_p.Protocol.RoundTrip.OnlineList.{deserialize-serialize_usernames}
use computer_network_final_p.Auth.PasswordHash.{HexReader}
use computer_network_final_p.Db.{Services}
use computer_network_final_p.Server.Sessions.{
  TcpSession, Objects, Registry, is_authenticated, online_usernames, get_online_usernames,
}
use computer_network_final_p.Server.{World, FileAnswers, send}
use computer_network_final_p.Server.Dispatch.{handle_message, handle_online_list}

-- A session of this name that the registry has, that is there, and that is logged in.
pub record Online (sessions : Registry) (objects : Objects) (username : List ℕ) : Type 0 where
  pub token : List ℕ
  pub id : ℕ
  pub session : TcpSession
  pub registered : Memᴰ (token, id) sessions
  pub live : find id objects ≡ some session
  pub authenticated : is_authenticated session ≡ true
  pub named : session.username ≡ username

module _ (objects : Objects) where
  Online-tail :
      (token : List ℕ) (id : ℕ) (rest : Registry) (username : List ℕ)
      → Online rest objects username
      → Online ((token, id) ∷ rest) objects username
  Online-tail token id rest username o = record {
    token = o.token;
    id = o.id;
    session = o.session;
    registered = Memᴰ.tail o.registered;
    live = o.live;
    authenticated = o.authenticated;
    named = o.named;
  }

  -- The first entry of the registry is passed over, or a session that is online is listed.
  online_usernames-cases :
      (token : List ℕ) (id : ℕ) (rest : Registry)
      → (((s : TcpSession) → find id objects ≡ some s → is_authenticated s ≡ false)
          × (online_usernames ((token, id) ∷ rest) objects ≡ online_usernames rest objects))
        ⊎ ((s : TcpSession) × (find id objects ≡ some s)
            × (is_authenticated s ≡ true)
            × (online_usernames ((token, id) ∷ rest) objects
                ≡ s.username ∷ online_usernames rest objects))
  unfolding online_usernames
  online_usernames-cases token id rest = elim (Option-cases (find id objects)) [
    | inl gone ↦ inl ((λ s live. absurd cc), rw (gone, online_usernames))
    | inr (s, live) ↦ elim (Bool-cases (is_authenticated s)) [
      | inl here ↦ inr (s, live, here, rw (live, here, online_usernames))
      | inr away ↦ inl (
        (λ u alive.
            (let same : some s ≡ some u = sym live ∙ alive in
              subst (λ o. elim o [ none ↦ Unit | some v ↦ is_authenticated v ≡ false ]) same away)),
        rw (live, away, online_usernames),
      )
    ]
  ]

  -- Every name that is listed is that of a session that is online.
  online_usernames-Online :
      (sessions : Registry) (username : List ℕ)
      → Memᴰ username (online_usernames sessions objects)
      → Online sessions objects username
  unfolding online_usernames
  online_usernames-Online [] username listed = absurd (Memᴰ.not-nil listed)
  online_usernames-Online ((token, id) ∷ rest) username listed =
      let later = λ (found : Memᴰ username (online_usernames rest objects)).
        Online-tail token id rest username (online_usernames-Online rest username found) in
      elim (online_usernames-cases token id rest) [
        | inl (away, e) ↦ later (subst (Memᴰ username) e listed)
        | inr (s, live, here, e) ↦ elim (Memᴰ.cases_cons (subst (Memᴰ username) e listed)) [
          | inl same ↦ record {
            token = token;
            id = id;
            session = s;
            registered = Memᴰ.head refl;
            live = live;
            authenticated = here;
            named = sym same;
          }
          | inr found ↦ later found
        ]
      ]

  some_username : {s u : TcpSession} → some s ≡ some u → s.username ≡ u.username
  some_username {s} e = ap (λ o. elim o [ none ↦ s.username | some v ↦ v.username ]) e

  -- Every session that is online has its name listed.
  Online-online_usernames :
      (sessions : Registry) (token : List ℕ) (id : ℕ) (s : TcpSession)
      → Memᴰ (token, id) sessions
      → find id objects ≡ some s
      → is_authenticated s ≡ true
      → Memᴰ s.username (online_usernames sessions objects)
  Online-online_usernames [] token id s registered live here = absurd (Memᴰ.not-nil registered)
  Online-online_usernames ((t, j) ∷ rest) token id s registered live here =
      elim (Memᴰ.cases_cons registered) [
        | inl same ↦
            let there : find j objects ≡ some s =
              subst (λ i. find i objects ≡ some s) (ap (λ p. p.1) same) live in
            elim (online_usernames-cases t j rest) [
              | inl (away, e) ↦ absurd (let out = away s there in cc)
              | inr (u, alive, inside, e) ↦
                  let same_session : some s ≡ some u = sym there ∙ alive in
                  rw e (Memᴰ.head (some_username same_session))
            ]
        | inr found ↦
            let later = Online-online_usernames rest token id s found live here in
            elim (online_usernames-cases t j rest) [
              | inl (away, e) ↦ rw e later
              | inr (u, alive, inside, e) ↦ rw e (Memᴰ.tail later)
            ]
      ]

  length-online_usernames :
      (sessions : Registry) → length (online_usernames sessions objects) ≤ length sessions
  unfolding online_usernames
  length-online_usernames [] = omega arith
  length-online_usernames ((token, id) ∷ rest) =
      let later = length-online_usernames rest in
      elim (online_usernames-cases token id rest) [
        | inl (away, e) ↦ rw e (omega (arith, later))
        | inr (s, live, here, e) ↦ rw e (omega (arith, later))
      ]

  online_usernames-FitsU16 :
      ((id : ℕ) (s : TcpSession) → find id objects ≡ some s → FitsU16 s.username)
      → (sessions : Registry) → All FitsU16 (online_usernames sessions objects)
  unfolding online_usernames
  online_usernames-FitsU16 fits [] = tt
  online_usernames-FitsU16 fits ((token, id) ∷ rest) =
      let later = online_usernames-FitsU16 fits rest in
      elim (online_usernames-cases token id rest) [
        | inl (away, e) ↦ rw e later
        | inr (s, live, here, e) ↦ rw e (fits id s live, later)
      ]

-- The outcome `r` of an ONLINE_LIST_REQ of the session `self`, which was `s`: one ONLINE_LIST_RESP at the end
-- of its queue, and who is in the list that is read from its payload.
pub record Listed {S : Services} (w : World S) (self : ℕ) (s : TcpSession) (r : Result (World S))
    : Type 1 where
  pub after : World S
  pub answer : List ℕ
  pub usernames : List (List ℕ)
  pub handled : r ≡ ok after
  pub queued :
      find self after.objects
      ≡ some (record s {
        outq =
            s.outq
            ++ ((header_bytes little (make_header little online_list_resp (length answer % 2 ^ 32))
                  ++ answer)
                ∷ []);
      })
  pub read_back : OnlineListResp.deserialize little answer ≡ ok usernames
  pub exact : (username : List ℕ) → Memᴰ username usernames ↔ Online w.sessions w.objects username

module _ {S : Services} (read : HexReader) (a : FileAnswers) (w : World S) (self : ℕ)
    (s : TcpSession) (live : find self w.objects ≡ some s) where
  -- With fewer than 65536 entries in the registry and names shorter than 65536 bytes, an
  -- ONLINE_LIST_REQ of a live session, whatever its payload is, puts one ONLINE_LIST_RESP at the end of
  -- its queue. Its payload is read back as a list of names, and a name is in the list exactly where
  -- the registry has a live session of this name that is logged in.
  pub handle_message-Listed :
      length w.sessions < 65536
      → ((id : ℕ) (u : TcpSession) → find id w.objects ≡ some u → FitsU16 u.username)
      → (payload : List ℕ) → Listed w self s (handle_message read a w self online_list_req payload)
  unfolding handle_message handle_online_list send get_online_usernames
  handle_message-Listed few fits payload =
      let usernames = online_usernames w.sessions w.objects in
      record {
        after = handle_online_list w self;
        answer = OnlineListResp.serialize little usernames;
        usernames = usernames;
        handled = refl;
        queued = find-adjust_self self _ w.objects s live;
        read_back =
            deserialize-serialize_usernames little usernames
              (omega (arith, few, length-online_usernames w.objects w.sessions))
              (online_usernames-FitsU16 w.objects fits w.sessions);
        exact = λ username. (
          online_usernames-Online w.objects w.sessions username,
          λ o.
              subst (λ name. Memᴰ name usernames) o.named
                (Online-online_usernames w.objects w.sessions o.token o.id o.session o.registered
                  o.live o.authenticated),
        );
      }
