-- ===== src/Server/Directory/Lookup.antt =====
-- What the entry of a token comes to, and the overload of `SessionManager::remove_session` that is given a
-- session (`core/src/net/session_manager.cpp`).
use computer_network_final_p.Base.{
  ℕ, ◌≡◌, ◌≢◌, refl, sym, ap, ◌∙◌, subst, true, false, Bool-cases, inl, inr, Option, none, some,
  Option-cases, List, [], ◌∷◌, ◌==◌, ==_iff, eq_bytes, eq_bytes→eq, eq_bytes_refl, arith,
}
use computer_network_final_p.Base.Dict.{find, nat_eq, bytes_eq}
use computer_network_final_p.Server.Sessions.{
  TcpSession, Objects, Registry, remove_session_object, get_session,
}
use computer_network_final_p.Server.Directory.{is_there, without, entered, IsMap}

-- What `get_session` makes of the entry of a token.
unfoldable pub live_one : Objects → Option ℕ → Option ℕ
unfolding is_there entered
live_one objects none = none
live_one objects (some id) = entered (is_there (find id objects)) id

pub get_session-live_one :
    (sessions : Registry) (objects : Objects) (token : List ℕ)
    → get_session sessions objects token ≡ live_one objects (find token sessions)
unfolding get_session live_one is_there entered
get_session-live_one sessions objects token = elim (Option-cases (find token sessions)) [
  | inl absent ↦ rw (absent, get_session, live_one) refl
  | inr (id, found) ↦ elim (Option-cases (find id objects)) [
    | inl gone ↦ rw (found, get_session, live_one, gone) refl
    | inr (s, live) ↦ rw (found, get_session, live_one, live) refl
  ]
]

pub eq_bytes_sym : (a b : List ℕ) → eq_bytes b a ≡ false → eq_bytes a b ≡ false
eq_bytes_sym a b differ = elim (Bool-cases (eq_bytes a b)) [
  | inl same ↦
      absurd
        (let e = subst (λ c. eq_bytes c a ≡ true) (eq_bytes→eq a b same) (eq_bytes_refl a) in cc)
  | inr other ↦ other
]

-- A session that no token leads to does not change what the others lead to.
without-apart : (id : ℕ) (o : Option ℕ) → o ≢ some id → without id o ≡ o
unfolding without
without-apart id none apart = refl
without-apart id (some j) apart = elim (Bool-cases (id == j)) [
  | inl same ↦ absurd (apart (ap some (sym ((==_iff id j).0 same))))
  | inr other ↦ rw other refl
]

module _ (objects : Objects) (self : ℕ) where
  -- At most one token leads to the session.
  abbrev pub IsSole : Registry → Type 0
  IsSole sessions =
      (t u : List ℕ)
      → live_one objects (find t sessions) ≡ some self
      → live_one objects (find u sessions) ≡ some self
      → t ≡ u

  cons_live :
      (t : List ℕ) (j : ℕ) (rest : Registry) (u : List ℕ)
      → find t rest ≡ none
      → live_one objects (find u rest) ≡ some self
      → live_one objects (find u ((t, j) ∷ rest)) ≡ some self
  unfolding find live_one
  cons_live t j rest u absent leads = elim (Bool-cases (eq_bytes t u)) [
    | inr other ↦ rw other leads
    | inl same ↦ absurd (
        let e = subst (λ k. find k rest ≡ none) (eq_bytes→eq t u same) absent in
        let e1 = rw e at leads in cc)
  ]

  tail-IsSole :
      (t : List ℕ) (j : ℕ) (rest : Registry)
      → find t rest ≡ none
      → IsSole ((t, j) ∷ rest)
      → IsSole rest
  tail-IsSole t j rest absent sole a b leads_a leads_b =
      sole a b (cons_live t j rest a absent leads_a) (cons_live t j rest b absent leads_b)

  module _ (t : List ℕ) (j : ℕ) (rest : Registry) where
    remove_gone :
        find j objects ≡ none
        → remove_session_object ((t, j) ∷ rest) objects self
          ≡ remove_session_object rest objects self
    unfolding remove_session_object
    remove_gone gone = rw (gone, remove_session_object)

    remove_found :
        (s : TcpSession)
        → find j objects ≡ some s
        → (j == self) ≡ true
        → remove_session_object ((t, j) ∷ rest) objects self ≡ rest
    unfolding remove_session_object
    remove_found s live here = rw (live, remove_session_object, here)

    remove_kept :
        (s : TcpSession)
        → find j objects ≡ some s
        → (j == self) ≡ false
        → remove_session_object ((t, j) ∷ rest) objects self
          ≡ (t, j) ∷ remove_session_object rest objects self
    unfolding remove_session_object
    remove_kept s live elsewhere = rw (live, remove_session_object, elsewhere)

    -- Behind the entry of the session no other leads to it.
    found_alone :
        (s : TcpSession) (u : List ℕ)
        → find j objects ≡ some s
        → j ≡ self
        → eq_bytes t u ≡ false
        → find t rest ≡ none
        → IsSole ((t, j) ∷ rest)
        → live_one objects (find u rest) ≢ some self
    unfolding find live_one is_there entered
    found_alone s u live here other absent sole leads =
        let leads_t : live_one objects (find t ((t, j) ∷ rest)) ≡ some self =
          rw (eq_bytes_refl t, live) (ap some here) in
        let same = sole t u leads_t (cons_live t j rest u absent leads) in
        let e = subst (λ k. eq_bytes t k ≡ true) same (eq_bytes_refl t) in cc

  -- The session loses its token, and no other token what it leads to.
  pub live_one-remove_session_object :
      (sessions : Registry) (u : List ℕ)
      → IsMap sessions
      → IsSole sessions
      → live_one objects (find u (remove_session_object sessions objects self))
        ≡ without self (live_one objects (find u sessions))
  unfolding find live_one IsMap is_there entered without
  live_one-remove_session_object [] u h sole = unfold remove_session_object in refl
  live_one-remove_session_object ((t, j) ∷ rest) u (absent, more) sole =
      let later = live_one-remove_session_object rest u more (tail-IsSole t j rest absent sole) in
      let behind : eq_bytes t u ≡ true → find u rest ≡ none =
        λ same. subst (λ k. find k rest ≡ none) (eq_bytes→eq t u same) absent in
      elim (Option-cases (find j objects)) [
        | inl gone ↦ rw (remove_gone t j rest gone) (elim (Bool-cases (eq_bytes t u)) [
          | inl same ↦ later ∙ (rw (same, behind same, gone) refl)
          | inr other ↦ rw other later
        ])
        | inr (s, live) ↦ elim (Bool-cases (j == self)) [
          | inl here ↦
              let at_self = (==_iff j self).0 here in
              rw (remove_found t j rest s live here) (elim (Bool-cases (eq_bytes t u)) [
                | inl same ↦
                    let back : (self == j) ≡ true = (==_iff self j).1 (sym at_self) in
                    rw (same, behind same, live, back) refl
                | inr other ↦ rw other (
                    sym (
                      without-apart self _
                        (found_alone t j rest s u live at_self other absent sole)))
              ])
          | inr elsewhere ↦
              rw (remove_kept t j rest s live elsewhere) (elim (Bool-cases (eq_bytes t u)) [
                | inl same ↦
                    let back : (self == j) ≡ false = ground (arith, elsewhere) in
                    rw (same, live, back) refl
                | inr other ↦ rw other later
              ])
        ]
      ]

  find-remove_session_object_absent :
      (sessions : Registry) (token : List ℕ)
      → find token sessions ≡ none
      → find token (remove_session_object sessions objects self) ≡ none
  unfolding find
  find-remove_session_object_absent [] token absent = unfold remove_session_object in refl
  find-remove_session_object_absent ((t, j) ∷ rest) token absent =
      elim (Bool-cases (eq_bytes t token)) [
        | inl same ↦ absurd (let e = rw same at absent in cc)
        | inr other ↦
            let behind = rw other at absent in
            let later = find-remove_session_object_absent rest token behind in
            elim (Option-cases (find j objects)) [
              | inl gone ↦ rw (remove_gone t j rest gone) later
              | inr (s, live) ↦ elim (Bool-cases (j == self)) [
                | inl here ↦ rw (remove_found t j rest s live here) behind
                | inr elsewhere ↦ rw (remove_kept t j rest s live elsewhere, other) later
              ]
            ]
      ]

  pub remove_session_object-IsMap :
      (sessions : Registry) → IsMap sessions → IsMap (remove_session_object sessions objects self)
  unfolding IsMap
  remove_session_object-IsMap [] h = unfold remove_session_object in tt
  remove_session_object-IsMap ((t, j) ∷ rest) (absent, more) =
      elim (Option-cases (find j objects)) [
        | inl gone ↦ rw (remove_gone t j rest gone) (remove_session_object-IsMap rest more)
        | inr (s, live) ↦ elim (Bool-cases (j == self)) [
          | inl here ↦ rw (remove_found t j rest s live here) more
          | inr elsewhere ↦ rw (remove_kept t j rest s live elsewhere) (
            find-remove_session_object_absent rest t absent,
            remove_session_object-IsMap rest more,
          )
        ]
      ]
