-- ===== src/Server/Directory/Refine.antt =====
-- The registry of sessions refines the directory.
use computer_network_final_p.Base.{
  ℕ, ◌≡◌, refl, sym, ap, ◌∙◌, subst, Bool, true, false, Bool-cases, inl, inr, Option, none, some,
  Option-cases, List, [], ◌∷◌, ◌==◌, eq_bytes, eq_bytes→eq, if◌then◌else◌,
}
use computer_network_final_p.Base.Dict.{
  find, insert, erase, nat_eq, bytes_eq, find-insert, find-erase,
}
use computer_network_final_p.Server.Online.{drop_expired_gone, drop_expired_live}
use computer_network_final_p.Server.Sessions.{
  Objects, Registry, add_session, remove_session, drop_expired, get_online_usernames, count,
  get_session,
}
use computer_network_final_p.Server.Directory.{
  Call, adds, removes, leaves, lists, counts, dies, Members, call, calls, is_there, without,
  entered, meant, all_meant, view, IsMap, IsClear, AllClear,
}
use computer_network_final_p.Server.Directory.Lookup.{
  live_one, get_session-live_one, eq_bytes_sym, live_one-remove_session_object,
  remove_session_object-IsMap,
}

is_there-erase :
    (objects : Objects) (id j : ℕ)
    → is_there (find j (erase id objects)) ≡ (if id == j then false else is_there (find j objects))
unfolding is_there
is_there-erase objects id j =
    ap is_there (find-erase id j objects)
    ∙ (elim (Bool-cases (id == j)) [ inl same ↦ rw same refl | inr other ↦ rw other refl ])

without-entered :
    (same alive : Bool) (id j : ℕ)
    → (id == j) ≡ same
    → entered (if same then false else alive) j ≡ without id (entered alive j)
unfolding without entered
without-entered true true id j e = rw e refl
without-entered true false id j e = refl
without-entered false true id j e = rw e refl
without-entered false false id j e = refl

live_one-erase :
    (objects : Objects) (id : ℕ) (o : Option ℕ)
    → live_one (erase id objects) o ≡ without id (live_one objects o)
unfolding live_one without
live_one-erase objects id none = refl
live_one-erase objects id (some j) =
    ap (λ b. entered b j) (is_there-erase objects id j) ∙ without-entered (id == j) _ id j refl

insert-IsMap : (token : List ℕ) (id : ℕ) (m : Registry) → IsMap m → IsMap (insert token id m)
unfolding IsMap insert find
insert-IsMap token id [] h = (refl, tt)
insert-IsMap token id ((t, j) ∷ rest) (absent, more) = elim (Bool-cases (eq_bytes t token)) [
  | inl same ↦ rw same (rw (eq_bytes→eq t token same) at absent, more)
  | inr other ↦ rw other (
    find-insert token t id rest ∙ (rw (eq_bytes_sym token t other) absent),
    insert-IsMap token id rest more,
  )
]

erase-IsMap : (token : List ℕ) (m : Registry) → IsMap m → IsMap (erase token m)
unfolding IsMap erase find
erase-IsMap token [] h = tt
erase-IsMap token ((t, j) ∷ rest) (absent, more) = elim (Bool-cases (eq_bytes t token)) [
  | inl same ↦ rw same (erase-IsMap token rest more)
  | inr other ↦ rw other (
    find-erase token t rest ∙ (rw (eq_bytes_sym token t other) absent),
    erase-IsMap token rest more,
  )
]

-- Expired entries meant nothing.
live_one-drop_expired :
    (sessions : Registry) (objects : Objects) (token : List ℕ)
    → IsMap sessions
    → live_one objects (find token (drop_expired sessions objects))
      ≡ live_one objects (find token sessions)
unfolding find live_one IsMap is_there entered
live_one-drop_expired [] objects token h = unfold drop_expired in refl
live_one-drop_expired ((t, j) ∷ rest) objects token (absent, more) =
    let later = live_one-drop_expired rest objects token more in
    elim (Option-cases (find j objects)) [
      | inl gone ↦
          rw (drop_expired_gone t j rest objects gone) (elim (Bool-cases (eq_bytes t token)) [
            | inl same ↦
                let none_later =
                  subst (λ k. find k rest ≡ none) (eq_bytes→eq t token same) absent in
                later ∙ (rw (same, none_later, gone) refl)
            | inr other ↦ rw other later
          ])
      | inr (s, live) ↦
          rw (drop_expired_live t j rest objects s live) (elim (Bool-cases (eq_bytes t token)) [
            | inl same ↦ rw same refl
            | inr other ↦ rw other later
          ])
    ]

-- Every call keeps one entry for a token.
find-drop_expired_absent :
    (sessions : Registry) (objects : Objects) (token : List ℕ)
    → find token sessions ≡ none
    → find token (drop_expired sessions objects) ≡ none
unfolding find
find-drop_expired_absent [] objects token absent = unfold drop_expired in refl
find-drop_expired_absent ((t, j) ∷ rest) objects token absent =
    elim (Bool-cases (eq_bytes t token)) [
      | inl same ↦ absurd (let e = rw same at absent in cc)
      | inr other ↦
          let later = find-drop_expired_absent rest objects token (rw other at absent) in
          elim (Option-cases (find j objects)) [
            | inl gone ↦ rw (drop_expired_gone t j rest objects gone) later
            | inr (s, live) ↦ rw (drop_expired_live t j rest objects s live, other) later
          ]
    ]

drop_expired-IsMap :
    (sessions : Registry) (objects : Objects)
    → IsMap sessions
    → IsMap (drop_expired sessions objects)
unfolding IsMap
drop_expired-IsMap [] objects h = unfold drop_expired in tt
drop_expired-IsMap ((t, j) ∷ rest) objects (absent, more) = elim (Option-cases (find j objects)) [
  | inl gone ↦ rw (drop_expired_gone t j rest objects gone) (drop_expired-IsMap rest objects more)
  | inr (s, live) ↦
      rw (drop_expired_live t j rest objects s live)
        (find-drop_expired_absent rest objects t absent, drop_expired-IsMap rest objects more)
]

call-IsMap : (c : Call) (m : Members) → IsMap m.sessions → IsMap ((call c m).sessions)
unfolding call add_session remove_session get_online_usernames count
call-IsMap (adds token id) m h = insert-IsMap token id m.sessions h
call-IsMap (removes token) m h = erase-IsMap token m.sessions h
call-IsMap (leaves id) m h = remove_session_object-IsMap m.objects id m.sessions h
call-IsMap lists m h = drop_expired-IsMap m.sessions m.objects h
call-IsMap counts m h = drop_expired-IsMap m.sessions m.objects h
call-IsMap (dies id) m h = h

pub calls-IsMap : (cs : List Call) (m : Members) → IsMap m.sessions → IsMap ((calls cs m).sessions)
unfolding calls
calls-IsMap [] m h = h
calls-IsMap (c ∷ rest) m h = calls-IsMap rest (call c m) (call-IsMap c m h)

-- What the entry of one token comes to.
abbrev looked_up : Members → List ℕ → Option ℕ
looked_up m token = get_session m.sessions m.objects token

dropped_still :
    (m : Members) (token : List ℕ)
    → IsMap m.sessions
    → get_session (drop_expired m.sessions m.objects) m.objects token ≡ looked_up m token
dropped_still m token h =
    get_session-live_one _ m.objects token
    ∙ (live_one-drop_expired m.sessions m.objects token h
        ∙ sym (get_session-live_one m.sessions m.objects token))

session-call :
    (c : Call) (m : Members) (token : List ℕ)
    → IsMap m.sessions
    → IsClear c (view m)
    → looked_up (call c m) token ≡ (meant c (view m)).session token
unfolding call meant view IsClear add_session remove_session get_online_usernames count
session-call (adds t id) m token h clear =
    get_session-live_one _ m.objects token
    ∙ (ap (live_one m.objects) (find-insert t token id m.sessions)
        ∙ (elim (Bool-cases (eq_bytes t token)) [
          | inl same ↦ rw same (unfold live_one in refl)
          | inr other ↦ rw other (sym (get_session-live_one m.sessions m.objects token))
        ]))
session-call (removes t) m token h clear =
    get_session-live_one _ m.objects token
    ∙ (ap (live_one m.objects) (find-erase t token m.sessions)
        ∙ (elim (Bool-cases (eq_bytes t token)) [
          | inl same ↦ rw same (unfold live_one in refl)
          | inr other ↦ rw other (sym (get_session-live_one m.sessions m.objects token))
        ]))
session-call (leaves id) m token h clear =
    get_session-live_one _ m.objects token
    ∙ (live_one-remove_session_object m.objects id m.sessions token h (λ t u leads_t leads_u.
          clear t u (get_session-live_one m.sessions m.objects t ∙ leads_t)
            (get_session-live_one m.sessions m.objects u ∙ leads_u))
        ∙ ap (without id) (sym (get_session-live_one m.sessions m.objects token)))
session-call lists m token h clear = dropped_still m token h
session-call counts m token h clear = dropped_still m token h
session-call (dies id) m token h clear =
    get_session-live_one m.sessions _ token
    ∙ (live_one-erase m.objects id (find token m.sessions)
        ∙ ap (without id) (sym (get_session-live_one m.sessions m.objects token)))

alive-call :
    (c : Call) (m : Members) (id : ℕ)
    → is_there (find id (call c m).objects) ≡ (meant c (view m)).alive id
unfolding call meant view
alive-call (adds token j) m id = refl
alive-call (removes token) m id = refl
alive-call (leaves j) m id = refl
alive-call lists m id = refl
alive-call counts m id = refl
alive-call (dies j) m id = is_there-erase m.objects j id

view-call :
    (c : Call) (m : Members)
    → IsMap m.sessions
    → IsClear c (view m)
    → view (call c m) ≡ meant c (view m)
unfolding view
view-call c m h clear = λ i. record {
  alive = λ id. alive-call c m id i;
  session = λ token. session-call c m token h clear i;
}

-- Looking tokens up, the manager cannot be told from the directory: after any calls, of both overloads of
-- `remove_session` too, and ends of sessions, on a registry with one entry for a token, each token leads
-- to what the directory says. Where `remove_session` is given a session, at most one token leads to it at
-- that time. `count` and `get_online_usernames` mean nothing, although they drop entries.
pub view-calls :
    (cs : List Call) (m : Members)
    → IsMap m.sessions
    → AllClear cs (view m)
    → view (calls cs m) ≡ all_meant cs (view m)
unfolding calls all_meant AllClear
view-calls [] m h clear = refl
view-calls (c ∷ rest) m h (now, later) =
    let step = view-call c m h now in
    view-calls rest (call c m) (call-IsMap c m h) (subst (AllClear rest) (sym step) later)
    ∙ ap (all_meant rest) step
