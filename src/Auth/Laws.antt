-- ===== src/Auth/Laws.antt =====
-- What a registration or a login that succeeds rests on.
use computer_network_final_p.Base.{
  ℕ, ◌*◌, ◌≤◌, ◌≡◌, refl, sym, ◌∙◌, ap, inl, inr, Bool, true, false, Bool-cases, Option, none, some,
  List, length, ◌==◌, ◌||◌, ok, text, arith,
}
use computer_network_final_p.Base.Action.{lift, pure, ◌>>=◌, pure-ok, bind-ok, catch-ok}
use computer_network_final_p.Db.{Services}
use computer_network_final_p.Db.Users.{UserRow, create_user, get_user_by_username}
use computer_network_final_p.Db.Sessions.{create_session}
use computer_network_final_p.Protocol.RegisterReq.{RegisterReq}
use computer_network_final_p.Protocol.RegisterResp.{RegisterResp}
use computer_network_final_p.Protocol.LoginReq.{LoginReq}
use computer_network_final_p.Protocol.LoginResp.{LoginResp}
use computer_network_final_p.Auth.PasswordHash.{
  HexReader, hash_password_pbkdf2, verify_password_pbkdf2,
}
use computer_network_final_p.Auth.{
  out_of_range, create_account, register_new, handle_register, refused, open_session,
  login_verified, login_as, handle_login,
}

module _ (read : HexReader) (S : Services) where
  -- A login that succeeded: the user was found, the password verified, and the session created.
  abbrev pub LoggedInAs : LoginReq → S.State → S.State → LoginResp → Type 0
  LoggedInAs r s s' resp =
      (found : S.State) × (user : UserRow) × (get_user_by_username S r.username s
        ≡ (found, ok (some user)))
      × (verify_password_pbkdf2 read S r.password user.pass_hash ≡ ok true)
      × (create_session S user.id (24 * 3600) found ≡ (s', ok resp.token))
      × (resp.user_id ≡ user.id)
      × (resp.username ≡ user.username)

  open_session-ok :
      (user : UserRow) (s s' : S.State) (resp : LoginResp)
      → open_session S user s ≡ (s', ok resp)
      → (create_session S user.id (24 * 3600) s ≡ (s', ok resp.token))
        × (resp.user_id ≡ user.id)
        × (resp.username ≡ user.username)
  unfolding open_session
  open_session-ok user s s' resp e =
      let (mid, token, created, rest) =
        bind-ok (create_session S user.id (24 * 3600)) (λ token. pure _) s s' resp e in
      let (here, made) = pure-ok _ resp mid s' rest in
      (
        created ∙ ap (λ m. (m, ok token)) here ∙ ap (λ (r : LoginResp). (s', ok r.token)) made,
        sym (ap (λ r. r.user_id) made),
        sym (ap (λ r. r.username) made),
      )

  login_verified-ok :
      (user : UserRow) (matches : Bool) (s s' : S.State) (resp : LoginResp)
      → login_verified S user matches s ≡ (s', ok resp)
      → resp.is_ok ≡ true
      → (matches ≡ true) × (open_session S user s ≡ (s', ok resp))
  unfolding login_verified refused
  login_verified-ok user false s s' resp e good = absurd (let e2 = (pure-ok _ resp s s' e).1 in cc)
  login_verified-ok user true s s' resp e good =
      elim (catch-ok (open_session S user) _ s s' resp e) [
        | inl opened ↦ (refl, opened)
        | inr (what, thrown) ↦ absurd cc
      ]

  login_as-ok :
      (r : LoginReq) (o : Option UserRow) (s s' : S.State) (resp : LoginResp)
      → login_as read S r o s ≡ (s', ok resp)
      → resp.is_ok ≡ true
      → (user : UserRow) × (o ≡ some user)
        × (verify_password_pbkdf2 read S r.password user.pass_hash ≡ ok true)
        × (open_session S user s ≡ (s', ok resp))
  unfolding login_as refused
  login_as-ok r none s s' resp e good = absurd (let e2 = (pure-ok _ resp s s' e).1 in cc)
  login_as-ok r (some user) s s' resp e good =
      let (mid, matches, verified, rest) =
        bind-ok (lift (verify_password_pbkdf2 read S r.password user.pass_hash))
          (λ matches. login_verified S user matches) s s' resp e in
      let (same, opened) = login_verified-ok user matches mid s' resp rest good in
      let here : s ≡ mid = ap (λ p. p.0) verified in
      (user, refl, ap (λ p. p.1) verified ∙ ap ok same, rw here opened)

  -- A login that answers with success is for a user that the database found under the name, whose
  -- stored hash the password verifies; the token is the one of the session created for that user, and
  -- the id and the name are that user's.
  pub handle_login-ok :
      (r : LoginReq) (s s' : S.State) (resp : LoginResp)
      → handle_login read S r s ≡ (s', ok resp)
      → resp.is_ok ≡ true
      → LoggedInAs r s s' resp
  unfolding handle_login refused
  handle_login-ok r s s' resp e good =
      elim (Bool-cases ((length r.username == 0) || (length r.password == 0))) [
        | inl missing ↦
            let e1 : pure (refused (text "username and password required")) s ≡ (s', ok resp) =
              rw missing at e in
            absurd (let e2 = (pure-ok _ resp s s' e1).1 in cc)
        | inr given ↦ found (rw given at e)
      ]
    where
      found :
          ((get_user_by_username S r.username) >>= (λ user. login_as read S r user)) s
            ≡ (s', ok resp)
          → LoggedInAs r s s' resp
      found e1 =
          let (mid, o, looked_up, rest) =
            bind-ok (get_user_by_username S r.username) (λ user. login_as read S r user) s s' resp
              e1 in
          let (user, here, verified, opened) = login_as-ok r o mid s' resp rest good in
          let (created, id_same, name_same) = open_session-ok user mid s' resp opened in
          (mid, user, looked_up ∙ ap (λ o. (mid, ok o)) here, verified, created, id_same, name_same)

in_range :
    (t : List ℕ) (most : ℕ) → out_of_range t most ≡ false → (1 ≤ length t) × (length t ≤ most)
unfolding out_of_range
in_range t most h = (ground arith, ground arith)

module _ (S : Services) where
  -- The account of a request was created: its password hashed, and the hash stored with the names.
  abbrev pub AccountCreated : RegisterReq → S.State → S.State → Type 0
  AccountCreated r found s' =
      (hashed : S.State) × (pass_hash : List ℕ) × (id : ℕ) × (hash_password_pbkdf2 S r.password
          120000 found
        ≡ (hashed, ok pass_hash))
      × (create_user S r.username r.email pass_hash hashed ≡ (s', ok id))

  create_account-ok :
      (r : RegisterReq) (s s' : S.State) (resp : RegisterResp)
      → create_account S r s ≡ (s', ok resp)
      → AccountCreated r s s'
  unfolding create_account
  create_account-ok r s s' resp e =
      let (hashed, pass_hash, hash, rest) =
        bind-ok (hash_password_pbkdf2 S r.password 120000)
          (λ pass_hash. create_user S r.username r.email pass_hash >>= (λ id. pure _)) s s' resp
          e in
      let (mid, id, created, last) =
        bind-ok (create_user S r.username r.email pass_hash) (λ id. pure _) hashed s' resp rest in
      let (here, same) = pure-ok _ resp mid s' last in
      (hashed, pass_hash, id, hash, created ∙ ap (λ m. (m, ok id)) here)

  register_new-ok :
      (r : RegisterReq) (o : Option UserRow) (s s' : S.State) (resp : RegisterResp)
      → register_new S r o s ≡ (s', ok resp)
      → resp.is_ok ≡ true
      → (o ≡ none) × (1 ≤ length r.email) × (length r.email ≤ 255) × AccountCreated r s s'
  unfolding register_new
  register_new-ok r (some user) s s' resp e good = absurd (let e2 = (pure-ok _ resp s s' e).1 in cc)
  register_new-ok r none s s' resp e good = elim (Bool-cases (out_of_range r.email 255)) [
    | inl wrong ↦ absurd (let e2 = (pure-ok _ resp s s' (rw wrong at e)).1 in cc)
    | inr right ↦ elim (catch-ok (create_account S r) _ s s' resp (rw right at e)) [
      | inl created ↦
          let (least, most) = in_range r.email 255 right in
          (refl, least, most, create_account-ok r s s' resp created)
      | inr (what, thrown) ↦ absurd cc
    ]
  ]

  -- A registration that answers with success has a user name of 1 to 64 bytes that the database did not
  -- find, a password of 1 to 128 bytes and an e-mail address of 1 to 255 bytes, and its user was created
  -- with the hash of its password.
  pub handle_register-ok :
      (r : RegisterReq) (s s' : S.State) (resp : RegisterResp)
      → handle_register S r s ≡ (s', ok resp)
      → resp.is_ok ≡ true
      → (1 ≤ length r.username)
        × (length r.username ≤ 64)
        × (1 ≤ length r.password)
        × (length r.password ≤ 128)
        × (1 ≤ length r.email)
        × (length r.email ≤ 255)
        × (found : S.State) × (get_user_by_username S r.username s ≡ (found, ok none))
        × AccountCreated r found s'
  unfolding handle_register
  handle_register-ok r s s' resp e good = elim (Bool-cases (out_of_range r.username 64)) [
    | inl wrong ↦ absurd (let e2 = (pure-ok _ resp s s' (rw wrong at e)).1 in cc)
    | inr name_right ↦
        let e1 = rw name_right at e in
        elim (Bool-cases (out_of_range r.password 128)) [
          | inl wrong ↦ absurd (let e2 = (pure-ok _ resp s s' (rw wrong at e1)).1 in cc)
          | inr password_right ↦
              let (mid, o, looked_up, rest) =
                bind-ok (get_user_by_username S r.username) (λ o. register_new S r o) s s' resp
                  (rw password_right at e1) in
              let (absent, least, most, created) = register_new-ok r o mid s' resp rest good in
              let (name_least, name_most) = in_range r.username 64 name_right in
              let (password_least, password_most) = in_range r.password 128 password_right in
              (
                name_least,
                name_most,
                password_least,
                password_most,
                least,
                most,
                mid,
                looked_up ∙ ap (λ o. (mid, ok o)) absent,
                created,
              )
        ]
  ]
