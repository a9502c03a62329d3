-- ===== src/Tests/Auth.antt =====
-- Registration and login over concrete services.
use computer_network_final_p.Base.{
  arith, zero, suc, ap, subst, All, ℕ, ◌≤◌, ◌≡◌, refl, true, none, some, List, [], ◌∷◌, length, ok,
  text, c_str, eq_bytes, ◌==◌, if◌then◌else◌,
}
use computer_network_final_p.Db.{
  Services, Answer, rows, exec_params, must_ok, nth_cell, stoll, stoi, parse_signed, skip_spaces,
  leading_number, signed_pattern, is_space, is_digit, to_string_signed,
}
use computer_network_final_p.Db.Users.{create_user, created_id, get_user_by_username, first_user}
use computer_network_final_p.Db.Sessions.{
  create_session, random_hex_token, returned_token, to_hex, hex_digit,
}
use computer_network_final_p.FileStore.Decimal.{to_string, digits}
use computer_network_final_p.Protocol.RegisterReq.{RegisterReq}
use computer_network_final_p.Protocol.LoginReq.{LoginReq}
use computer_network_final_p.Protocol.LoginResp.{LoginResp}
use computer_network_final_p.Auth.PasswordHash.{
  HexReader, hash_password_pbkdf2, verify_password_pbkdf2, verify_fields, split_dollar, from_hex,
  hex_pair, hex_value, difference, stored_form,
}
use computer_network_final_p.Auth.Verifying.{IsByte, verify_password_pbkdf2-hash_password_pbkdf2}
use computer_network_final_p.Auth.{
  handle_register, register_new, create_account, out_of_range, registration, handle_login, login_as,
  login_verified, open_session, refused,
}
use computer_network_final_p.Auth.Laws.{AccountCreated, handle_register-ok}

abbrev bob : List ℕ
bob = b'b' ∷ []

-- The hash of every password is made of zeros.
abbrev stored : List ℕ
stored =
    b'p' ∷ b'b' ∷ b'k' ∷ b'd' ∷ b'f' ∷ b'2' ∷ b'$' ∷ b'1' ∷ b'$' ∷ b'0' ∷ b'0' ∷ b'$' ∷ b'0' ∷ b'0'
    ∷ []

-- A database that knows `b` only, with the id 7, and gives the token `9` and the id 9 to what is new.
abbrev pub answer : List (List ℕ) → Answer
answer ((c ∷ []) ∷ []) =
    if c == b'b' then rows (((b'7' ∷ []) ∷ bob ∷ [] ∷ stored ∷ []) ∷ []) else rows []
answer _ = rows (((b'9' ∷ []) ∷ []) ∷ [])

abbrev zeros : ℕ → List ℕ
zeros zero = []
zeros (suc n) = 0 ∷ zeros n

abbrev pub services : Services
services = record {
  State = Unit;
  is_connected = λ s. true;
  pq_exec_params = λ sql params s. (s, answer params);
  pq_exec = λ sql s. (s, rows []);
  rand_bytes = λ n s. (s, some (1 ∷ 2 ∷ []));
  pbkdf2 = λ password salt iters n. some (zeros n);
}

abbrev pub reader : HexReader
reader = λ c d. 0

abbrev pub login_of_bob : LoginReq
login_of_bob = record { username = bob; password = b'x' ∷ [] }

abbrev pub answered_bob : LoginResp
answered_bob = record {
  is_ok = true;
  token = b'9' ∷ [];
  user_id = 7;
  username = bob;
  msg = text "login successful";
}

pub login_runs : handle_login reader services login_of_bob tt ≡ (tt, ok answered_bob)
unfolding handle_login login_as login_verified open_session refused get_user_by_username first_user
    exec_params must_ok nth_cell stoll stoi parse_signed skip_spaces leading_number signed_pattern
    is_space is_digit create_session random_hex_token returned_token to_hex hex_digit to_string
    digits to_string_signed verify_password_pbkdf2 verify_fields split_dollar from_hex hex_pair
    hex_value difference text c_str eq_bytes
login_runs = refl

abbrev registration_of_ann : RegisterReq
registration_of_ann = record { username = b'a' ∷ []; email = b'm' ∷ []; password = b'x' ∷ [] }

registration_runs :
    handle_register services registration_of_ann tt
    ≡ (tt, ok (registration true (text "user created successfully")))
unfolding handle_register register_new create_account out_of_range get_user_by_username first_user
    exec_params must_ok nth_cell stoll parse_signed skip_spaces leading_number signed_pattern
    is_space is_digit create_user created_id hash_password_pbkdf2 text c_str
registration_runs = refl

handle_register-ok_example :
    let r = registration_of_ann in
    (1 ≤ length r.username)
    × (length r.username ≤ 64)
    × (1 ≤ length r.password)
    × (length r.password ≤ 128)
    × (1 ≤ length r.email)
    × (length r.email ≤ 255)
    × (found : Unit {0}) × (get_user_by_username services r.username tt ≡ (found, ok none))
    × AccountCreated services registration_of_ann found tt
handle_register-ok_example =
    handle_register-ok services registration_of_ann tt tt
      (registration true (text "user created successfully")) registration_runs refl

zeros_are : (n : ℕ) → (length (zeros n) ≡ n) × All IsByte (zeros n)
zeros_are zero = (refl, tt)
zeros_are (suc n) = let (size, rest) = zeros_are n in (ap suc size, (omega arith, rest))

salt_is :
    (n : ℕ) (s s' : Unit {0}) (bytes : List ℕ)
    → services.rand_bytes n s ≡ (s', some bytes)
    → All IsByte bytes
salt_is n s s' bytes e =
    let same : (1 ∷ 2 ∷ []) ≡ bytes = cc in subst (All IsByte) same (omega arith, (omega arith, tt))

key_is :
    (password salt : List ℕ) (iters n : ℕ) (dk : List ℕ)
    → services.pbkdf2 password salt iters n ≡ some dk
    → (length dk ≡ n) × All IsByte dk
key_is password salt iters n dk e =
    let same : zeros n ≡ dk = cc in subst (λ b. (length b ≡ n) × All IsByte b) same (zeros_are n)

hashed : List ℕ
hashed = stored_form 120000 (1 ∷ 2 ∷ []) (zeros 32)

hash_runs : hash_password_pbkdf2 services (b'x' ∷ []) 120000 tt ≡ (tt, ok hashed)
unfolding hash_password_pbkdf2 hashed
hash_runs = refl

verify_password_pbkdf2-hash_password_pbkdf2_example :
    verify_password_pbkdf2 reader services (b'x' ∷ []) hashed ≡ ok true
verify_password_pbkdf2-hash_password_pbkdf2_example =
    verify_password_pbkdf2-hash_password_pbkdf2 reader services salt_is key_is (b'x' ∷ []) tt tt
      hashed hash_runs
