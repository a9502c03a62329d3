-- ===== src/Client/Arguments.antt =====
-- The command lines of the four clients, without the program's name. `std::stoi` and `std::stoull` throw
-- outside every `try` block here, which ends the program; so does an exception of the model.
use computer_network_final_p.Base.{
  ℕ, ◌-◌, ◌%◌, ◌^◌, ◌≡◌, refl, Bool, true, false, not, ltb, Option, none, some, List, [], ◌∷◌, ◌==◌,
  if◌then◌else◌, Result, ok, err, fault, ◌>>=◌, text, eq_bytes,
}
use computer_network_final_p.Db.{stoi, skip_spaces, leading_number}
use computer_network_final_p.Client.Sending.{SourceFile}
use computer_network_final_p.Client.Programs.{Command, send_file, receive}

-- Where a client connects to.
pub record Endpoint : Type 0 where
  pub host : List ℕ
  pub port : ℕ

unfoldable pub local : Endpoint
local = record { host = text "127.0.0.1"; port = 9000 }

-- `static_cast<uint16_t>(std::stoi(…))`.
unfoldable pub port_of : List ℕ → Result ℕ
port_of s = do n ← stoi s; ok (n % 2 ^ 16)

-- A host and a port at the end of the arguments, each if it is there.
unfoldable pub endpoint_of : List (List ℕ) → Result Endpoint
unfolding local port_of
endpoint_of [] = ok local
endpoint_of (host ∷ []) = ok (record local { host = host })
endpoint_of (host ∷ port ∷ rest) = do port ← port_of port; ok (record { host = host; port = port })

-- `main.cpp`: the client's name, then host and port.
unfoldable pub greeting_arguments : List (List ℕ) → Result (List ℕ × Endpoint)
unfolding endpoint_of local
greeting_arguments [] = ok (text "client", local)
greeting_arguments (name ∷ rest) = do endpoint ← endpoint_of rest; ok (name, endpoint)

pub record Account : Type 0 where
  pub username : List ℕ
  pub password : List ℕ

-- A name and a password, each if it is there, and the arguments behind them.
unfoldable pub account_of : List (List ℕ) → Account × List (List ℕ)
account_of [] = (record { username = text "testuser"; password = text "testpass123" }, [])
account_of (username ∷ []) = (record { username = username; password = text "testpass123" }, [])
account_of (username ∷ password ∷ rest) =
    (record { username = username; password = password }, rest)

-- `test_persistent`.
unfoldable pub persistent_arguments : List (List ℕ) → Result (Account × Endpoint)
unfolding account_of endpoint_of
persistent_arguments args = do
  let (account, rest) = account_of args
  endpoint ← endpoint_of rest
  ok (account, endpoint)

-- `test_auth`: host and port are read first as for a login; for `register` the first of them is the
-- e-mail address too, and host and port are read again behind it, where they are there.
pub record AuthArguments : Type 0 where
  pub registers : Bool
  pub account : Account
  pub email : List ℕ
  pub endpoint : Endpoint

unfoldable pub with_email : Endpoint → List (List ℕ) → Result (List ℕ × Endpoint)
unfolding port_of
with_email first [] = ok (text "testuser@example.com", first)
with_email first (email ∷ []) = ok (email, first)
with_email first (email ∷ host ∷ []) = ok (email, record first { host = host })
with_email first (email ∷ host ∷ port ∷ rest) = do
  port ← port_of port
  ok (email, record { host = host; port = port })

-- What follows the command; an unknown command is found once the client is connected.
unfoldable pub auth_with : List ℕ → List (List ℕ) → Result AuthArguments
unfolding account_of endpoint_of with_email
auth_with command args = do
  let (account, rest) = account_of args
  let registers = eq_bytes command (text "register")
  first ← endpoint_of rest
  (email, endpoint) ←
      if registers then with_email first rest else ok (text "testuser@example.com", first)
  ok (record { registers = registers; account = account; email = email; endpoint = endpoint })

unfoldable pub auth_arguments : List (List ℕ) → Result AuthArguments
unfolding auth_with
auth_arguments [] = auth_with (text "register") []
auth_arguments (command ∷ args) = auth_with command args

-- `std::stoull`: a minus sign negates the number modulo 2 ^ 64.
unfoldable pub unsigned_value : Bool → Option ℕ → Result ℕ
unsigned_value negative none = err (text "stoull")
unsigned_value negative (some n) =
    if not (ltb n (2 ^ 64))
    then err (text "stoull")
    else ok (if negative then (2 ^ 64 - n) % 2 ^ 64 else n)

unfoldable pub parse_unsigned : List ℕ → Result ℕ
unfolding unsigned_value
parse_unsigned [] = err (text "stoull")
parse_unsigned (c ∷ rest) =
    if c == b'-'
    then unsigned_value true (leading_number none rest)
    else if c == b'+'
    then unsigned_value false (leading_number none rest)
    else unsigned_value false (leading_number none (c ∷ rest))

unfoldable pub stoull : List ℕ → Result ℕ
unfolding parse_unsigned
stoull s = parse_unsigned (skip_spaces s)

-- `test_file_transfer`: it ends with 1 where the arguments are no command, or it runs one.
pub data TransferArguments : Type 0 where
  ends : TransferArguments
  runs : Account → Endpoint → Command → TransferArguments

-- `files` is what stands at a path.
unfoldable pub send_arguments :
    (List ℕ → SourceFile) → Account → List (List ℕ) → Result TransferArguments
unfolding endpoint_of
send_arguments files account (receiver ∷ filepath ∷ rest) = do
  endpoint ← endpoint_of rest
  ok (runs account endpoint (send_file receiver filepath (files filepath)))
send_arguments files account _ = ok ends

unfoldable pub receive_arguments : Account → List (List ℕ) → Result TransferArguments
unfolding endpoint_of stoull
receive_arguments account (id ∷ output_path ∷ rest) = do
  transfer_id ← stoull id
  endpoint ← endpoint_of rest
  ok (runs account endpoint (receive transfer_id))
receive_arguments account _ = ok ends

-- With two arguments the password is made of a null pointer.
unfoldable pub transfer_arguments : (List ℕ → SourceFile) → List (List ℕ) → Result TransferArguments
unfolding send_arguments receive_arguments
transfer_arguments files [] = ok ends
transfer_arguments files (command ∷ []) = ok ends
transfer_arguments files (command ∷ username ∷ []) = fault
transfer_arguments files (command ∷ username ∷ password ∷ rest) =
    let account : Account = record { username = username; password = password } in
    if eq_bytes command (text "send")
    then send_arguments files account rest
    else if eq_bytes command (text "recv")
    then receive_arguments account rest
    else ok ends

-- For `register` with an e-mail address and no host, `test_auth` connects to the address.
register_host :
    (username password email : List ℕ)
    → auth_arguments (text "register" ∷ username ∷ password ∷ email ∷ [])
      ≡ ok (record {
        registers = true;
        account = record { username = username; password = password };
        email = email;
        endpoint = record { host = email; port = 9000 };
      })
unfolding eq_bytes auth_arguments text
register_host username password email = refl
