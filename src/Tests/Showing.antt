-- ===== src/Tests/Showing.antt =====
-- The answers of the server as the clients show them, at small inputs.
use computer_network_final_p.Base.{
  ℕ, ◌+◌, ◌<◌, ◌≤◌, ◌≡◌, ◌↔◌, true, false, List, [], ◌∷◌, ◌++◌, length, ok, fault, text, arith,
}
use computer_network_final_p.Wire.{little, get}
use computer_network_final_p.Protocol.Message.{register_resp}
use computer_network_final_p.Protocol.RegisterResp
use computer_network_final_p.Protocol.RegisterResp.{RegisterResp}
use computer_network_final_p.Protocol.LoginResp
use computer_network_final_p.Protocol.LoginResp.{LoginResp}
use computer_network_final_p.Client.Frames.{frame}
use computer_network_final_p.Client.Programs.{read_response}
use computer_network_final_p.Client.Exchange.{scripted}
use computer_network_final_p.Client.Exchange.Showing.{read_response-overread}

abbrev refusal : RegisterResp
refusal = record { is_ok = false; msg = text "no" }

abbrev cut_short : List ℕ
cut_short = 1 ∷ 0 ∷ 9 ∷ b'a' ∷ []

abbrev entered : LoginResp
entered = record {
  is_ok = true;
  token = b't' ∷ [];
  user_id = 7;
  username = b'b' ∷ [];
  msg = text "login successful";
}

-- Another byte behind the answer, and one frame written before.
abbrev behind : List ℕ
behind = 9 ∷ []

abbrev sent : List (List ℕ)
sent = (1 ∷ []) ∷ []

read_response-overread_example :
    ((read_response little scripted 11 (frame little register_resp cut_short ++ behind, sent)).1
      ≡ fault)
    ↔ ((length cut_short ≤ 1024)
        × (3 ≤ length cut_short)
        × ((n : ℕ) × (get little 2 cut_short 1 ≡ ok n) × (length cut_short < 3 + n)))
read_response-overread_example = read_response-overread little cut_short behind sent (omega arith)
