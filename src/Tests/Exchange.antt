-- ===== src/Tests/Exchange.antt =====
-- An upload of three bytes to `b`.
use computer_network_final_p.Base.{ℕ, ◌≡◌, true, List, [], ◌∷◌, ◌++◌, length, ok, text, arith}
use computer_network_final_p.Wire.{little}
use computer_network_final_p.Protocol.Message.{file_offer_resp, file_accept_resp, file_result}
use computer_network_final_p.Client.Frames.{frame}
use computer_network_final_p.Client.Requests.{make_file_offer_req, make_file_done}
use computer_network_final_p.Client.Sending.{do_send, default_chunk_size, filename_of}
use computer_network_final_p.Client.Chunks.{pieces}
use computer_network_final_p.Client.Exchange.{scripted}
use computer_network_final_p.Client.Exchange.Replies.{offer_answer, accept_answer, result_answer}
use computer_network_final_p.Client.Exchange.Upload.{chunk_frames, do_send-answered}

abbrev three : List ℕ
three = 5 ∷ 6 ∷ 7 ∷ []

do_send-answered_example :
    do_send little scripted
      (text "b")
      (text "d/f")
      (record { exists = true; file_size = 3; opens = true; contents = three })
      (
        frame little file_offer_resp (offer_answer little 4)
            ++ (frame little file_accept_resp (accept_answer little)
                ++ (frame little file_result (result_answer little 4 (text "p")) ++ [])),
        [],
      )
    ≡ (
      (
        [],
        ((make_file_offer_req little (text "b") (filename_of (text "d/f")) 3 default_chunk_size
                ∷ [])
              ++ chunk_frames little 4 0 (pieces three))
            ++ (make_file_done little 4 (length (pieces three)) 3 ∷ []),
      ),
      ok (text "p"),
    )
do_send-answered_example =
    do_send-answered little (text "b") (text "d/f") three 4 (text "p") (omega arith) (omega arith)
      (unfold text in omega arith) []
