-- ===== src/Client/Requests.antt =====
-- The request frames of `client/src/test_file_transfer.cpp` and `client/src/test_auth.cpp`.
use computer_network_final_p.Base.{ℕ, Bool, List, [], ◌∷◌, ◌++◌, if◌then◌else◌}
use computer_network_final_p.Wire.{Endian, put, put64_portable}
use computer_network_final_p.Protocol.{put_text}
use computer_network_final_p.Client.{make_frame}

unfoldable pub login_payload : Endian → List ℕ → List ℕ → List ℕ
login_payload h username password = put_text h username ++ put_text h password

unfoldable pub make_login_req : Endian → List ℕ → List ℕ → List ℕ
unfolding login_payload
make_login_req h username password = make_frame h 12 (login_payload h username password)

unfoldable pub register_payload : Endian → List ℕ → List ℕ → List ℕ → List ℕ
register_payload h username email password =
    put_text h username ++ (put_text h email ++ put_text h password)

unfoldable pub make_register_req : Endian → List ℕ → List ℕ → List ℕ → List ℕ
unfolding register_payload
make_register_req h username email password =
    make_frame h 10 (register_payload h username email password)

unfoldable pub make_file_offer_req : Endian → List ℕ → List ℕ → ℕ → ℕ → List ℕ
make_file_offer_req h receiver_username filename file_size chunk_size = make_frame h 30 (
    put64_portable h 0
    ++ (put_text h receiver_username
        ++ (put_text h filename ++ (put64_portable h file_size ++ put h 4 chunk_size))))

unfoldable pub make_file_accept_req : Endian → ℕ → Bool → List ℕ
make_file_accept_req h transfer_id accept =
    make_frame h 32 (put64_portable h transfer_id ++ ((if accept then 1 else 0) ∷ []))

unfoldable pub make_file_chunk : Endian → ℕ → ℕ → List ℕ → List ℕ
make_file_chunk h transfer_id chunk_index bytes =
    make_frame h 34 (put64_portable h transfer_id ++ (put h 4 chunk_index ++ bytes))

unfoldable pub make_file_done : Endian → ℕ → ℕ → ℕ → List ℕ
make_file_done h transfer_id total_chunks file_size =
    make_frame h 35
      (put64_portable h transfer_id ++ (put h 4 total_chunks ++ put64_portable h file_size))
