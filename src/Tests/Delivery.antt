-- ===== src/Tests/Delivery.antt =====
-- A small file over concrete services.
use computer_network_final_p.Base.{
  ℕ, ◌+◌, ◌*◌, ◌<◌, ◌≡◌, refl, true, some, List, [], ◌∷◌, ◌++◌, length, All, ok, arith,
}
use computer_network_final_p.Base.Dict.{find, nat_eq, bytes_eq}
use computer_network_final_p.Wire.{little}
use computer_network_final_p.Protocol.Message.{file_accept_req}
use computer_network_final_p.Protocol.FileAcceptReq
use computer_network_final_p.Protocol.FileAcceptReq.{FileAcceptReq}
use computer_network_final_p.Transfer.{get_transfer}
use computer_network_final_p.FileStore.{ensure_directory}
use computer_network_final_p.Client.Sending.{default_chunk_size, announced_chunks}
use computer_network_final_p.Client.Chunks.{pieces, pieces_of, concat, IsPiece}
use computer_network_final_p.Client.Bounds.{announced_chunks-pieces}
use computer_network_final_p.Server.{World, self_of}
use computer_network_final_p.Server.Sessions.{is_authenticated}
use computer_network_final_p.Server.Dispatch.{handle_message}
use computer_network_final_p.Server.Upload.{IsWritten}
use computer_network_final_p.Server.Streaming.{read_loop}
use computer_network_final_p.Server.Whole.{with_answers, read_loop-chunk_frames}
use computer_network_final_p.Client.Exchange.Upload.{chunk_frames}
use computer_network_final_p.Client.Requests.{make_file_done}
use computer_network_final_p.Server.Dispatch.{header}
use computer_network_final_p.Server.Delivery.{Delivered}
use computer_network_final_p.Tests.Auth.{services, reader}
use computer_network_final_p.Tests.Server.{start, answers, from_ann, ann_in}

abbrev contents : List ℕ
contents = 5 ∷ 6 ∷ []

announced_chunks-pieces_example :
    (concat (pieces contents) ≡ contents)
    × All (IsPiece (256 * 1024)) (pieces contents)
    × (announced_chunks (length contents) (length (pieces contents)) ≡ length (pieces contents))
announced_chunks-pieces_example = announced_chunks-pieces contents (omega arith)

bob_logged : is_authenticated (self_of start 2) ≡ true
unfolding self_of find is_authenticated
bob_logged = refl

accepted_transfer : get_transfer start.transfers 1 ≡ some from_ann
unfolding get_transfer find
accepted_transfer = refl

bob_receives : from_ann.receiver_user_id ≡ (self_of start 2).user_id
unfolding self_of find
bob_receives = refl

ann_is_sender : from_ann.sender_user_id ≡ (self_of start 0).user_id
unfolding self_of find
ann_is_sender = refl

directory_made : ensure_directory answers.directory ≡ true
unfolding ensure_directory
directory_made = refl

chunks-IsWritten : All IsWritten (with_answers (λ n. answers) 0 (pieces contents))
unfolding with_answers pieces pieces_of default_chunk_size
chunks-IsWritten = (((λ e. cc), (omega arith), refl), tt)

rounds_enough : 2 * (length (pieces contents) + 1) < 9
unfolding pieces pieces_of default_chunk_size
rounds_enough = omega arith

read_loop-chunk_frames_example :
    (w1 w2 : World services) × (handle_message reader answers start 2 file_accept_req
        (FileAcceptReq.serialize little (record { transfer_id = 1; accept = true }))
      ≡ ok w1)
    × (read_loop reader
          (λ n. answers)
          0
          9
          0
          w1
          header
          (concat (
            chunk_frames little 1 0 (pieces contents)
            ++ (make_file_done little 1 (length (pieces contents)) (length contents) ∷ [])))
        ≡ ok (w2, header))
    × Delivered w2 1 start.store.base_path from_ann.filename contents
read_loop-chunk_frames_example =
    read_loop-chunk_frames reader answers (λ n. answers) start 2 0 1 from_ann contents 9
      rounds_enough bob_logged ann_in accepted_transfer bob_receives ann_is_sender refl refl
      (omega arith) (omega arith) ((λ e. cc), tt) ((λ e. cc), tt) directory_made refl
      chunks-IsWritten refl
