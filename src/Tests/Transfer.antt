-- ===== src/Tests/Transfer.antt =====
-- The transfer manager at concrete values.
use computer_network_final_p.Base.{
  ℕ, ◌≡◌, ◌≢◌, refl, none, some, List, [], ◌∷◌, arith, ◌==◌, if◌then◌else◌,
}
use computer_network_final_p.Base.Dict.{find, insert, nat_eq}
use computer_network_final_p.Transfer.{
  TransferSession, TransferManager, Offer, init, new_session, create_transfer, get_transfer,
}
use computer_network_final_p.Transfer.Ids.{init-IsManager, create_transfer_fresh}
use computer_network_final_p.Transfer.Chunks.{Chunk, in_order, total, mark_all, mark_all_counts}

abbrev from_ann : Offer
from_ann = record {
  sender_user_id = 1;
  sender_username = b'a' ∷ [];
  sender_token = b't' ∷ [];
  receiver_user_id = 2;
  receiver_username = b'b' ∷ [];
  filename = b'f' ∷ [];
  file_size = 30;
  chunk_size = 10;
}

abbrev one_offer : TransferManager
one_offer = (create_transfer init from_ann).0

create_transfer_fresh_example :
    let (m', id) = create_transfer init from_ann in
    (id ≢ 0)
    × (get_transfer init id ≡ none)
    × ((j : ℕ)
        → get_transfer m' j
          ≡ (if id == j then some (new_session id from_ann) else get_transfer init j))
create_transfer_fresh_example = create_transfer_fresh init from_ann init-IsManager

session_one : get_transfer one_offer 1 ≡ some (new_session 1 from_ann)
unfolding create_transfer init get_transfer find insert
session_one = refl

-- Chunk 1 comes before its turn and then again.
abbrev reports : List Chunk
reports = (0, 10) ∷ (2, 10) ∷ (1, 10) ∷ []

mark_all_counts_example :
    (s' : TransferSession) × (get_transfer (mark_all one_offer 1 reports) 1 ≡ some s')
    × (s'.expected_chunk_index ≡ 2)
    × (s'.bytes_received ≡ 20)
unfolding new_session in_order total
mark_all_counts_example =
    mark_all_counts one_offer 1 reports (new_session 1 from_ann) session_one (omega arith)
      (omega arith)
