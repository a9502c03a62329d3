-- ===== src/Transfer.antt =====
-- `TransferManager` and `TransferSession` of `core/include/fsx/transfer/transfer_manager.h` and
-- `core/src/transfer/transfer_manager.cpp`. The map holds each session by its one shared pointer, so a
-- change through `get_transfer`'s result is `adjust_session`. Every method locks the mutex for all of
-- its body and is one step here.
pub mod Ids
pub mod Chunks
use computer_network_final_p.Base.{
  ℕ, ◌+◌, ◌%◌, ◌^◌, Bool, true, false, Option, none, some, List, [], ◌==◌, if◌then◌else◌,
}
use computer_network_final_p.Base.Dict.{Dict, find, insert, erase, adjust, values, nat_eq}

pub data TransferState : Type 0 where
  offered accepted receiving completed failed : TransferState

-- A user id is the bit pattern of a `long long`; `file_handle` is `none` for the null pointer.
pub record TransferSession : Type 0 where
  pub transfer_id : ℕ
  pub sender_user_id : ℕ
  pub sender_username : List ℕ
  pub sender_token : List ℕ
  pub receiver_user_id : ℕ
  pub receiver_username : List ℕ
  pub filename : List ℕ
  pub file_size : ℕ
  pub chunk_size : ℕ
  pub expected_chunk_index : ℕ
  pub bytes_received : ℕ
  pub state : TransferState
  pub temp_file_path : List ℕ
  pub final_file_path : List ℕ
  pub file_handle : Option ℕ

pub record TransferManager : Type 0 where
  pub next_transfer_id : ℕ
  pub transfers : Dict ℕ TransferSession

unfoldable pub init : TransferManager
init = record { next_transfer_id = 1; transfers = [] }

-- `next_transfer_id_.fetch_add(1)` on a `uint64_t`.
unfoldable pub generate_transfer_id : TransferManager → TransferManager × ℕ
generate_transfer_id m =
    (record m { next_transfer_id = (m.next_transfer_id + 1) % 2 ^ 64 }, m.next_transfer_id)

-- The arguments of `create_transfer`.
pub record Offer : Type 0 where
  pub sender_user_id : ℕ
  pub sender_username : List ℕ
  pub sender_token : List ℕ
  pub receiver_user_id : ℕ
  pub receiver_username : List ℕ
  pub filename : List ℕ
  pub file_size : ℕ
  pub chunk_size : ℕ

unfoldable pub new_session : ℕ → Offer → TransferSession
new_session id o = record {
  transfer_id = id;
  sender_user_id = o.sender_user_id;
  sender_username = o.sender_username;
  sender_token = o.sender_token;
  receiver_user_id = o.receiver_user_id;
  receiver_username = o.receiver_username;
  filename = o.filename;
  file_size = o.file_size;
  chunk_size = o.chunk_size;
  expected_chunk_index = 0;
  bytes_received = 0;
  state = offered;
  temp_file_path = [];
  final_file_path = [];
  file_handle = none;
}

unfoldable pub create_transfer : TransferManager → Offer → TransferManager × ℕ
unfolding generate_transfer_id
create_transfer m o =
    let (m', id) = generate_transfer_id m in
    (record m' { transfers = insert id (new_session id o) m'.transfers }, id)

unfoldable pub get_transfer : TransferManager → ℕ → Option TransferSession
get_transfer m id = find id m.transfers

unfoldable pub adjust_session :
    TransferManager → ℕ → (TransferSession → TransferSession) → TransferManager
adjust_session m id f = record m { transfers = adjust id f m.transfers }

unfoldable pub update_state : TransferManager → ℕ → TransferState → TransferManager × Bool
update_state m id new_state = elim (find id m.transfers) [
  | none ↦ (m, false)
  | some session ↦ (adjust_session m id (λ s. record s { state = new_state }), true)
]

unfoldable pub receiving_from : TransferState → TransferState
receiving_from offered = offered
receiving_from accepted = receiving
receiving_from receiving = receiving
receiving_from completed = completed
receiving_from failed = failed

-- The body under the lock, once the session is found: a `uint32_t` and a `uint64_t` counter.
unfoldable pub mark_session : ℕ → ℕ → TransferSession → TransferSession × Bool
unfolding receiving_from
mark_session chunk_index chunk_bytes s =
    if chunk_index == s.expected_chunk_index
    then (
      record s {
        expected_chunk_index = (s.expected_chunk_index + 1) % 2 ^ 32;
        bytes_received = (s.bytes_received + chunk_bytes) % 2 ^ 64;
        state = receiving_from s.state;
      },
      true,
    )
    else (s, false)

unfoldable pub mark_chunk_received : TransferManager → ℕ → ℕ → ℕ → TransferManager × Bool
mark_chunk_received m id chunk_index chunk_bytes = elim (find id m.transfers) [
  | none ↦ (m, false)
  | some session ↦ (
    adjust_session m id (λ s. (mark_session chunk_index chunk_bytes s).0),
    (mark_session chunk_index chunk_bytes session).1,
  )
]

unfoldable pub remove_transfer : TransferManager → ℕ → TransferManager × Bool
remove_transfer m id = elim (find id m.transfers) [
  | none ↦ (m, false)
  | some session ↦ (record m { transfers = erase id m.transfers }, true)
]

unfoldable pub get_all_transfers : TransferManager → List TransferSession
get_all_transfers m = values m.transfers
