-- ===== src/Transfer/Ids.antt =====
-- Transfer ids: each is new when it is handed out, and stays the id of its own session.
use computer_network_final_p.Base.{
  ℕ, ◌+◌, ◌^◌, ◌<◌, ◌≡◌, ◌≢◌, refl, inl, inr, Option, none, some, Option-cases, ◌==◌, if◌then◌else◌,
  arith,
}
use computer_network_final_p.Base.Dict.{
  find, find-insert, find-erase, find-adjust_cases, nat_eq, erase,
}
use computer_network_final_p.Transfer.{
  TransferState, TransferSession, TransferManager, Offer, init, new_session, create_transfer,
  get_transfer, adjust_session, update_state, mark_session, mark_chunk_received, remove_transfer,
}

pub record IsManager (m : TransferManager) : Type 0 where
  pub counter_pos : 0 < m.next_transfer_id
  pub counter_fits : m.next_transfer_id < 2 ^ 64
  pub keyed :
      (id : ℕ) (s : TransferSession)
      → get_transfer m id ≡ some s
      → (s.transfer_id ≡ id) × (0 < id) × (id < m.next_transfer_id)

pub init-IsManager : IsManager init
unfolding init get_transfer find
init-IsManager = record {
  counter_pos = omega arith;
  counter_fits = omega arith;
  keyed = λ id s h. absurd (cc);
}

-- Until the counter wraps, `create_transfer` returns an id that no session has and that is not 0, the
-- value by which its caller would tell a failure; the id then names the new session, and every other
-- id what it named before.
pub create_transfer_fresh :
    (m : TransferManager) (o : Offer)
    → IsManager m
    → let (m', id) = create_transfer m o in
      (id ≢ 0)
      × (get_transfer m id ≡ none)
      × ((j : ℕ)
          → get_transfer m' j ≡ (if id == j then some (new_session id o) else get_transfer m j))
unfolding create_transfer get_transfer
create_transfer_fresh m o v = (
  omega (arith, v.counter_pos),
  elim (Option-cases (find m.next_transfer_id m.transfers)) [
    | inl missing ↦ missing
    | inr (s, found) ↦ absurd (omega (arith, (v.keyed m.next_transfer_id s found).2))
  ],
  λ j. find-insert m.next_transfer_id j (new_session m.next_transfer_id o) m.transfers,
)

create-IsManager :
    (m : TransferManager) (o : Offer)
    → m.next_transfer_id + 1 < 2 ^ 64
    → IsManager m
    → IsManager (create_transfer m o).0
unfolding create_transfer get_transfer new_session
create-IsManager m o room v = record {
  counter_pos = omega arith;
  counter_fits = omega arith;
  keyed = λ id s h. ground (
    arith,
    v.counter_pos,
    v.keyed id s,
    find-insert m.next_transfer_id id (new_session m.next_transfer_id o) m.transfers,
    h,
  );
}

-- A change of a session that leaves its id alone.
adjust-IsManager :
    (m : TransferManager) (id : ℕ) (f : TransferSession → TransferSession)
    → ((s : TransferSession) → (f s).transfer_id ≡ s.transfer_id)
    → IsManager m
    → IsManager (adjust_session m id f)
unfolding adjust_session get_transfer
adjust-IsManager m id f keeps v = record {
  counter_pos = v.counter_pos;
  counter_fits = v.counter_fits;
  keyed = λ j s h. elim (find-adjust_cases id j f m.transfers s h) [
    | inl old ↦ v.keyed j s old
    | inr (w, old, e) ↦ ground (arith, v.keyed j w old, keeps w)
  ];
}

remove-IsManager : (m : TransferManager) (id : ℕ) → IsManager m → IsManager (remove_transfer m id).0
unfolding remove_transfer get_transfer
remove-IsManager m id v = split (find id m.transfers) refl
  where
    erased : IsManager (record m { transfers = erase id m.transfers })
    erased = record {
      counter_pos = v.counter_pos;
      counter_fits = v.counter_fits;
      keyed = λ j s h. ground (arith, v.keyed j s, find-erase id j m.transfers, h);
    }

    split :
        (o : Option TransferSession) → find id m.transfers ≡ o → IsManager (remove_transfer m id).0
    split none e = rw (e, remove_transfer) v
    split (some s) e = rw (e, remove_transfer) erased

update-IsManager :
    (m : TransferManager) (id : ℕ) (state : TransferState)
    → IsManager m
    → IsManager (update_state m id state).0
unfolding update_state
update-IsManager m id state v = elim (Option-cases (find id m.transfers)) [
  | inl e ↦ rw (e, update_state) v
  | inr (s, e) ↦ rw (e, update_state) (adjust-IsManager m id _ (λ s. refl) v)
]

mark_session-transfer_id :
    (index bytes : ℕ) (s : TransferSession)
    → ((mark_session index bytes s).0).transfer_id ≡ s.transfer_id
unfolding mark_session
mark_session-transfer_id index bytes s = ground arith

mark-IsManager :
    (m : TransferManager) (id index bytes : ℕ)
    → IsManager m
    → IsManager (mark_chunk_received m id index bytes).0
unfolding mark_chunk_received
mark-IsManager m id index bytes v = elim (Option-cases (find id m.transfers)) [
  | inl e ↦ rw (e, mark_chunk_received) v
  | inr (s, e) ↦
      rw (e, mark_chunk_received) (adjust-IsManager m id _ (mark_session-transfer_id index bytes) v)
]

-- What the server does to the manager: each method, and its writes through the pointer that
-- `get_transfer` returns, which leave the id alone.
pub data Step (m : TransferManager) : TransferManager → Type 0 where
  creates : (o : Offer) → m.next_transfer_id + 1 < 2 ^ 64 → Step m (create_transfer m o).0
  updates : (id : ℕ) (state : TransferState) → Step m (update_state m id state).0
  marks : (id index bytes : ℕ) → Step m (mark_chunk_received m id index bytes).0
  removes : (id : ℕ) → Step m (remove_transfer m id).0
  writes :
      (id : ℕ) (f : TransferSession → TransferSession)
      → ((s : TransferSession) → (f s).transfer_id ≡ s.transfer_id)
      → Step m (adjust_session m id f)

pub data Reach (m : TransferManager) : TransferManager → Type 0 where
  here : Reach m m
  next : {k l : TransferManager} → Reach m k → Step k l → Reach m l

pub Step-IsManager : {m n : TransferManager} → Step m n → IsManager m → IsManager n
Step-IsManager {m} (creates o room) v = create-IsManager m o room v
Step-IsManager {m} (updates id state) v = update-IsManager m id state v
Step-IsManager {m} (marks id index bytes) v = mark-IsManager m id index bytes v
Step-IsManager {m} (removes id) v = remove-IsManager m id v
Step-IsManager {m} (writes id f keeps) v = adjust-IsManager m id f keeps v
