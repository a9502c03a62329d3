-- ===== src/Server/Handles.antt =====
-- The transfers against the streams: what the handlers rely on when they use a file handle.
use computer_network_final_p.Base.{
  ℕ, ◌<◌, ◌≡◌, ◌≢◌, refl, sym, ap, ◌∙◌, subst, ◌⊎◌, true, Bool-cases, inl, inr, some, Option-cases,
  ◌==◌, ==_iff, arith,
}
use computer_network_final_p.Base.Dict.{find, find-adjust, adjust_missing, nat_eq}
use computer_network_final_p.Transfer.{
  TransferState, offered, accepted, receiving, completed, failed, TransferSession, TransferManager,
  get_transfer, adjust_session, update_state, receiving_from, mark_session, mark_chunk_received,
}
use computer_network_final_p.FileStore.Files.{Disk}
use computer_network_final_p.FileStore.Streams.{IsOpen, Opens}
use computer_network_final_p.Server.Files.{is_accepted_or_receiving}

-- A transfer that is accepted or receiving has an open stream, no two transfers were given one stream, and
-- every handle is of a stream that `fopen` opened before. A handle is a stream here, not its address.
pub record Holds (m : TransferManager) (d : Disk) : Type 0 where
  pub live :
      (id : ℕ) (t : TransferSession)
      → get_transfer m id ≡ some t
      → is_accepted_or_receiving t.state ≡ true
      → (h : ℕ) × (t.file_handle ≡ some h) × IsOpen d.streams h
  pub apart :
      (i j h : ℕ) (s t : TransferSession)
      → get_transfer m i ≡ some s
      → get_transfer m j ≡ some t
      → s.file_handle ≡ some h
      → t.file_handle ≡ some h
      → i ≡ j
  pub below :
      (id h : ℕ) (t : TransferSession)
      → get_transfer m id ≡ some t
      → t.file_handle ≡ some h
      → h < d.next_stream

pub Opens-Holds : (m : TransferManager) (d d' : Disk) → Opens d d' → Holds m d → Holds m d'
Opens-Holds m d d' o v = record {
  live = λ id t found alive.
      let (h, held, open_h) = v.live id t found alive in (h, held, o.kept h open_h);
  apart = v.apart;
  below = λ id h t found held. omega (arith, v.below id h t found held, o.next);
}

-- Where a session of a changed manager comes from.
pub changed_cases :
    (m : TransferManager) (id : ℕ) (f : TransferSession → TransferSession) (t : TransferSession)
    → get_transfer m id ≡ some t
    → (j : ℕ) (t' : TransferSession) → get_transfer (adjust_session m id f) j ≡ some t'
    → ((id ≡ j) × (t' ≡ f t)) ⊎ ((id ≢ j) × (get_transfer m j ≡ some t'))
unfolding adjust_session get_transfer
changed_cases m id f t there j t' found =
    let e = sym (find-adjust id f m.transfers t there j) ∙ found in
    elim (Bool-cases (id == j)) [
      | inl same ↦ let e1 = rw same at e in inl ((==_iff id j).0 same, cc)
      | inr other ↦
          let e1 = rw other at e in inr ((λ here. let e2 = (==_iff id j).1 here in cc), e1)
    ]

-- A change of one session that keeps its handle, in a state for which the handle is open.
pub adjusted-Holds :
    (m : TransferManager) (d : Disk) (id : ℕ) (f : TransferSession → TransferSession)
    (t : TransferSession)
    → get_transfer m id ≡ some t
    → (f t).file_handle ≡ t.file_handle
    → (is_accepted_or_receiving (f t).state ≡ true
        → (h : ℕ) × (t.file_handle ≡ some h) × IsOpen d.streams h)
    → Holds m d
    → Holds (adjust_session m id f) d
adjusted-Holds m d id f t there kept alive v = record {
  live = λ j s found running. elim (changed_cases m id f t there j s found) [
    | inr (other, found_j) ↦ v.live j s found_j running
    | inl (same, e) ↦
        let (h, held, open_h) =
          alive (sym (ap (λ x. is_accepted_or_receiving x.state) e) ∙ running) in
        (h, ap (λ x. x.file_handle) e ∙ kept ∙ held, open_h)
  ];
  apart = λ i j h s u found_i found_j held_i held_j.
      let (a, there_i, e_i) = from i s found_i in
      let (b, there_j, e_j) = from j u found_j in
      v.apart i j h a b there_i there_j (sym e_i ∙ held_i) (sym e_j ∙ held_j);
  below = λ j h s found held.
      let (a, there_j, e) = from j s found in v.below j h a there_j (sym e ∙ held);
}
  where
    from :
        (j : ℕ) (s : TransferSession)
        → get_transfer (adjust_session m id f) j ≡ some s
        → (a : TransferSession) × (get_transfer m j ≡ some a) × (s.file_handle ≡ a.file_handle)
    from j s found = elim (changed_cases m id f t there j s found) [
      | inr (other, found_j) ↦ (s, found_j, refl)
      | inl (same, e) ↦
          (t, subst (λ i. get_transfer m i ≡ some t) same there, ap (λ x. x.file_handle) e ∙ kept)
    ]

-- A change that leaves handle and state as they are.
pub adjust-Holds :
    (m : TransferManager) (d : Disk) (id : ℕ) (f : TransferSession → TransferSession)
    → ((t : TransferSession) → (f t).file_handle ≡ t.file_handle)
    → ((t : TransferSession)
        → is_accepted_or_receiving (f t).state ≡ true
        → is_accepted_or_receiving t.state ≡ true)
    → Holds m d
    → Holds (adjust_session m id f) d
unfolding get_transfer
adjust-Holds m d id f kept not_revived v = elim (Option-cases (find id m.transfers)) [
  | inl missing ↦ unfold adjust_session in (rw (adjust_missing id f m.transfers missing) v)
  | inr (t, there) ↦
      adjusted-Holds m d id f t there (kept t) (λ alive. v.live id t there (not_revived t alive)) v
]

pub update_state-Holds :
    (m : TransferManager) (d : Disk) (id : ℕ) (state : TransferState)
    → ((t : TransferSession)
        → get_transfer m id ≡ some t
        → is_accepted_or_receiving state ≡ true
        → (h : ℕ) × (t.file_handle ≡ some h) × IsOpen d.streams h)
    → Holds m d
    → Holds (update_state m id state).0 d
unfolding update_state get_transfer
update_state-Holds m d id state alive v = elim (Option-cases (find id m.transfers)) [
  | inl missing ↦ rw (missing, update_state) v
  | inr (t, there) ↦
      rw (there, update_state)
        (adjusted-Holds m d id (λ s. record s { state = state }) t there refl (alive t there) v)
]

receiving_from-live :
    (state : TransferState)
    → is_accepted_or_receiving (receiving_from state) ≡ true
    → is_accepted_or_receiving state ≡ true
unfolding is_accepted_or_receiving receiving_from
receiving_from-live accepted alive = refl
receiving_from-live receiving alive = refl
receiving_from-live offered alive = alive
receiving_from-live completed alive = alive
receiving_from-live failed alive = alive

mark_session-kept :
    (index n : ℕ) (t : TransferSession)
    → ((mark_session index n t).0.file_handle ≡ t.file_handle)
      × (is_accepted_or_receiving (mark_session index n t).0.state ≡ true
          → is_accepted_or_receiving t.state ≡ true)
unfolding mark_session
mark_session-kept index n t = elim (Bool-cases (index == t.expected_chunk_index)) [
  | inl turn ↦ rw turn (refl, receiving_from-live t.state)
  | inr late ↦ rw late (refl, λ alive. alive)
]

pub mark_chunk_received-Holds :
    (m : TransferManager) (d : Disk) (id index n : ℕ)
    → Holds m d
    → Holds (mark_chunk_received m id index n).0 d
unfolding mark_chunk_received
mark_chunk_received-Holds m d id index n v = elim (Option-cases (find id m.transfers)) [
  | inl missing ↦ rw (missing, mark_chunk_received) v
  | inr (t, there) ↦
      rw (there, mark_chunk_received)
        (adjust-Holds m d id (λ s. (mark_session index n s).0)
          (λ s. (mark_session-kept index n s).0) (λ s. (mark_session-kept index n s).1) v)
]
