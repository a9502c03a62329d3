-- ===== src/Server/Held.antt =====
-- A transfer that is created, that gets a stream, or whose stream is closed.
use computer_network_final_p.Base.{
  some-injective, ℕ, ◌+◌, ◌<◌, ◌≡◌, ◌≢◌, refl, sym, ap, ◌∙◌, ◌⊎◌, false, Bool-cases, inl, inr, some,
  ◌==◌, arith,
}
use computer_network_final_p.Base.Dict.{find-insert, nat_eq}
use computer_network_final_p.Transfer.{
  TransferState, TransferSession, TransferManager, Offer, new_session, create_transfer,
  get_transfer, adjust_session, update_state,
}
use computer_network_final_p.FileStore.Files.{Disk}
use computer_network_final_p.FileStore.Streams.{IsOpen, Opens, Closes}
use computer_network_final_p.Server.Files.{is_accepted_or_receiving}
use computer_network_final_p.Server.Handles.{Holds, changed_cases, adjusted-Holds}

pub create_transfer-Holds :
    (m : TransferManager) (d : Disk) (o : Offer) → Holds m d → Holds (create_transfer m o).0 d
unfolding create_transfer get_transfer new_session is_accepted_or_receiving
create_transfer-Holds m d o v = record {
  live = λ j t found alive. elim (created j t found) [
    | inl old ↦ v.live j t old alive
    | inr new ↦ absurd (let e = ap (λ x. is_accepted_or_receiving x.state) new in cc)
  ];
  apart = λ i j h s t found_i found_j held_i held_j. elim (created i s found_i) [
    | inr new ↦ absurd (let e = ap (λ x. x.file_handle) new in cc)
    | inl old_i ↦ elim (created j t found_j) [
      | inr new ↦ absurd (let e = ap (λ x. x.file_handle) new in cc)
      | inl old_j ↦ v.apart i j h s t old_i old_j held_i held_j
    ]
  ];
  below = λ j h t found held. elim (created j t found) [
    | inl old ↦ v.below j h t old held
    | inr new ↦ absurd (let e = ap (λ x. x.file_handle) new in cc)
  ];
}
  where
    created :
        (j : ℕ) (t : TransferSession)
        → get_transfer (create_transfer m o).0 j ≡ some t
        → (get_transfer m j ≡ some t) ⊎ (t ≡ new_session m.next_transfer_id o)
    created j t found =
        let e = sym (find-insert m.next_transfer_id j _ m.transfers) ∙ found in
        elim (Bool-cases (m.next_transfer_id == j)) [
          | inl same ↦ let e1 = rw same at e in inr cc
          | inr other ↦ let e1 = rw other at e in inl e1
        ]

-- A transfer gets the next handle.
pub hold_new-Holds :
    (m : TransferManager) (d d' : Disk) (id : ℕ) (t : TransferSession)
    → get_transfer m id ≡ some t
    → Opens d d'
    → d'.next_stream ≡ d.next_stream + 1
    → IsOpen d'.streams d.next_stream
    → Holds m d
    → Holds (adjust_session m id (λ t. record t { file_handle = some d.next_stream })) d'
hold_new-Holds m d d' id t there o next fresh v = record {
  live = λ j s found alive. elim (changed_cases m id given t there j s found) [
    | inl (same, e) ↦ (d.next_stream, ap (λ x. x.file_handle) e, fresh)
    | inr (other, old) ↦ let (h, held, open_h) = v.live j s old alive in (h, held, o.kept h open_h)
  ];
  apart = λ i j h s u found_i found_j held_i held_j.
      elim (changed_cases m id given t there i s found_i) [
        | inl (same_i, e_i) ↦ elim (changed_cases m id given t there j u found_j) [
          | inl (same_j, e_j) ↦ sym same_i ∙ same_j
          | inr (other_j, old_j) ↦
              absurd
                (too_big h (v.below j h u old_j held_j) (sym held_i ∙ ap (λ x. x.file_handle) e_i))
        ]
        | inr (other_i, old_i) ↦ elim (changed_cases m id given t there j u found_j) [
          | inl (same_j, e_j) ↦
              absurd
                (too_big h (v.below i h s old_i held_i) (sym held_j ∙ ap (λ x. x.file_handle) e_j))
          | inr (other_j, old_j) ↦ v.apart i j h s u old_i old_j held_i held_j
        ]
      ];
  below = λ j h s found held. elim (changed_cases m id given t there j s found) [
    | inl (same, e) ↦
        let e1 : h ≡ d.next_stream =
          some-injective h d.next_stream (sym held ∙ ap (λ x. x.file_handle) e) in
        omega arith
    | inr (other, old) ↦ let b = v.below j h s old held in omega arith
  ];
}
  where
    given : TransferSession → TransferSession
    given t = record t { file_handle = some d.next_stream }

    too_big : (h : ℕ) → h < d.next_stream → some h ≢ some d.next_stream
    too_big h small e = let e1 = some-injective h d.next_stream e in omega arith

-- A transfer's stream is closed, and the transfer takes a state in which no chunk is taken.
pub close-Holds :
    (m : TransferManager) (d d' : Disk) (id h : ℕ) (t : TransferSession) (state : TransferState)
    → get_transfer m id ≡ some t
    → t.file_handle ≡ some h
    → Closes d d' h
    → is_accepted_or_receiving state ≡ false
    → Holds m d
    → Holds (update_state m id state).0 d'
unfolding update_state get_transfer
close-Holds m d d' id h t state there held c over v =
    let f : TransferSession → TransferSession = λ s. record s { state = state } in
    let v1 = adjusted-Holds m d id f t there refl (λ alive. absurd cc) v in
    rw (there, update_state)
      (record {
        live = λ j s found alive. elim (changed_cases m id f t there j s found) [
          | inl (same, e) ↦ absurd (let e1 = ap (λ x. is_accepted_or_receiving x.state) e in cc)
          | inr (other, old) ↦
              let (k, held_k, open_k) = v.live j s old alive in
              let differs : h ≢ k =
                λ e. other (v.apart id j h t s there old held (held_k ∙ ap some (sym e))) in
              (k, held_k, c.kept k differs open_k)
        ];
        apart = v1.apart;
        below =
            λ j k s found held_k. let b = v1.below j k s found held_k in omega (arith, b, c.next);
      })
