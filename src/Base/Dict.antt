-- ===== src/Base/Dict.antt =====
-- `std::unordered_map` as an association list, with keys compared by an instance. Where the source
-- walks a map its order is unspecified; here it is the order of first insertion.
use Prim.Native.Nat.{ℕ}
use mathlib.Core.Path.{◌≡◌, refl, sym, ◌∙◌, subst}
use mathlib.Core.Logic.{◌↔◌, ◌⊎◌, inl, inr}
use mathlib.Core.Bool.{Bool, true, false}
use mathlib.Core.Option.{Option, none, some}
use mathlib.Core.List.{List, [], ◌∷◌, map}
use native.Mathlib.Omega.{arith}
use computer_network_final_p.Base.Tests.{
  ◌==◌, ==_iff, eq_bytes, eq_bytes_iff, Bool-cases, Option-cases, if◌then◌else◌,
}

pub record Eq {ℓ} (A : Type ℓ) : Type ℓ where
  pub beq : A → A → Bool
  pub beq_iff : (a b : A) → (beq a b ≡ true) ↔ (a ≡ b)

instance abbrev pub nat_eq : Eq ℕ
nat_eq = record { beq = ◌==◌; beq_iff = ==_iff }

instance abbrev pub bytes_eq : Eq (List ℕ)
bytes_eq = record { beq = eq_bytes; beq_iff = eq_bytes_iff }

abbrev pub Dict {ℓ κ} : Type ℓ → Type κ → Type (ℓ ⊔ κ)
Dict K V = List (K × V)

pub beq_self {ℓ} : {K : Type ℓ} ⦃e : Eq K⦄ (k : K) → e.beq k k ≡ true
beq_self ⦃e⦄ k = (e.beq_iff k k).1 refl

module _ {ℓ κ} {K : Type ℓ} {V : Type κ} ⦃e : Eq K⦄ where
  unfoldable pub find : K → Dict K V → Option V
  find k [] = none
  find k ((j, v) ∷ m) = if e.beq j k then some v else find k m

  unfoldable pub insert : K → V → Dict K V → Dict K V
  insert k v [] = (k, v) ∷ []
  insert k v ((j, w) ∷ m) = if e.beq j k then (k, v) ∷ m else (j, w) ∷ insert k v m

  unfoldable pub erase : K → Dict K V → Dict K V
  erase k [] = []
  erase k ((j, w) ∷ m) = let rest = erase k m in if e.beq j k then rest else (j, w) ∷ rest

  -- A change through the pointer that `find` gives.
  unfoldable pub adjust : K → (V → V) → Dict K V → Dict K V
  adjust k f [] = []
  adjust k f ((j, w) ∷ m) = if e.beq j k then (j, f w) ∷ m else (j, w) ∷ adjust k f m

  unfoldable pub values : Dict K V → List V
  values = map λ entry. entry.1

  pub find-insert :
      (k j : K) (v : V) (m : Dict K V)
      → find j (insert k v m) ≡ (if e.beq k j then some v else find j m)
  unfolding find insert
  find-insert k j v [] = refl
  find-insert k j v ((i, w) ∷ m) =
      ground (arith, e.beq_iff k j, e.beq_iff i k, e.beq_iff i j, find-insert k j v m)

  pub find-erase :
      (k j : K) (m : Dict K V) → find j (erase k m) ≡ (if e.beq k j then none else find j m)
  unfolding find erase
  find-erase k j [] = ground arith
  find-erase k j ((i, w) ∷ m) =
      ground (arith, e.beq_iff k j, e.beq_iff i k, e.beq_iff i j, find-erase k j m)

  pub find-adjust_self :
      (k : K) (f : V → V) (m : Dict K V) (v : V)
      → find k m ≡ some v
      → find k (adjust k f m) ≡ some (f v)
  unfolding find adjust
  find-adjust_self k f [] v h = ground arith
  find-adjust_self k f ((i, w) ∷ m) v h = ground (arith, find-adjust_self k f m v)

  pub find-adjust_ne :
      (k j : K) (f : V → V) (m : Dict K V) → e.beq k j ≡ false → find j (adjust k f m) ≡ find j m
  unfolding find adjust
  find-adjust_ne k j f [] h = refl
  find-adjust_ne k j f ((i, w) ∷ m) h =
      ground (arith, e.beq_iff k j, e.beq_iff i k, e.beq_iff i j, find-adjust_ne k j f m)

  -- A change at a key that is missing changes nothing.
  pub adjust_missing : (k : K) (f : V → V) (m : Dict K V) → find k m ≡ none → adjust k f m ≡ m
  unfolding find adjust
  adjust_missing k f [] h = refl
  adjust_missing k f ((i, w) ∷ m) h = ground (arith, adjust_missing k f m)

module _ {ℓ κ} {K : Type ℓ} {V : Type κ} ⦃e : Eq K⦄ where
  -- Where an entry of a changed map comes from.
  pub find-adjust_cases :
      (k j : K) (f : V → V) (m : Dict K V) (v : V)
      → find j (adjust k f m) ≡ some v
      → (find j m ≡ some v) ⊎ ((w : V) × (find j m ≡ some w) × (v ≡ f w))
  find-adjust_cases k j f m v h = elim (Bool-cases (e.beq k j)) [
    | inr other ↦ inl (sym (find-adjust_ne k j f m other) ∙ h)
    | inl same ↦ elim (Option-cases (find k m)) [
      | inl missing ↦ inl (rw (← adjust_missing k f m missing) h)
      | inr (w, found) ↦
          let here : k ≡ j = (e.beq_iff k j).0 same in
          let changed : find j (adjust k f m) ≡ some (f w) =
            subst (λ i. find i (adjust k f m) ≡ some (f w)) here (find-adjust_self k f m w found) in
          inr (w, subst (λ i. find i m ≡ some w) here found, cc)
    ]
  ]

  pub find-adjust :
      (k : K) (f : V → V) (m : Dict K V) (v : V)
      → find k m ≡ some v
      → (j : K) → find j (adjust k f m) ≡ (if e.beq k j then some (f v) else find j m)
  find-adjust k f m v found j = elim (Bool-cases (e.beq k j)) [
    | inr other ↦ rw other (find-adjust_ne k j f m other)
    | inl same ↦ rw same (
        subst (λ i. find i (adjust k f m) ≡ some (f v)) ((e.beq_iff k j).0 same)
          (find-adjust_self k f m v found))
  ]
