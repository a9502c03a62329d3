-- ===== src/Base/Action.antt =====
-- Code that changes a state and may throw. A thrown error keeps the changes made before it.
use Prim.Native.Nat.{ℕ}
use mathlib.Core.Path.{◌≡◌, refl, sym, ap, ◌∙◌}
use mathlib.Core.Logic.{◌⊎◌, inl, inr}
use mathlib.Core.List.{List}
use computer_network_final_p.Base.Throwing.{Result, ok, err, fault, ok-injective}

abbrev pub Action : Type 0 → Type 0 → Type 0
Action S A = S → S × Result A

infixl 5 ◌>>=◌ ◌>>◌
abbrev pub ◌>>=◌ : {S A B : Type 0} → Action S A → (A → Action S B) → Action S B
◌>>=◌ m f s =
    let (s', r) = m s in elim r [ ok a ↦ f a s' | err e ↦ (s', err e) | fault ↦ (s', fault) ]

abbrev pub ◌>>◌ : {S B : Type 0} → Action S (Unit {0}) → Action S B → Action S B
m >> k = m >>= λ _. k

-- Code that does not touch the state.
abbrev pub lift : {S A : Type 0} → Result A → Action S A
lift r s = (s, r)

abbrev pub pure : {S A : Type 0} → A → Action S A
pure a s = (s, ok a)

-- `try { return m; } catch (const std::exception& e) { return handler(e.what()); }`
abbrev pub catch : {S A : Type 0} → Action S A → (List ℕ → A) → Action S A
catch m handler s =
    let (s', r) = m s in
    elim r [ ok a ↦ (s', ok a) | err e ↦ (s', ok (handler e)) | fault ↦ (s', fault) ]

-- A chain that gives a value went through a value of its first part.
pub bind-ok :
    {S A B : Type 0} (m : Action S A) (f : A → Action S B) (s s' : S) (b : B)
    → (m >>= f) s ≡ (s', ok b)
    → (mid : S) × (a : A) × (m s ≡ (mid, ok a)) × (f a mid ≡ (s', ok b))
bind-ok {S} {A} {B} m f s s' b e = step (m s) refl e
  where
    step :
        (p : S × Result A)
        → m s ≡ p
        → (let (mid, r) = p in
            elim r [ ok a ↦ f a mid | err what ↦ (mid, err what) | fault ↦ (mid, fault) ])
          ≡ (s', ok b)
        → (mid : S) × (a : A) × (m s ≡ (mid, ok a)) × (f a mid ≡ (s', ok b))
    step (mid, ok a) h e = (mid, a, h, e)
    step (mid, err what) h e = absurd cc
    step (mid, fault) h e = absurd cc

pub pure-ok : {S A : Type 0} (a b : A) (s s' : S) → pure a s ≡ (s', ok b) → (s ≡ s') × (a ≡ b)
pure-ok a b s s' e = (ap (λ p. p.0) e, ok-injective (ap (λ p. p.1) e))

-- A result of `catch` came from the code or from its handler.
pub catch-ok :
    {S A : Type 0} (m : Action S A) (handler : List ℕ → A) (s s' : S) (a : A)
    → catch m handler s ≡ (s', ok a)
    → (m s ≡ (s', ok a)) ⊎ ((what : List ℕ) × (a ≡ handler what))
catch-ok {S} {A} m handler s s' a e = step (m s) refl e
  where
    step :
        (p : S × Result A)
        → m s ≡ p
        → catch (λ _. p) handler s ≡ (s', ok a)
        → (m s ≡ (s', ok a)) ⊎ ((what : List ℕ) × (a ≡ handler what))
    step (mid, ok b) h e = inl (h ∙ e)
    step (mid, err what) h e = inr (what, sym (ok-injective (ap (λ p. p.1) e)))
    step (mid, fault) h e = absurd cc

module _ {S A B : Type 0} (m : Action S A) (s : S) where
  -- Two continuations that agree on every outcome give one chain.
  pub bind-congr :
      (f g : A → Action S B) → ((a : A) (mid : S) → f a mid ≡ g a mid) → (m >>= f) s ≡ (m >>= g) s
  bind-congr f g same = step (m s)
    where
      step : (p : S × Result A) → ((λ _. p) >>= f) s ≡ ((λ _. p) >>= g) s
      step (mid, ok a) = same a mid
      step (mid, err what) = refl
      step (mid, fault) = refl

  -- A chain whose first part gives a value goes on with it.
  pub bind-runs :
      (f : A → Action S B) (s' : S) (a : A) (r : S × Result B)
      → m s ≡ (s', ok a)
      → f a s' ≡ r
      → (m >>= f) s ≡ r
  bind-runs f s' a r e later = ap (λ p. ((λ _. p) >>= f) s) e ∙ later

  pub bind_assoc :
      {C : Type 0} (f : A → Action S B) (g : B → Action S C)
      → ((m >>= f) >>= g) s ≡ (m >>= (λ a. f a >>= g)) s
  bind_assoc f g = step (m s)
    where
      step : (p : S × Result A) → (((λ _. p) >>= f) >>= g) s ≡ ((λ _. p) >>= (λ a. f a >>= g)) s
      step (mid, ok a) = refl
      step (mid, err what) = refl
      step (mid, fault) = refl
