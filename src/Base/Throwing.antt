-- ===== src/Base/Throwing.antt =====
-- The outcome of code that may throw: a value, a thrown `std::runtime_error` with its text, or
-- `fault`, a read outside the buffer, whose behaviour C++ leaves undefined.
use Prim.Native.Nat.{ℕ}
use Prim.Native.Char.{code}
use Prim.Native.String.{String}
use mathlib.Core.Path.{◌≡◌, refl}
use mathlib.Core.Logic.{◌⊎◌, inl, inr}
use mathlib.Core.Bool.{Bool, true, false}
use mathlib.Core.List.{List, [], ◌∷◌}

-- The bytes of an ASCII literal.
unfoldable pub text : String → List ℕ
text String.[] = []
text (String.◌∷◌ c s) = code c ∷ text s

pub data Result {ℓ} (A : Type ℓ) : Type ℓ where
  ok : A → Result A
  err : List ℕ → Result A
  fault : Result A

infixl 5 ◌>>=◌ ◌>>◌
abbrev pub ◌>>=◌ {ℓ κ} : {A : Type ℓ} {B : Type κ} → Result A → (A → Result B) → Result B
ok a >>= f = f a
err e >>= f = err e
fault >>= f = fault

abbrev pub ◌>>◌ {ℓ} : {B : Type ℓ} → Result (Unit {0}) → Result B → Result B
m >> k = m >>= λ _. k

-- `if (b) throw std::runtime_error(message);`
abbrev pub throw_if : Bool → String → Result (Unit {0})
throw_if true message = err (text message)
throw_if false message = ok tt

pub ok-injective {ℓ} : {A : Type ℓ} {a b : A} → ok a ≡ ok b → a ≡ b
ok-injective e = cc

pub Result-cases {ℓ} :
    {A : Type ℓ} (r : Result A)
    → ((a : A) × (r ≡ ok a)) ⊎ ((what : List ℕ) × (r ≡ err what)) ⊎ (r ≡ fault)
Result-cases (ok a) = inl (a, refl)
Result-cases (err what) = inr (inl (what, refl))
Result-cases fault = inr (inr refl)
