-- ===== src/Base/Strings.antt =====
-- `std::string::c_str` given to a function of C, which reads up to the first zero byte.
use Prim.Native.Nat.{ℕ}
use mathlib.Core.Path.{◌≡◌, refl}
use mathlib.Core.Logic.{◌≢◌}
use mathlib.Core.List.{List, [], ◌∷◌}
use native.Mathlib.Omega.{arith}
use computer_network_final_p.Base.Tests.{◌==◌, if◌then◌else◌}
use computer_network_final_p.Base.Lists.{All}

unfoldable pub c_str : List ℕ → List ℕ
c_str [] = []
c_str (c ∷ rest) = let more = c_str rest in if c == 0 then [] else c ∷ more

-- Without a zero byte the whole string is read.
abbrev pub IsPlain : List ℕ → Type 0
IsPlain = All λ c. c ≢ 0

pub c_str-IsPlain : (s : List ℕ) → IsPlain s → c_str s ≡ s
unfolding c_str
c_str-IsPlain [] h = refl
c_str-IsPlain (c ∷ rest) h = ground (arith, c_str-IsPlain rest h.1, h.0)
