-- ===== src/FileStore/Paths.antt =====
-- The paths that transfers write to.
use mathlib.Core.List.{append_cancel_left}
use computer_network_final_p.Base.{
  ℕ, ◌^◌, ◌<◌, ◌≡◌, ◌≢◌, refl, ap, List, [], ◌∷◌, ◌++◌, length, length-append, All, All-append,
  IsPlain, arith, text,
}
use computer_network_final_p.FileStore.{get_file_path, get_temp_path}
use computer_network_final_p.FileStore.Decimal.{
  IsDigit, to_string, digits-IsDigit, to_string-injective,
}

-- Digits hold no slash, so the first slash behind them is found.
split_slash :
    (xs ys us vs : List ℕ)
    → All IsDigit xs
    → All IsDigit ys
    → xs ++ (b'/' ∷ us) ≡ ys ++ (b'/' ∷ vs)
    → (xs ≡ ys) × (us ≡ vs)
split_slash [] [] us vs hx hy e = (refl, cc)
split_slash [] (y ∷ ys) us vs hx hy e = ground arith
split_slash (x ∷ xs) [] us vs hx hy e = ground arith
split_slash (x ∷ xs) (y ∷ ys) us vs hx hy e = ground (arith, split_slash xs ys us vs hx.1 hy.1)

module _ (base : List ℕ) (m n : ℕ) (hm : m < 2 ^ 64) (hn : n < 2 ^ 64) where
  -- What stands behind the base directory decides the id and the rest.
  tail_inj :
      (f g : List ℕ)
      → base ++ (text "/" ++ (to_string m ++ (text "/" ++ f)))
        ≡ base ++ (text "/" ++ (to_string n ++ (text "/" ++ g)))
      → (m ≡ n) × (f ≡ g)
  unfolding text
  tail_inj f g e =
      let (digits_eq, rest_eq) =
        split_slash (to_string m) (to_string n) f g (digits_of m) (digits_of n)
          (append_cancel_left (b'/' ∷ []) _ _ (append_cancel_left base _ _ e)) in
      (to_string-injective m n hm hn digits_eq, rest_eq)
    where
      digits_of : (k : ℕ) → All IsDigit (to_string k)
      digits_of k = unfold to_string in digits-IsDigit 20 k

  -- Under one base directory, a final path belongs to one transfer id and one file name.
  pub get_file_path-injective :
      (f g : List ℕ) → get_file_path base m f ≡ get_file_path base n g → (m ≡ n) × (f ≡ g)
  unfolding get_file_path
  get_file_path-injective f g e = tail_inj f g e

  -- As strings, no path of one transfer, final or `.part`, is a path of a transfer with another id,
  -- whatever the file names are.
  pub paths_disjoint :
      (f g : List ℕ)
      → m ≢ n
      → (get_file_path base m f ≢ get_file_path base n g)
        × (get_temp_path base m f ≢ get_temp_path base n g)
        × (get_temp_path base m f ≢ get_file_path base n g)
        × (get_file_path base m f ≢ get_temp_path base n g)
  unfolding get_file_path get_temp_path
  paths_disjoint f g other = (
    λ e. other (tail_inj f g e).0,
    λ e. other (tail_inj (f ++ text ".part") (g ++ text ".part") e).0,
    λ e. other (tail_inj (f ++ text ".part") g e).0,
    λ e. other (tail_inj f (g ++ text ".part") e).0,
  )

-- A transfer's `.part` path is not its final path.
pub temp-ne-final :
    (base : List ℕ) (id : ℕ) (f : List ℕ) → get_temp_path base id f ≢ get_file_path base id f
unfolding get_file_path get_temp_path text
temp-ne-final base id f e =
    let rest = append_cancel_left (b'/' ∷ []) _ _ (
      append_cancel_left (to_string id) _ _
        (append_cancel_left (b'/' ∷ []) _ _ (append_cancel_left base _ _ e))) in
    absurd (omega (arith, ap length rest, length-append f (text ".part")))

digits-IsPlain : (xs : List ℕ) → All IsDigit xs → IsPlain xs
digits-IsPlain [] h = tt
digits-IsPlain (x ∷ xs) h = ((λ e. absurd (omega (arith, h.0.0))), digits-IsPlain xs h.1)

-- A base directory and a file name without zero bytes make paths without zero bytes.
pub get_file_path-IsPlain :
    (base : List ℕ) (id : ℕ) (f : List ℕ)
    → IsPlain base
    → IsPlain f
    → IsPlain (get_file_path base id f)
unfolding get_file_path text to_string
get_file_path-IsPlain base id f hb hf = All-append _ base _ hb (
  (λ e. absurd (omega arith)),
  All-append _ (to_string id) _ (digits-IsPlain _ (digits-IsDigit 20 id))
      ((λ e. absurd (omega arith)), hf),
)

pub get_temp_path-IsPlain :
    (base : List ℕ) (id : ℕ) (f : List ℕ)
    → IsPlain base
    → IsPlain f
    → IsPlain (get_temp_path base id f)
unfolding get_temp_path get_file_path text
get_temp_path-IsPlain base id f hb hf = get_file_path-IsPlain base id (f ++ text ".part") hb (
    All-append _ f (text ".part") hf (
      λ e. absurd (omega arith),
      (
        λ e. absurd (omega arith),
        (λ e. absurd (omega arith), (λ e. absurd (omega arith), (λ e. absurd (omega arith), tt))),
      ),
    ))
