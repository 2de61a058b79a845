-- ===== src/Array/View.antt =====
-- The elements of an array as a list.
use experimental_kernel.Common.{
  ℕ, zero, suc, ◌<◌, ◌≡◌, refl, List, [], ◌∷◌, arith, length, ap, get_elem?, some,
}
use mathlib.Core.Path.{ap₂}
use experimental_kernel.Array.{Array}

module _ {A : Type 0} where
  unfoldable pub view : ℕ → (ℕ → A) → List A
  view zero c = []
  view (suc n) c = c 0 ∷ view n (λ i. c (suc i))

  unfoldable pub to_list : Array A → List A
  unfolding view
  to_list a = view a.size a.cells

  pub view_ext : (n : ℕ) (c g : ℕ → A) → ((i : ℕ) → i < n → c i ≡ g i) → view n c ≡ view n g
  unfolding view
  view_ext zero c g h = refl
  view_ext (suc n) c g h =
      ap₂ ◌∷◌ (h 0 (omega arith)) (view_ext n _ _ (λ k lt. h (suc k) (omega arith)))

  pub length-view : (n : ℕ) (c : ℕ → A) → length (view n c) ≡ n
  unfolding view
  length-view zero c = refl
  length-view (suc n) c = ap suc (length-view n _)

  pub get_elem?-view : (n : ℕ) (c : ℕ → A) (i : ℕ) → i < n → get_elem? (view n c) i ≡ some (c i)
  unfolding view
  get_elem?-view zero c i h = absurd (omega arith)
  get_elem?-view (suc n) c zero h = refl
  get_elem?-view (suc n) c (suc i) h = get_elem?-view n _ i (omega arith)

  -- The list without its element at an index.
  unfoldable pub remove_at : ℕ → List A → List A
  remove_at i [] = []
  remove_at zero (x ∷ xs) = xs
  remove_at (suc i) (x ∷ xs) = x ∷ remove_at i xs
