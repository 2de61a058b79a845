-- ===== src/Array/Erase.antt =====
-- Erasing one element.
use experimental_kernel.Common.{
  ℕ, zero, suc, ◌+◌, ◌-◌, ◌<◌, ◌≤◌, ◌^◌, ◌≡◌, ◌∷◌, arith, ltb, leb, if◌then◌else◌, ◌&&◌, ◌-ʷ◌, ◌∙◌,
}
use mathlib.Core.Path.{ap₂}
use experimental_kernel.Array.{Array, put, erase_loop, erase}
use experimental_kernel.Array.View.{view, to_list, view_ext, remove_at}

module _ {A : Type 0} where
  erase_loop_lem :
      (left i : ℕ) (c : ℕ → A) (k : ℕ)
      → erase_loop left i c k ≡ (if leb i k && ltb k (i + left) then c (k + 1) else c k)
  unfolding erase_loop
  erase_loop_lem zero i c k = ground arith
  erase_loop_lem (suc left) i c k =
      ground (arith, erase_loop_lem left (i + 1) (put c i (c (i + 1))) k)

  view-remove_at :
      (n p : ℕ) (c g : ℕ → A)
      → p ≤ n
      → ((k : ℕ) → k < n → g k ≡ (if ltb k p then c k else c (k + 1)))
      → view n g ≡ remove_at p (view (suc n) c)
  unfolding view remove_at
  view-remove_at n zero c g le h = view_ext n _ _ (λ k lt. h k lt ∙ ground arith)
  view-remove_at zero (suc p) c g le h = absurd (omega arith)
  view-remove_at (suc n) (suc p) c g le h = ap₂ ◌∷◌ (h 0 (omega arith) ∙ ground arith) (
      view-remove_at n p (λ i. c (suc i)) (λ i. g (suc i)) (omega arith)
        (λ k lt. h (suc k) (omega arith) ∙ ground arith))

  view-erase :
      (s p : ℕ) (c : ℕ → A)
      → p < s
      → s < 2 ^ 32
      → view (s -ʷ 1) (erase_loop (s -ʷ 1 - p) p c) ≡ remove_at p (view s c)
  view-erase zero p c h b = absurd (omega arith)
  view-erase (suc n) p c h b =
      let e : suc n -ʷ 1 ≡ n = omega arith in
      rw e (
        view-remove_at n p c (erase_loop (n - p) p c) (omega arith)
          (λ k lt. erase_loop_lem (n - p) p c k ∙ ground arith))

  -- `erase` at an index inside the array removes that element and keeps the order of the rest.
  pub to_list-erase :
      (a : Array A) (p : ℕ)
      → p < a.size
      → a.size < 2 ^ 32
      → to_list (erase a p) ≡ remove_at p (to_list a)
  unfolding to_list erase
  to_list-erase a p h b = view-erase a.size p a.cells h b
