-- ===== src/Heap/Lookup.antt =====
-- Finding and dropping one address in the index.
use experimental_kernel.Common.{
  ℕ, suc, ◌+◌, ◌<◌, ◌^◌, ◌≡◌, ◌≢◌, List, [], ◌∷◌, ◌++◌, arith, length, refl, ap, sym, ◌∙◌, none,
  some, get_elem?, ne→==, eq→==, length-append,
}
use mathlib.Core.Path.{subst}
use experimental_kernel.Array.{Array, at_ordered, erase}
use experimental_kernel.Array.View.{to_list, remove_at}
use experimental_kernel.Array.Erase.{to_list-erase}
use experimental_kernel.Array.Insert.{Above}
use experimental_kernel.Heap.{index_of_loop, index_of, erase_if_there}
use experimental_kernel.Heap.Index.{Below, remove_at-append}
use experimental_kernel.Heap.Search.{at_ordered-to_list, length-to_list}

abbrev pub Lacks : ℕ → List ℕ → Type 0
Lacks x [] = Unit
Lacks x (y ∷ ys) = (y ≢ x) × Lacks x ys

pub Below-Lacks : (x : ℕ) (xs : List ℕ) → Below x xs → Lacks x xs
Below-Lacks x [] h = tt
Below-Lacks x (y ∷ ys) h = (omega (arith, h.0), Below-Lacks x ys h.1)

pub Above-Lacks : (x : ℕ) (xs : List ℕ) → Above x xs → Lacks x xs
Above-Lacks x [] h = tt
Above-Lacks x (y ∷ ys) h = (omega (arith, h.0), Above-Lacks x ys h.1)

pub Lacks-append : (x : ℕ) (xs ys : List ℕ) → Lacks x xs → Lacks x ys → Lacks x (xs ++ ys)
Lacks-append x [] ys h k = k
Lacks-append x (y ∷ xs) ys h k = (h.0, Lacks-append x xs ys h.1 k)

module _ (index : Array ℕ) (x : ℕ) where
  abbrev Holds : ℕ → List ℕ → Type 0
  Holds i hs = (k : ℕ) → k < length hs → get_elem? hs k ≡ some (at_ordered index (i + k))

  first_held : (i y : ℕ) (ys : List ℕ) → Holds i (y ∷ ys) → at_ordered index i ≡ y
  first_held i y ys held = ground (arith, held 0 (omega arith))

  rest_held : (i y : ℕ) (ys : List ℕ) → Holds i (y ∷ ys) → Holds (i + 1) ys
  rest_held i y ys held k lt =
      held (suc k) (omega arith) ∙ ap (λ t. some (at_ordered index t)) (omega arith)

  index_of_loop-none :
      (i : ℕ) (hs : List ℕ) → Lacks x hs → Holds i hs → index_of_loop (length hs) i index x ≡ none
  unfolding index_of_loop
  index_of_loop-none i [] l held = refl
  index_of_loop-none i (y ∷ ys) l held =
      rw (first_held i y ys held, ne→== y x l.0)
        (index_of_loop-none (i + 1) ys l.1 (rest_held i y ys held))

  index_of_loop-some :
      (i : ℕ) (xs ys : List ℕ)
      → Lacks x xs
      → Holds i (xs ++ x ∷ ys)
      → index_of_loop (length (xs ++ x ∷ ys)) i index x ≡ some (i + length xs)
  unfolding index_of_loop
  index_of_loop-some i [] ys l held =
      rw (first_held i x ys held, eq→== x x refl) (ap some (omega arith))
  index_of_loop-some i (y ∷ xs) ys l held =
      rw (first_held i y (xs ++ x ∷ ys) held, ne→== y x l.0)
        (index_of_loop-some (i + 1) xs ys l.1 (rest_held i y (xs ++ x ∷ ys) held)
          ∙ ap some (omega arith))

  held_all : Holds 0 (to_list index)
  held_all k lt =
      at_ordered-to_list index k (omega (arith, length-to_list index))
      ∙ ap (λ t. some (at_ordered index t)) (omega arith)

  index_of-none : Lacks x (to_list index) → index_of index x ≡ none
  unfolding index_of
  index_of-none l =
      ap (λ s. index_of_loop s 0 index x) (sym (length-to_list index))
      ∙ index_of_loop-none 0 (to_list index) l held_all

  -- An address that is not listed is dropped without a change.
  pub erase_if_there-none : Lacks x (to_list index) → erase_if_there index x ≡ index
  unfolding erase_if_there
  erase_if_there-none l = rw (index_of-none l, erase_if_there)

  pub index_of-some :
      (xs ys : List ℕ)
      → to_list index ≡ xs ++ x ∷ ys
      → Lacks x xs
      → index_of index x ≡ some (length xs)
  unfolding index_of
  index_of-some xs ys e l =
      ap (λ s. index_of_loop s 0 index x) (sym (length-to_list index) ∙ ap length e)
      ∙ index_of_loop-some 0 xs ys l (subst (Holds 0) e held_all)
      ∙ ap some (omega arith)

  pub to_list-erase_listed :
      (xs ys : List ℕ)
      → to_list index ≡ xs ++ x ∷ ys
      → index.size < 2 ^ 32
      → to_list (erase index (length xs)) ≡ xs ++ ys
  to_list-erase_listed xs ys e small =
      let size : index.size ≡ length xs + length (x ∷ ys) =
        sym (length-to_list index) ∙ ap length e ∙ length-append xs (x ∷ ys) in
      to_list-erase index (length xs) (omega (arith, size)) small
      ∙ ap (remove_at (length xs)) e
      ∙ remove_at-append xs x ys
