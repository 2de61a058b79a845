-- ===== src/Heap/Index.antt =====
-- The list of hole addresses under splitting, removal and insertion.
use experimental_kernel.Common.{
  ℕ, ◌+◌, ◌*◌, ◌≤◌, ◌<◌, ◌≡◌, List, [], ◌∷◌, ◌++◌, arith, length, refl, ap, Bool-cases, inl, inr,
  lt→ltb, le→ltb,
}
use experimental_kernel.Memory.{Mem}
use experimental_kernel.Heap.Layout.{Seg, Front, Layout, holes, total}
use experimental_kernel.Array.Insert.{Above, insert}
use experimental_kernel.Array.View.{remove_at}

abbrev pub Below : ℕ → List ℕ → Type 0
Below x [] = Unit
Below x (y ∷ ys) = (y < x) × Below x ys

pub holes-append :
    (a : ℕ) (pre ss : List Seg) → holes a (pre ++ ss) ≡ holes a pre ++ holes (a + total pre) ss
holes-append a [] ss = let e : a + total [] ≡ a = omega arith in rw e
holes-append a (p ∷ pre) ss =
    let e : a + p.size + total pre ≡ a + (p.size + total pre) = omega arith in
    elim (Bool-cases p.hole) [
      | inl h ↦ rw h (ap (λ t. a ∷ t) (rw e at (holes-append (a + p.size) pre ss)))
      | inr h ↦ rw h (rw e at (holes-append (a + p.size) pre ss))
    ]

pub remove_at-append :
    {A : Type 0} (xs : List A) (x : A) (ys : List A)
    → remove_at (length xs) (xs ++ x ∷ ys) ≡ xs ++ ys
unfolding remove_at
remove_at-append [] x ys = refl
remove_at-append (y ∷ xs) x ys = ap (λ t. y ∷ t) (remove_at-append xs x ys)

insert-front : (x : ℕ) (ys : List ℕ) → Above x ys → insert x ys ≡ x ∷ ys
unfolding insert
insert-front x [] h = refl
insert-front x (y ∷ ys) h = rw (le→ltb y x (omega (arith, h.0)))

pub insert-append :
    (x : ℕ) (xs ys : List ℕ) → Below x xs → Above x ys → insert x (xs ++ ys) ≡ xs ++ x ∷ ys
unfolding insert
insert-append x [] ys b h = insert-front x ys h
insert-append x (y ∷ xs) ys b h =
    rw (lt→ltb y x b.0) (ap (λ t. y ∷ t) (insert-append x xs ys b.1 h))

module _ (m : Mem) where
  Front-le : (a : ℕ) (pre : List Seg) (e : ℕ) → Front m a pre e → a ≤ e
  Front-le a [] e f = omega arith
  Front-le a (p ∷ pre) e f = omega (arith, Front-le (a + p.size) pre e f.2)

  pub holes-Below :
      (a : ℕ) (pre : List Seg) (e x : ℕ) → Front m a pre e → e ≤ x → Below x (holes a pre)
  holes-Below a [] e x f h = tt
  holes-Below a (p ∷ pre) e x (head, foot, f) h = elim (Bool-cases p.hole) [
    | inl hole ↦ rw hole (
      omega (arith, head.room, Front-le (a + p.size) pre e f),
      holes-Below (a + p.size) pre e x f h,
    )
    | inr used ↦ rw used (holes-Below (a + p.size) pre e x f h)
  ]

  -- What is laid out from `a` on.
  pub holes-Above :
      (x a : ℕ) (ss : List Seg) (e : ℕ) → Layout m a ss e → x < a → Above x (holes a ss)
  holes-Above x a [] e l h = tt
  holes-Above x a (s ∷ []) e l h = elim (Bool-cases s.hole) [
    | inl hole ↦ rw hole (h, tt)
    | inr used ↦ rw used tt
  ]
  holes-Above x a (s ∷ t ∷ ss) e l h = elim (Bool-cases s.hole) [
    | inl hole ↦ rw hole (h, holes-Above x (a + s.size) (t ∷ ss) e l.2 (omega arith))
    | inr used ↦ rw used (holes-Above x (a + s.size) (t ∷ ss) e l.2 (omega arith))
  ]

  pub length-holes :
      (a : ℕ) (ss : List Seg) (e : ℕ) → Layout m a ss e → a + 20 * length (holes a ss) ≤ e
  length-holes a [] e l = omega arith
  length-holes a (s ∷ []) e l = elim (Bool-cases s.hole) [
    | inl hole ↦ rw hole (omega (arith, l.0.room))
    | inr used ↦ rw used (omega arith)
  ]
  length-holes a (s ∷ t ∷ ss) e l = elim (Bool-cases s.hole) [
    | inl hole ↦ rw hole (omega (arith, l.0.room, length-holes (a + s.size) (t ∷ ss) e l.2))
    | inr used ↦ rw used (omega (arith, length-holes (a + s.size) (t ∷ ss) e l.2))
  ]
