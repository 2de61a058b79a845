-- ===== src/Array/Insert.antt =====
-- Adding to an ordered array.
use experimental_kernel.Common.{
  ℕ, zero, suc, ◌+◌, ◌-◌, ◌<◌, ◌≤◌, ◌^◌, ◌≡◌, List, [], ◌∷◌, arith, ltb, leb, if◌then◌else◌, ◌&&◌,
  ◌==◌, ap, ◌∙◌, ◌⊎◌, inl, inr, Bool-cases, ==→eq, ==→ne, le→ltb, lt→ltb, ltb→lt, Bool, false, ◌||◌,
}
use mathlib.Core.Path.{ap₂}
use experimental_kernel.Array.{Array, put, insert_pos, shift_loop, add_ordered}
use experimental_kernel.Array.View.{view, to_list, view_ext}

-- In front of the first element that is not smaller.
unfoldable pub insert : ℕ → List ℕ → List ℕ
insert x [] = x ∷ []
insert x (y ∷ ys) = if ltb y x then y ∷ insert x ys else x ∷ y ∷ ys

-- Strictly increasing.
abbrev pub Above : ℕ → List ℕ → Type 0
Above x [] = Unit
Above x (y ∷ ys) = (x < y) × Above x ys

abbrev pub IsSorted : List ℕ → Type 0
IsSorted [] = Unit
IsSorted (x ∷ xs) = Above x xs × IsSorted xs

-- The place found: every element before it is smaller, and the one at it is not.
record IsPlace (c : ℕ → ℕ) (x from to p : ℕ) : Type 0 where
  above : from ≤ p
  below : p ≤ to
  smaller : (k : ℕ) → from ≤ k → k < p → c k < x
  stop : (p ≡ to) ⊎ (x ≤ c p)

insert_pos-IsPlace :
    (left i : ℕ) (c : ℕ → ℕ) (x : ℕ) → IsPlace c x i (i + left) (insert_pos left i c x)
unfolding insert_pos
insert_pos-IsPlace zero i c x = record {
  above = omega arith;
  below = omega arith;
  smaller = λ k lo hi. absurd (omega arith);
  stop = inl (omega arith);
}
insert_pos-IsPlace (suc left) i c x = elim (Bool-cases (ltb (c i) x)) [
  | inl less ↦
      let rest = insert_pos-IsPlace left (i + 1) c x in
      rw less (record {
        above = omega (arith, rest.above);
        below = omega (arith, rest.below);
        smaller = λ k lo hi. ground (arith, rest.smaller k);
        stop = ground (arith, rest.stop);
      })
  | inr more ↦ rw more (record {
    above = omega arith;
    below = omega arith;
    smaller = λ k lo hi. absurd (omega arith);
    stop = inr (ground arith);
  })
]

shift_loop_lem :
    (left i tmp : ℕ) (c : ℕ → ℕ) (k : ℕ)
    → shift_loop left i tmp c k
      ≡ (if ltb i k && leb k (i + left) then (if k == i + 1 then tmp else c (k - 1)) else c k)
unfolding shift_loop
shift_loop_lem zero i tmp c k = ground arith
shift_loop_lem (suc left) i tmp c k =
    ground (arith, shift_loop_lem left (i + 1) (c (i + 1)) (put c (i + 1) tmp) k)

-- What the elements are after the insertion at `p`.
abbrev opened : (ℕ → ℕ) → ℕ → ℕ → ℕ → ℕ
opened c p x k = if ltb k p then c k else if k == p then x else c (k - 1)

view-insert :
    (n p : ℕ) (c g : ℕ → ℕ) (x : ℕ)
    → IsPlace c x 0 n p
    → ((k : ℕ) → k ≤ n → g k ≡ opened c p x k)
    → view (suc n) g ≡ insert x (view n c)
unfolding view insert
view-insert zero p c g x at h = ap (λ y. y ∷ []) (h 0 (omega arith) ∙ ground (arith, at.below))
view-insert (suc n) zero c g x at h = rw (le→ltb (c 0) x (omega (arith, at.stop))) (
    ap₂ ◌∷◌ (h 0 (omega arith) ∙ ground arith)
      (view_ext (suc n) (λ i. g (suc i)) c (λ k lt. h (suc k) (omega arith) ∙ ground arith)))
view-insert (suc n) (suc p) c g x at h =
    rw (lt→ltb (c 0) x (at.smaller 0 (omega arith) (omega arith))) (
      ap₂ ◌∷◌ (h 0 (omega arith) ∙ ground arith) (
        view-insert n p (λ i. c (suc i)) (λ i. g (suc i)) x
          (record {
            above = omega arith;
            below = omega (arith, at.below);
            smaller = λ k lo hi. at.smaller (suc k) (omega arith) (omega arith);
            stop = ground (arith, at.stop);
          })
          (λ k le. h (suc k) (omega arith) ∙ ground arith)))

-- The elements that the code leaves behind, on both of its branches.
add_ordered_cells :
    (c : ℕ → ℕ) (s m x k : ℕ)
    → k ≤ s
    → (add_ordered (record { cells = c; size = s; max_size = m }) x).cells k
      ≡ opened c (insert_pos s 0 c x) x k
unfolding add_ordered
add_ordered_cells c s m x k le =
    let p = insert_pos s 0 c x in
    let place = insert_pos-IsPlace s 0 c x in
    elim (Bool-cases (p == s)) [
      | inl last ↦ rw last (ground (arith, ==→eq p s last))
      | inr inner ↦ rw inner (
          ground
            (arith, ==→ne p s inner, place.below, shift_loop_lem (s - p) p (c p) (put c p x) k))
    ]

-- `add` of the ordered array puts the item in front of the first element that is not smaller, and
-- keeps all others in their order, while the size fits 32 bits.
pub to_list-add_ordered :
    (a : Array ℕ) (x : ℕ) → a.size + 1 < 2 ^ 32 → to_list (add_ordered a x) ≡ insert x (to_list a)
unfolding to_list
to_list-add_ordered a x h =
    let p = insert_pos a.size 0 a.cells x in
    rw (size_lem a x h) (
      view-insert a.size p a.cells (add_ordered a x).cells x
        (rw from_zero at (insert_pos-IsPlace a.size 0 a.cells x))
        (λ k le. add_ordered_cells a.cells a.size a.max_size x k le))
  where
    from_zero : 0 + a.size ≡ a.size
    from_zero = omega arith

    size_lem : (a : Array ℕ) (x : ℕ) → a.size + 1 < 2 ^ 32 → (add_ordered a x).size ≡ suc a.size
    size_lem a x h = unfold add_ordered in ground arith

Above-insert : (b x : ℕ) (xs : List ℕ) → b < x → Above b xs → Above b (insert x xs)
unfolding insert
Above-insert b x [] h s = (h, tt)
Above-insert b x (y ∷ ys) h s = elim (Bool-cases (ltb y x)) [
  | inl less ↦ rw less (s.0, Above-insert b x ys h s.1)
  | inr more ↦ rw more (h, s)
]

Above-trans : (a b : ℕ) (xs : List ℕ) → a < b → Above b xs → Above a xs
Above-trans a b [] h s = tt
Above-trans a b (x ∷ xs) h s = (omega (arith, s.0), Above-trans a b xs h s.1)

-- Whether a number is in a list.
abbrev pub contains : ℕ → List ℕ → Bool
contains x [] = false
contains x (y ∷ ys) = x == y || contains x ys

-- Inserting a number that is not there keeps a list strictly increasing.
pub insert-IsSorted :
    (x : ℕ) (xs : List ℕ) → contains x xs ≡ false → IsSorted xs → IsSorted (insert x xs)
unfolding insert
insert-IsSorted x [] new s = (tt, tt)
insert-IsSorted x (y ∷ ys) new s = elim (Bool-cases (ltb y x)) [
  | inl less ↦
      rw less (Above-insert y x ys (ltb→lt y x less) s.0, insert-IsSorted x ys (ground arith) s.1)
  | inr more ↦
      let first : x < y = ground arith in rw more ((first, Above-trans x y ys first s.0), s)
]

-- `add` of the ordered array keeps the elements strictly increasing when the item is a new one and
-- the size fits 32 bits.
pub add_ordered-IsSorted :
    (a : Array ℕ) (x : ℕ)
    → a.size + 1 < 2 ^ 32
    → contains x (to_list a) ≡ false
    → IsSorted (to_list a)
    → IsSorted (to_list (add_ordered a x))
add_ordered-IsSorted a x room new s =
    rw (to_list-add_ordered a x room) (insert-IsSorted x (to_list a) new s)
