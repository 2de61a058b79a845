-- ===== src/Heap/Policy.antt =====
-- First fit over the segments: what an allocation asks of the heap, with no memory and no index.
use experimental_kernel.Common.{
  ℕ, ◌+◌, ◌-◌, ◌≤◌, ◌≡◌, List, [], ◌∷◌, ◌++◌, arith, if◌then◌else◌, ap, ltb, leb, Option, none,
  some, ◌&&◌,
}
use mathlib.Core.Option
use experimental_kernel.Heap.Layout.{Seg, free_seg, used_seg, total}

-- A fit: the distance of the hole from the start, its size, and the segments after the allocation.
pub record Fit : Type 0 where
  pub offset : ℕ
  pub room : ℕ
  pub segs : List Seg

-- A hole is taken whole when what is left of it would not hold a header and a footer.
abbrev pub carve : ℕ → ℕ → List Seg → List Seg
carve need room post =
    if ltb (room - need) 20
    then used_seg room ∷ post
    else used_seg need ∷ free_seg (room - need) ∷ post

abbrev pub behind : Seg → Fit → Fit
behind s f = record { offset = s.size + f.offset; room = f.room; segs = s ∷ f.segs }

-- The first hole of at least `need` bytes, in the order of addresses.
unfoldable pub first_fit : ℕ → List Seg → Option Fit
first_fit need [] = none
first_fit need (s ∷ ss) =
    if s.hole && leb need s.size
    then some (record { offset = 0; room = s.size; segs = carve need s.size ss })
    else Option.map (behind s) (first_fit need ss)

-- Where the first fit stands among the segments.
pub record IsFirst (need : ℕ) (segs : List Seg) (f : Fit) : Type 0 where
  pub pre : List Seg
  pub post : List Seg
  pub splits : segs ≡ pre ++ free_seg f.room ∷ post
  pub enough : need ≤ f.room
  pub offset : f.offset ≡ total pre
  pub result : f.segs ≡ pre ++ carve need f.room post

unfoldable pub IsFirst-behind :
    {need : ℕ} {segs : List Seg} {f : Fit} (s : Seg)
    → IsFirst need segs f
    → IsFirst need (s ∷ segs) (behind s f)
IsFirst-behind s i = record {
  pre = s ∷ i.pre;
  post = i.post;
  splits = ap (λ t. s ∷ t) i.splits;
  enough = i.enough;
  offset = omega (arith, i.offset);
  result = ap (λ t. s ∷ t) i.result;
}
