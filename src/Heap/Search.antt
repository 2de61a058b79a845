-- ===== src/Heap/Search.antt =====
-- `findSmallestHole` without alignment is the first fit.
use experimental_kernel.Common.{
  ℕ, suc, ◌+◌, ◌<◌, ◌^◌, ◌≡◌, ◌⊎◌, List, [], ◌∷◌, arith, length, refl, Bool, true, false, ap, ◌∙◌,
  Bool-cases, sym, lt→ltb, ◌*◌, inl, inr, leb, Option, none, some, get_elem?,
}
use experimental_kernel.Memory.{Mem}
use experimental_kernel.Array.{Array, at_ordered}
use experimental_kernel.Array.View.{to_list, get_elem?-view, length-view}
use experimental_kernel.Heap.{KernelHeap, find_loop, find_smallest_hole, fits, is_hole}
use experimental_kernel.Heap.Layout.{
  Seg, free_seg, used_seg, Layout, Layout-head, Layout-tail, IsHeader, IsHeap, holes,
}
use experimental_kernel.Heap.Index.{length-holes}
use experimental_kernel.Heap.Policy.{Fit, IsFirst, IsFirst-behind, first_fit, behind, carve}

module _ (m : Mem) (index : Array ℕ) (need : ℕ) where
  -- The index holds the list `hs` from `i` on.
  abbrev Holds : ℕ → List ℕ → Type 0
  Holds i hs = (k : ℕ) → k < length hs → get_elem? hs k ≡ some (at_ordered index (i + k))

  -- What the search from `i` over the holes of `segs` finds.
  abbrev pub Found : ℕ → List Seg → ℕ → Option ℕ → Type 0
  Found a segs i r =
      ((first_fit need segs ≡ none) × (r ≡ none))
      ⊎ ((f : Fit) × (w : IsFirst need segs f) × (first_fit need segs ≡ some f)
          × (r ≡ some (i + length (holes a w.pre))))

  Found-skip :
      (a n i : ℕ) (ss : List Seg) (r : Option ℕ)
      → Found (a + n) ss i r
      → Found a (used_seg n ∷ ss) i r
  unfolding first_fit IsFirst-behind
  Found-skip a n i ss r (inl (none_fits, e)) = inl (rw none_fits, e)
  Found-skip a n i ss r (inr (f, w, e, at)) =
      inr (behind (used_seg n) f, IsFirst-behind (used_seg n) w, rw e, at)

  Found-pass :
      (a n i : ℕ) (ss : List Seg) (r : Option ℕ)
      → leb need n ≡ false
      → Found (a + n) ss (i + 1) r
      → Found a (free_seg n ∷ ss) i r
  unfolding first_fit IsFirst-behind
  Found-pass a n i ss r small (inl (none_fits, e)) = inl (rw (small, none_fits), e)
  Found-pass a n i ss r small (inr (f, w, e, at)) = inr (
    behind (free_seg n) f,
    IsFirst-behind (free_seg n) w,
    rw (small, e),
    at ∙ ap some (omega arith),
  )

  Found-here :
      (a n i : ℕ) (ss : List Seg) → leb need n ≡ true → Found a (free_seg n ∷ ss) i (some i)
  unfolding first_fit IsFirst-behind
  Found-here a n i ss big = inr (
    record { offset = 0; room = n; segs = carve need n ss },
    record {
      pre = [];
      post = ss;
      splits = refl;
      enough = ground arith;
      offset = refl;
      result = refl;
    },
    rw big,
    ap some (omega arith),
  )

  step :
      (hole : Bool) (n : ℕ) (ss : List Seg) (a i : ℕ)
      → IsHeader m a (record { hole = hole; size = n })
      → Holds i (holes a (record { hole = hole; size = n } ∷ ss))
      → ((j : ℕ)
          → Holds j (holes (a + n) ss)
          → Found (a + n) ss j (find_loop (length (holes (a + n) ss)) j m index need false))
      → Found a (record { hole = hole; size = n } ∷ ss) i (
          find_loop (length (holes a (record { hole = hole; size = n } ∷ ss))) i m index need false)
  unfolding find_loop fits
  step false n ss a i h at rest = Found-skip a n i ss _ (rest i at)
  step true n ss a i h at rest =
      let here : at_ordered index i ≡ a = ground (arith, at 0 (omega arith)) in
      let flagged : is_hole m a ≡ true = ground (arith, h.flag) in
      elim (Bool-cases (leb need n)) [
        | inl big ↦ rw (here, flagged, h.sized, big) (Found-here a n i ss big)
        | inr small ↦
            rw (here, flagged, h.sized, small)
              (Found-pass a n i ss _ small (
                rest (i + 1) (λ k lt.
                  at (suc k) (omega arith) ∙ ap (λ t. some (at_ordered index t)) (omega arith))))
      ]

  search :
      (segs : List Seg) (a e i : ℕ)
      → Layout m a segs e
      → Holds i (holes a segs)
      → Found a segs i (find_loop (length (holes a segs)) i m index need false)
  unfolding find_loop first_fit
  search [] a e i l at = inl (refl, refl)
  search (s ∷ ss) a e i l at =
      step s.hole s.size ss a i (Layout-head m a s ss e l) at
        (λ j held. search ss (a + s.size) e j (Layout-tail m a s ss e l) held)

pub length-to_list : (index : Array ℕ) → length (to_list index) ≡ index.size
unfolding to_list
length-to_list index = length-view index.size index.cells

get_elem?-to_list :
    (index : Array ℕ) (k : ℕ)
    → k < length (to_list index)
    → get_elem? (to_list index) k ≡ some (at_ordered index (0 + k))
unfolding to_list at_ordered
get_elem?-to_list index k h =
    let inside : k < index.size = omega (arith, length-view index.size index.cells) in
    let z : 0 + k ≡ k = omega arith in
    rw (z, lt→ltb k index.size inside) (get_elem?-view index.size index.cells k inside)

pub at_ordered-to_list :
    (index : Array ℕ) (k : ℕ)
    → k < index.size
    → get_elem? (to_list index) k ≡ some (at_ordered index k)
unfolding to_list at_ordered
at_ordered-to_list index k h =
    rw (lt→ltb k index.size h) (get_elem?-view index.size index.cells k h)

-- The search of `allocate` over a laid-out heap.
pub find_smallest_hole-Found :
    (h : KernelHeap) (m : Mem) (segs : List Seg) (need : ℕ)
    → IsHeap h m segs
    → Found m h.index need h.start_address segs 0 (find_smallest_hole h m need false)
unfolding find_smallest_hole
find_smallest_hole-Found h m segs need v =
    rw (ap length (sym v.indexed) ∙ length-to_list h.index) at (
      search m h.index need segs h.start_address h.end_address 0 v.layout
        (rw (← v.indexed) (get_elem?-to_list h.index)))

-- The number of holes, and so the size of the index, is far below its wrap-around.
pub index_size_lem :
    (h : KernelHeap) (m : Mem) (segs : List Seg)
    → IsHeap h m segs
    → (h.index.size ≡ length (holes h.start_address segs)) × (20 * h.index.size < 2 ^ 32)
index_size_lem h m segs v =
    let size : h.index.size ≡ length (holes h.start_address segs) =
      sym (length-to_list h.index) ∙ ap length v.indexed in
    (size, omega (arith, v.ends, size, length-holes m h.start_address segs h.end_address v.layout))
