-- ===== src/Heap/Allocate.antt =====
-- `allocate` without alignment implements first fit on the segments.
use experimental_kernel.Common.{
  ℕ, ◌+◌, ◌-◌, ◌≤◌, ◌<◌, ◌^◌, ◌≡◌, ◌⊎◌, List, ◌∷◌, ◌++◌, arith, length, refl, false, ap, sym, ◌∙◌,
  Bool-cases, inl, inr, ltb, Option, none, some, ◌+ʷ◌, ◌-ʷ◌, ltb→lt, ltb→le, lt→ltb, le→ltb,
  get_elem?, length-append, get_elem?-append,
}
use mathlib.Core.Path.{subst}
use experimental_kernel.Memory.{Mem}
use experimental_kernel.Array.{at_ordered, erase, add_ordered}
use experimental_kernel.Array.View.{to_list, remove_at}
use experimental_kernel.Array.Erase.{to_list-erase}
use experimental_kernel.Array.Insert.{insert, to_list-add_ordered}
use experimental_kernel.Heap.{KernelHeap, allocate_at, allocate, place_block}
use experimental_kernel.Heap.Layout.{
  Seg, free_seg, used_seg, Front, Layout, IsHeader, IsHeap, holes, total, Front-of, Layout-of,
  Layout-append, Layout-cons, Layout-head, Layout-tail, Layout-total, Front-frame, Layout-frame,
  IsHeader-frame, IsFooter-frame,
}
use experimental_kernel.Heap.Index.{
  holes-append, remove_at-append, insert-append, holes-Below, holes-Above,
}
use experimental_kernel.Heap.Policy.{Fit, IsFirst, first_fit, carve}
use experimental_kernel.Heap.Search.{find_smallest_hole-Found, index_size_lem, at_ordered-to_list}
use experimental_kernel.Heap.Place.{Wrote, place_block_whole, place_block_split}

-- The state and the pointer after an allocation in the fit `f`.
pub record IsAllocated (h : KernelHeap) (m : Mem) (f : Fit) (r : KernelHeap × Mem × ℕ)
    : Type 0 where
  pub pointer : r.2 ≡ h.start_address + f.offset + 12
  pub heap : IsHeap r.0 r.1 f.segs
  pub same_start : r.0.start_address ≡ h.start_address
  pub same_end : r.0.end_address ≡ h.end_address
  pub same :
      (x : ℕ)
      → (x < h.start_address + f.offset) ⊎ (h.start_address + f.offset + f.room ≤ x)
      → r.1 x ≡ m x

-- A hole of `n` bytes between `pre` and `post`.
module _ (h : KernelHeap) (m : Mem) (pre post : List Seg) (n : ℕ)
    (v : IsHeap h m (pre ++ free_seg n ∷ post)) where
  abbrev spot : ℕ
  spot = h.start_address + total pre

  before : Front m h.start_address pre spot
  before = Front-of m h.start_address pre (free_seg n) post h.end_address v.layout

  from_spot : Layout m spot (free_seg n ∷ post) h.end_address
  from_spot = Layout-of m h.start_address pre (free_seg n) post h.end_address v.layout

  behind_spot : Layout m (spot + n) post h.end_address
  behind_spot = Layout-tail m spot (free_seg n) post h.end_address from_spot

  inside : spot + n + total post ≡ h.end_address
  inside = Layout-total m (spot + n) post h.end_address behind_spot

  head : IsHeader m spot (free_seg n)
  head = Layout-head m spot (free_seg n) post h.end_address from_spot

  abbrev position : ℕ
  position = length (holes h.start_address pre)

  listed : to_list h.index ≡ holes h.start_address pre ++ spot ∷ holes (spot + n) post
  listed = v.indexed ∙ holes-append h.start_address pre (free_seg n ∷ post)

  indices : (position < h.index.size) × (h.index.size < 2 ^ 32)
  indices =
      let bound = index_size_lem h m (pre ++ free_seg n ∷ post) v in
      let size : h.index.size ≡ position + length (spot ∷ holes (spot + n) post) =
        bound.0
        ∙ ap length (holes-append h.start_address pre (free_seg n ∷ post))
        ∙ length-append (holes h.start_address pre) (spot ∷ holes (spot + n) post) in
      (omega (arith, size), omega (arith, bound.1))

  erased : to_list (erase h.index position) ≡ holes h.start_address pre ++ holes (spot + n) post
  erased =
      to_list-erase h.index position indices.0 indices.1
      ∙ ap (remove_at position) listed
      ∙ remove_at-append (holes h.start_address pre) spot (holes (spot + n) post)

  at_position : at_ordered h.index position ≡ spot
  at_position = cc (
      sym (at_ordered-to_list h.index position indices.0)
      ∙ ap (λ l. get_elem? l position) listed
      ∙ get_elem?-append (holes h.start_address pre) spot (holes (spot + n) post))

  -- The state that `allocate_at` hands to `place_block`.
  abbrev without : KernelHeap
  without = record h { index = erase h.index position }

  allocate_at_whole :
      (asked : ℕ)
      → asked + 20 ≤ n
      → n - (asked + 20) < 20
      → allocate_at h m asked false position ≡ place_block without m spot n (n - 20) n
  unfolding allocate_at
  allocate_at_whole asked enough rest =
      let wanted : asked +ʷ 20 ≡ asked + 20 = omega (arith, inside) in
      let left : n -ʷ (asked + 20) ≡ n - (asked + 20) = omega (arith, inside, v.ends) in
      let size : asked +ʷ (n - (asked + 20)) ≡ n - 20 = omega (arith, inside, v.ends) in
      rw (at_position, head.sized, wanted, left, lt→ltb _ 20 rest, size)

  allocate_at_split :
      (asked : ℕ)
      → asked + 20 ≤ n
      → 20 ≤ n - (asked + 20)
      → allocate_at h m asked false position
        ≡ place_block without m spot n (asked + 20 - 20) (asked + 20)
  unfolding allocate_at
  allocate_at_split asked enough rest =
      let wanted : asked +ʷ 20 ≡ asked + 20 = omega (arith, inside, v.ends) in
      let left : n -ʷ (asked + 20) ≡ n - (asked + 20) = omega (arith, inside, v.ends) in
      let size : asked ≡ asked + 20 - 20 = omega arith in
      rw (at_position, head.sized, wanted, left, le→ltb _ 20 rest, ← size)

  Front-after :
      (g : Mem)
      → ((x : ℕ) → (x + 1 ≤ spot) ⊎ (spot + n ≤ x) → g x ≡ m x)
      → Front g h.start_address pre spot
  Front-after g same =
      Front-frame m g h.start_address pre spot (λ x lo hi. same x (omega arith)) before

  after :
      (g : Mem)
      → ((x : ℕ) → (x + 1 ≤ spot) ⊎ (spot + n ≤ x) → g x ≡ m x)
      → Layout g (spot + n) post h.end_address
  after g same =
      Layout-frame m g (spot + n) post h.end_address (λ x lo hi. same x (omega arith)) behind_spot

  whole-IsHeap :
      (g : Mem) → Wrote m g spot (used_seg n) → IsHeap without g (pre ++ used_seg n ∷ post)
  whole-IsHeap g w = record {
    layout =
        Layout-append g h.start_address pre (used_seg n) post spot h.end_address
          (Front-after g w.same)
          (Layout-cons g spot (used_seg n) post h.end_address w.header w.footer (after g w.same));
    indexed = erased ∙ sym (holes-append h.start_address pre (used_seg n ∷ post));
    ends = v.ends;
  }

  split-IsHeap :
      (need : ℕ) (g g' : Mem)
      → need + 20 ≤ n
      → Wrote m g spot (used_seg need)
      → Wrote g g' (spot + need) (free_seg (n - need))
      → IsHeap
          (record without { index = add_ordered without.index (spot + need) })
          g'
          (pre ++ used_seg need ∷ free_seg (n - need) ∷ post)
  split-IsHeap need g g' left w w' = record {
    layout =
        Layout-append g' h.start_address pre (used_seg need) (free_seg (n - need) ∷ post) spot
          h.end_address (Front-after g' same)
          (Layout-cons g' spot (used_seg need) (free_seg (n - need) ∷ post) h.end_address
            (IsHeader-frame g g' spot (used_seg need)
              (λ x lo hi. w'.same x (omega (arith, w.header.room))) w.header)
            (IsFooter-frame g g' spot (used_seg need) w.header.room
              (λ x lo hi. w'.same x (omega arith)) w.footer)
            (Layout-cons g' (spot + need) (free_seg (n - need)) post h.end_address w'.header
              w'.footer (rw ends_at (after g' same))));
    indexed = indexed;
    ends = v.ends;
  }
    where
      same : (x : ℕ) → (x + 1 ≤ spot) ⊎ (spot + n ≤ x) → g' x ≡ m x
      same x out = w'.same x (omega arith) ∙ w.same x (omega arith)

      ends_at : spot + need + (n - need) ≡ spot + n
      ends_at = omega arith

      indexed :
          to_list (add_ordered (erase h.index position) (spot + need))
          ≡ holes h.start_address (pre ++ used_seg need ∷ free_seg (n - need) ∷ post)
      indexed =
          to_list-add_ordered (erase h.index position) (spot + need)
            (unfold erase in omega (arith, indices))
          ∙ ap (insert (spot + need)) erased
          ∙ insert-append (spot + need) (holes h.start_address pre) (holes (spot + n) post)
              (holes-Below m h.start_address pre spot (spot + need) before (omega arith))
              (holes-Above m (spot + need) (spot + n) post h.end_address behind_spot (omega arith))
          ∙ ap (λ t. holes h.start_address pre ++ (spot + need) ∷ holes t post) (sym ends_at)
          ∙ sym (holes-append h.start_address pre (used_seg need ∷ free_seg (n - need) ∷ post))

  -- What `allocate_at` does with this hole.
  allocate_at-carve :
      (asked : ℕ)
      → asked + 20 ≤ n
      → IsAllocated h m
          (record { offset = total pre; room = n; segs = pre ++ carve (asked + 20) n post })
          (allocate_at h m asked false position)
  allocate_at-carve asked enough = elim (Bool-cases (ltb (n - (asked + 20)) 20)) [
    | inl short ↦
        let (g, placed, w) =
          place_block_whole without m spot n (omega (arith, inside, v.ends)) head.room in
        rw (allocate_at_whole asked enough (ltb→lt _ 20 short), placed, short)
          (record {
            pointer = refl;
            heap = whole-IsHeap g w;
            same_start = refl;
            same_end = refl;
            same = λ x out. w.same x (omega arith);
          })
    | inr long ↦
        let left : asked + 20 + 20 ≤ n = omega (arith, ltb→le _ 20 long) in
        let (g, g', placed, w, w') =
          place_block_split without m spot n (omega (arith, inside, v.ends)) (asked + 20)
            (omega arith) left (omega (arith, inside)) in
        rw (allocate_at_split asked enough (ltb→le _ 20 long), placed, long)
          (record {
            pointer = refl;
            heap = split-IsHeap (asked + 20) g g' left w w';
            same_start = refl;
            same_end = refl;
            same = λ x out. w'.same x (omega arith) ∙ w.same x (omega arith);
          })
  ]

-- No fit changes nothing and gives the null pointer.
abbrev pub Allocates : KernelHeap → Mem → KernelHeap × Mem × ℕ → Option Fit → Type 0
Allocates h m r none = r ≡ (h, m, 0)
Allocates h m r (some f) = IsAllocated h m f r

allocate_at-IsAllocated :
    (h : KernelHeap) (m : Mem) (segs : List Seg) (size : ℕ) (f : Fit)
    → IsHeap h m segs
    → (w : IsFirst (size + 20) segs f)
    → IsAllocated h m f (allocate_at h m size false (0 + length (holes h.start_address w.pre)))
allocate_at-IsAllocated h m segs size f v w =
    let fit : record {
      offset = total w.pre;
      room = f.room;
      segs = w.pre ++ carve (size + 20) f.room w.post;
    }
        ≡ f =
      λ i. record { offset = sym w.offset i; room = f.room; segs = sym w.result i } in
    let place : 0 + length (holes h.start_address w.pre) ≡ length (holes h.start_address w.pre) =
      omega arith in
    subst
      (λ t.
        IsAllocated h m t (allocate_at h m size false (0 + length (holes h.start_address w.pre))))
      fit
      (rw place
        (allocate_at-carve h m w.pre w.post f.room (subst (IsHeap h m) w.splits v) size w.enough))

-- On a well-formed heap, `allocate` without page alignment does what first fit does on the
-- segments: with no hole of the size it changes nothing and gives the null pointer, and otherwise
-- it gives the address behind the block's header, the new heap is well formed over the carved
-- segments, and no byte outside the chosen hole changes.
pub allocate-first_fit :
    (h : KernelHeap) (m : Mem) (segs : List Seg) (size : ℕ)
    → IsHeap h m segs
    → size + 20 < 2 ^ 32
    → Allocates h m (allocate h m size false) (first_fit (size + 20) segs)
unfolding allocate
allocate-first_fit h m segs size v small =
    let wanted : size +ʷ 20 ≡ size + 20 = omega arith in
    rw (wanted, allocate)
      (elim (find_smallest_hole-Found h m segs (size + 20) v) [
        | inl (none_fits, e) ↦ rw (none_fits, e) refl
        | inr (f, w, fit, e) ↦ rw (fit, e) (allocate_at-IsAllocated h m segs size f v w)
      ])
