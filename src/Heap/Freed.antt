-- ===== src/Heap/Freed.antt =====
-- `free` on a well-formed heap, all its sides together.
use experimental_kernel.Common.{
  ℕ, ◌+◌, ◌-◌, ◌≤◌, ◌≡◌, ◌≢◌, ◌⊎◌, List, [], ◌∷◌, ◌++◌, arith, refl, ap, sym, ◌∙◌, ne→==,
  if◌then◌else◌, Bool, true, false, ◌&&◌, ◌==◌, inl, inr, not, ◌-ʷ◌,
}
use mathlib.Core.Path.{subst}
use mathlib.Core.List.{append_assoc}
use experimental_kernel.Memory.{Mem, store, read32}
use experimental_kernel.Memory.Words.{store_other, read32-store_other, read32-write32_other}
use experimental_kernel.Heap.{KernelHeap, Run, ok, magic, free}
use experimental_kernel.Heap.Layout.{Seg, free_seg, used_seg, Layout, IsHeap, total, Layout-of}
use experimental_kernel.Heap.Coalesce.{IsRightSafe, joined_size, joined_rest, settle, freed}
use experimental_kernel.Heap.Free.{
  head, inside, at_block, marked_mem, free_alone, free-left, at_left, at_block_left, merged_other,
}

-- The size of the hole that stands last, or 0.
unfoldable pub left_room : List Seg → ℕ
left_room [] = 0
left_room (s ∷ []) = if s.hole then s.size else 0
left_room (s ∷ t ∷ pre) = left_room (t ∷ pre)

-- `free` returned, the heap is well formed over `segs`, and the bytes outside `[lo, hi)` are as
-- they were.
pub record IsReleased (h : KernelHeap) (m : Mem) (segs : List Seg) (lo hi : ℕ)
    (r : Run (KernelHeap × Mem)) : Type 0 where
  pub heap : KernelHeap
  pub mem : Mem
  pub returns : r ≡ ok (heap, mem)
  pub valid : IsHeap heap mem segs
  pub same_start : heap.start_address ≡ h.start_address
  pub same_end : heap.end_address ≡ h.end_address
  pub same : (x : ℕ) → (x + 1 ≤ lo) ⊎ (hi ≤ x) → mem x ≡ m x

Snoc-cases :
    (pre : List Seg) → (pre ≡ []) ⊎ ((front : List Seg) × (s : Seg) × (pre ≡ front ++ s ∷ []))
Snoc-cases [] = inl refl
Snoc-cases (s ∷ []) = inr ([], s, refl)
Snoc-cases (s ∷ t ∷ pre) = elim (Snoc-cases (t ∷ pre)) [
  | inl none_left ↦ inr ([], s, ap (λ l. s ∷ l) none_left)
  | inr (front, last, e) ↦ inr (s ∷ front, last, ap (λ l. s ∷ l) e)
]

settle-snoc :
    (front : List Seg) (s : Seg) (n : ℕ) (post : List Seg)
    → settle (front ++ s ∷ []) n post
      ≡ front ++ (if s.hole then free_seg (s.size + n) ∷ post else s ∷ free_seg n ∷ post)
unfolding settle
settle-snoc [] s n post = refl
settle-snoc (f ∷ []) s n post = refl
settle-snoc (f ∷ g ∷ front) s n post = ap (λ l. f ∷ l) (settle-snoc (g ∷ front) s n post)

left_room-snoc :
    (front : List Seg) (s : Seg) → left_room (front ++ s ∷ []) ≡ (if s.hole then s.size else 0)
unfolding left_room
left_room-snoc [] s = refl
left_room-snoc (f ∷ []) s = refl
left_room-snoc (f ∷ g ∷ front) s = left_room-snoc (g ∷ front) s

total-snoc : (front : List Seg) (s : Seg) → total (front ++ s ∷ []) ≡ total front + s.size
total-snoc [] s = omega arith
total-snoc (f ∷ front) s = omega (arith, total-snoc front s)

joined_size-add : (k n : ℕ) (post : List Seg) → joined_size (k + n) post ≡ k + joined_size n post
joined_size-add k n [] = refl
joined_size-add k n (s ∷ ss) = ground arith

IsRightSafe-frame :
    (m g : Mem) (e : ℕ) (post : List Seg)
    → read32 g e ≡ read32 m e
    → IsRightSafe m e post
    → IsRightSafe g e post
IsRightSafe-frame m g e [] same safe = rw same safe
IsRightSafe-frame m g e (s ∷ []) same safe = safe
IsRightSafe-frame m g e (s ∷ t ∷ ss) same safe = safe

-- Nothing, or a block, on the left.
module _ (h : KernelHeap) (m : Mem) (pre post : List Seg) (n : ℕ)
    (v : IsHeap h m (pre ++ used_seg n ∷ post)) (safe : IsRightSafe m h.end_address post) where
  IsReleased-alone :
      (read32 (marked_mem h m pre post n v) (h.start_address + total pre -ʷ 8) == magic
          && not (
              marked_mem h m pre post n v
                (read32 (marked_mem h m pre post n v) (h.start_address + total pre -ʷ 8 + 4) + 4)
              == 0))
        ≡ false
      → IsReleased h m
          (pre ++ free_seg (joined_size n post) ∷ joined_rest post)
          (h.start_address + total pre)
          (h.start_address + total pre + n)
          (free h m (h.start_address + total pre + 12))
  IsReleased-alone alone =
      let block = h.start_address + total pre in
      let at = at_block h m pre post n v in
      let room : 20 ≤ n = (head h m block n post at v.ends).room in
      let end = inside h m block n post at v.ends in
      let s = free_alone h m pre post n v alone (
        IsRightSafe-frame m _ h.end_address post
          (read32-store_other m (block + 4) h.end_address 1 (omega (arith, end))) safe) in
      record {
        heap = s.heap;
        mem = s.mem;
        returns = s.returns;
        valid = s.valid;
        same_start = s.same_start;
        same_end = s.same_end;
        same = λ x out. s.same x (omega arith) ∙ store_other m (block + 4) 1 x (omega arith);
      }

module _ (h : KernelHeap) (m : Mem) (pre post : List Seg) (n : ℕ)
    (safe : IsRightSafe m h.end_address post) where
  IsReleased-left :
      (k : ℕ) (v : IsHeap h m (pre ++ free_seg k ∷ used_seg n ∷ post))
      → IsReleased h m
          (pre ++ free_seg (joined_size (k + n) post) ∷ joined_rest post)
          (h.start_address + total pre)
          (h.start_address + total pre + k + n)
          (free h m (h.start_address + total pre + k + 12))
  IsReleased-left k v =
      let left = h.start_address + total pre in
      let at = at_block_left h m pre post k n v in
      let kk : 20 ≤ k = (at_left h m pre post k n v).0.room in
      let nn : 20 ≤ n = (head h m (left + k) n post at v.ends).room in
      let end = inside h m (left + k) n post at v.ends in
      let s = free-left h m pre post k n v (
        IsRightSafe-frame m _ h.end_address post
          (read32-write32_other _ (left + 8) h.end_address (k + n) (omega (arith, end))
            ∙ read32-write32_other _ _ h.end_address left (omega (arith, end))
            ∙ read32-store_other m (left + k + 4) h.end_address 1 (omega (arith, end)))
          safe) in
      record {
        heap = s.heap;
        mem = s.mem;
        returns = s.returns;
        valid = s.valid;
        same_start = s.same_start;
        same_end = s.same_end;
        same =
            λ x out. s.same x (omega arith) ∙ merged_other h m pre post k n v x (omega arith) kk nn;
      }

  -- The footer of the block on the left leads to a header that is no hole.
  IsReleased-used :
      (k : ℕ) (v : IsHeap h m ((pre ++ used_seg k ∷ []) ++ used_seg n ∷ post))
      → IsReleased h m
          ((pre ++ used_seg k ∷ []) ++ free_seg (joined_size n post) ∷ joined_rest post)
          (h.start_address + total (pre ++ used_seg k ∷ []))
          (h.start_address + total (pre ++ used_seg k ∷ []) + n)
          (free h m (h.start_address + total (pre ++ used_seg k ∷ []) + 12))
  IsReleased-used k v =
      let left = h.start_address + total pre in
      let at = Layout-of m h.start_address pre (used_seg k) (used_seg n ∷ post) h.end_address (
        subst (λ l. Layout m h.start_address l h.end_address)
          (append_assoc pre (used_seg k ∷ []) (used_seg n ∷ post)) v.layout) in
      let kk : 20 ≤ k = at.0.room in
      let block : h.start_address + total (pre ++ used_seg k ∷ []) ≡ left + k =
        omega (arith, total-snoc pre (used_seg k)) in
      let test : left + k -ʷ 8 ≡ left + (k - 8) =
        omega (arith, inside h m (left + k) n post at.2 v.ends, v.ends) in
      let back : read32 (store m (left + k + 4) 1) (left + (k - 8) + 4) ≡ left =
        read32-store_other m (left + k + 4) _ 1 (omega arith) ∙ at.1.back in
      let flag : store m (left + k + 4) 1 (left + 4) ≡ 0 =
        store_other m (left + k + 4) 1 _ (omega arith) ∙ at.0.flag in
      IsReleased-alone h m (pre ++ used_seg k ∷ []) post n v safe
        (rw (block, test, back, flag) (ground arith))

-- Where the heap starts: no magic number in front of it, for `free` to read as a footer.
abbrev pub IsLeftSafe : Mem → ℕ → List Seg → Type 0
IsLeftSafe m a [] = (8 ≤ a) × (read32 m (a - 8) ≢ magic)
IsLeftSafe m a (s ∷ ss) = Unit

IsReleased-first :
    (h : KernelHeap) (m : Mem) (post : List Seg) (n : ℕ) (v : IsHeap h m (used_seg n ∷ post))
    → IsRightSafe m h.end_address post
    → IsLeftSafe m h.start_address []
    → IsReleased h m
        (free_seg (joined_size n post) ∷ joined_rest post)
        (h.start_address + 0)
        (h.start_address + 0 + n)
        (free h m (h.start_address + 0 + 12))
IsReleased-first h m post n v safe first =
    let zero_off : h.start_address + 0 ≡ h.start_address = omega arith in
    let test : h.start_address -ʷ 8 ≡ h.start_address - 8 =
      omega (arith, first, inside h m h.start_address n post v.layout v.ends, v.ends) in
    let plain : (read32 (store m (h.start_address + 4) 1) (h.start_address - 8) == magic) ≡ false =
      ne→== _ _ (
        subst (λ t. t ≢ magic)
          (sym (read32-store_other m (h.start_address + 4) _ 1 (omega (arith, first)))) first.1) in
    IsReleased-alone h m [] post n v safe (rw (zero_off, test, plain))

-- The same statement under other words for its segments, bounds and pointer.
IsReleased-respell :
    (h : KernelHeap) (m : Mem) (segs segs' : List Seg) (lo lo' hi hi' p p' : ℕ)
    → segs ≡ segs'
    → lo ≡ lo'
    → hi ≡ hi'
    → p ≡ p'
    → IsReleased h m segs lo hi (free h m p)
    → IsReleased h m segs' lo' hi' (free h m p')
IsReleased-respell h m segs segs' lo lo' hi hi' p p' es el eh ep r = rw (← es, ← el, ← eh, ← ep) r

-- The last segment of `pre`, by whether it is a hole.
IsReleased-snoc :
    (h : KernelHeap) (m : Mem) (front post : List Seg) (hole : Bool) (k n : ℕ)
    → IsHeap h m ((front ++ record { hole = hole; size = k } ∷ []) ++ used_seg n ∷ post)
    → IsRightSafe m h.end_address post
    → let pre = front ++ record { hole = hole; size = k } ∷ [] in
      IsReleased h m
        (freed pre n post)
        (h.start_address + total pre - left_room pre)
        (h.start_address + total pre + n)
        (free h m (h.start_address + total pre + 12))
unfolding freed
IsReleased-snoc h m front post true k n v safe =
    let size = total-snoc front (free_seg k) in
    let room = left_room-snoc front (free_seg k) in
    IsReleased-respell h m _ _ _ _ _ _ _ _
      (ap (λ t. front ++ free_seg t ∷ joined_rest post) (joined_size-add k n post)
        ∙ sym (settle-snoc front (free_seg k) (joined_size n post) (joined_rest post)))
      (omega (arith, size, room)) (omega (arith, size)) (omega (arith, size))
      (IsReleased-left h m front post n safe k
        (subst (IsHeap h m) (append_assoc front (free_seg k ∷ []) (used_seg n ∷ post)) v))
IsReleased-snoc h m front post false k n v safe =
    let room = left_room-snoc front (used_seg k) in
    IsReleased-respell h m _ _ _ _ _ _ _ _
      (append_assoc front (used_seg k ∷ []) _
        ∙ sym (settle-snoc front (used_seg k) (joined_size n post) (joined_rest post)))
      (omega (arith, room)) refl refl (IsReleased-used h m front post n safe k v)

-- `free` of a block of a well-formed heap returns, and the heap is well formed over the segments in
-- which the block has become a hole, joined with the holes that stand on its two sides. Only bytes
-- of the block and of the hole on its left change. The right side is a block, the end of the heap
-- with no magic number there, or a last hole; a block that stands first has no magic number in
-- front of it.
pub free-freed :
    (h : KernelHeap) (m : Mem) (pre post : List Seg) (n : ℕ)
    → IsHeap h m (pre ++ used_seg n ∷ post)
    → IsLeftSafe m h.start_address pre
    → IsRightSafe m h.end_address post
    → IsReleased h m
        (freed pre n post)
        (h.start_address + total pre - left_room pre)
        (h.start_address + total pre + n)
        (free h m (h.start_address + total pre + 12))
unfolding freed left_room
free-freed h m pre post n v first safe = elim (Snoc-cases pre) [
  | inl none_left ↦
      subst Goal (sym none_left)
        (λ v first.
          IsReleased-respell h m _ _ _ _ _ _ _ _ refl (omega arith) (omega arith) (omega arith)
            (IsReleased-first h m post n v safe first))
        v first
  | inr (front, s, e) ↦
      subst Goal (sym e) (λ v _. IsReleased-snoc h m front post s.hole s.size n v safe) v first
]
  where
    Goal : List Seg → Type 0
    Goal pre =
        IsHeap h m (pre ++ used_seg n ∷ post)
        → IsLeftSafe m h.start_address pre
        → IsReleased h m (freed pre n post) (h.start_address + total pre - left_room pre)
            (h.start_address + total pre + n) (free h m (h.start_address + total pre + 12))
