-- ===== src/Heap/Coalesce.antt =====
-- What freeing does to the segments, and "Merge right" over a pending hole.
use experimental_kernel.Common.{
  ℕ, ◌+◌, ◌-◌, ◌≤◌, ◌≡◌, ◌≢◌, ◌⊎◌, List, [], ◌∷◌, ◌++◌, arith, refl, ap, sym, ◌∙◌, ne→==,
  if◌then◌else◌, Bool, true, false, ◌&&◌, ◌==◌, not,
}
use mathlib.Core.Path.{subst}
use experimental_kernel.Memory.{Mem, read32, write32}
use experimental_kernel.Memory.Words.{read32-write32_self, read32-write32_other, write32_other}
use experimental_kernel.Heap.{KernelHeap, Run, ok, magic, merge_right}
use experimental_kernel.Heap.Layout.{
  Seg, free_seg, used_seg, IsHeader, IsHeap, holes, Layout-append, Layout-head, Layout-tail,
  Front-frame,
}
use experimental_kernel.Heap.Index.{holes-append, holes-Above}
use experimental_kernel.Heap.Lookup.{Above-Lacks, Lacks}
use experimental_kernel.Heap.Release.{IsPending, merge_right_none, merge_right_some}

-- A freed block of `n` bytes takes in a hole that stands behind it.
abbrev pub joined_size : ℕ → List Seg → ℕ
joined_size n [] = n
joined_size n (s ∷ ss) = if s.hole then n + s.size else n

abbrev pub joined_rest : List Seg → List Seg
joined_rest [] = []
joined_rest (s ∷ ss) = if s.hole then ss else s ∷ ss

-- A hole of `n` bytes goes behind `pre`, into the hole that stands last there, if one does.
unfoldable pub settle : List Seg → ℕ → List Seg → List Seg
settle [] n post = free_seg n ∷ post
settle (s ∷ []) n post = if s.hole then free_seg (s.size + n) ∷ post else s ∷ free_seg n ∷ post
settle (s ∷ t ∷ pre) n post = s ∷ settle (t ∷ pre) n post

-- The segments after the block of `n` bytes between `pre` and `post` is freed.
unfoldable pub freed : List Seg → ℕ → List Seg → List Seg
unfolding settle
freed pre n post = settle pre (joined_size n post) (joined_rest post)

-- What stands behind the block lets the code keep the invariant: a block, the end of the heap with
-- no magic number there, or a hole that is the last segment.
abbrev pub IsRightSafe : Mem → ℕ → List Seg → Type 0
IsRightSafe m e [] = read32 m e ≢ magic
IsRightSafe m e (s ∷ []) = Unit
IsRightSafe m e (s ∷ t ∷ ss) = s.hole ≡ false

-- The state after "Merge right" and the index update.
pub record IsSettled (h : KernelHeap) (m : Mem) (a : ℕ) (segs : List Seg)
    (r : Run (KernelHeap × Mem)) : Type 0 where
  pub heap : KernelHeap
  pub mem : Mem
  pub returns : r ≡ ok (heap, mem)
  pub valid : IsHeap heap mem segs
  pub same_start : heap.start_address ≡ h.start_address
  pub same_end : heap.end_address ≡ h.end_address
  pub same : (x : ℕ) → (x + 1 ≤ a) ⊎ (a + 12 ≤ x) → mem x ≡ m x

module _ (h : KernelHeap) (m : Mem) (pre : List Seg) (a n : ℕ) (add_hole : Bool) where
  IsSettled-none :
      (post : List Seg)
      → IsPending h m pre post a n add_hole
      → (read32 m (a + n) == magic && not (m (a + n + 4) == 0)) ≡ false
      → Lacks (a + n) (holes (a + n) post)
      → IsSettled h m a (pre ++ free_seg n ∷ post) (merge_right h m a (a + n - 8) add_hole)
  IsSettled-none post v plain lacks =
      let (h', e, valid, start, end) = merge_right_none h m pre post a n add_hole v plain lacks in
      record {
        heap = h';
        mem = m;
        returns = e;
        valid = valid;
        same_start = start;
        same_end = end;
        same = λ x out. refl;
      }

  IsSettled-last :
      (k : ℕ)
      → IsPending h m pre (free_seg k ∷ []) a n add_hole
      → IsSettled h m a (pre ++ free_seg (n + k) ∷ []) (merge_right h m a (a + n - 8) add_hole)
  IsSettled-last k v =
      let (h', e, listed, start, end) = merge_right_some h m pre [] a n k add_hole v in
      let right : IsHeader m (a + n) (free_seg k) = v.after.0 in
      let last : a + (n + k) ≡ h'.end_address = omega (arith, v.after.2, end) in
      record {
        heap = h';
        mem = write32 m (a + 8) (n + k);
        returns = e;
        valid = record {
          layout = rw start (
              Layout-append _ h.start_address pre (free_seg (n + k)) [] a h'.end_address
                (Front-frame m _ h.start_address pre a
                  (λ x lo hi. write32_other m (a + 8) (n + k) x (omega (arith, v.spot))) v.front)
                (
                  record {
                    marked =
                        read32-write32_other m (a + 8) a (n + k) (omega arith) ∙ v.header.marked;
                    flag = write32_other m (a + 8) (n + k) (a + 4) (omega arith) ∙ v.header.flag;
                    sized =
                        read32-write32_self m (a + 8) (n + k) (omega (arith, v.after.2, v.ends));
                    room = omega (arith, v.header.room);
                  },
                  λ used. cc,
                  last,
                ));
          indexed =
              listed
              ∙ ap (λ t. holes h.start_address pre ++ t ∷ []) v.spot
              ∙ sym (holes-append h.start_address pre (free_seg (n + k) ∷ []))
              ∙ ap (λ t. holes t (pre ++ free_seg (n + k) ∷ [])) (sym start);
          ends = omega (arith, end, v.ends);
        };
        same_start = start;
        same_end = end;
        same = λ x out. write32_other m (a + 8) (n + k) x (omega arith);
      }

  IsSettled-used :
      (k : ℕ) (ss : List Seg)
      → IsPending h m pre (used_seg k ∷ ss) a n add_hole
      → IsSettled h m a
          (pre ++ free_seg n ∷ used_seg k ∷ ss)
          (merge_right h m a (a + n - 8) add_hole)
  IsSettled-used k ss v =
      let right = Layout-head m (a + n) (used_seg k) ss h.end_address v.after in
      IsSettled-none (used_seg k ∷ ss) v (ground (arith, right.flag)) (
        Above-Lacks (a + n) (holes (a + n + k) ss) (
          holes-Above m (a + n) (a + n + k) ss h.end_address
            (Layout-tail m (a + n) (used_seg k) ss h.end_address v.after)
            (omega (arith, right.room))))

  -- "Merge right" joins the hole behind, where the right side is safe.
  pub merge_right-joined :
      (post : List Seg)
      → IsRightSafe m h.end_address post
      → IsPending h m pre post a n add_hole
      → IsSettled h m a
          (pre ++ free_seg (joined_size n post) ∷ joined_rest post)
          (merge_right h m a (a + n - 8) add_hole)
  merge_right-joined [] safe v =
      IsSettled-none [] v (rw (ne→== _ _ (subst (λ t. read32 m t ≢ magic) (sym v.after) safe))) tt
  merge_right-joined (s ∷ []) safe v = one s.hole s.size v
    where
      one :
          (b : Bool) (k : ℕ)
          → IsPending h m pre (record { hole = b; size = k } ∷ []) a n add_hole
          → IsSettled h m a
              (pre
                ++ free_seg (joined_size n (record { hole = b; size = k } ∷ []))
                  ∷ joined_rest (record { hole = b; size = k } ∷ []))
              (merge_right h m a (a + n - 8) add_hole)
      one true k v = IsSettled-last k v
      one false k v = IsSettled-used k [] v
  merge_right-joined (s ∷ t ∷ ss) safe v = many s.hole s.size safe v
    where
      many :
          (b : Bool) (k : ℕ)
          → b ≡ false
          → IsPending h m pre (record { hole = b; size = k } ∷ t ∷ ss) a n add_hole
          → IsSettled h m a
              (pre
                ++ free_seg (joined_size n (record { hole = b; size = k } ∷ t ∷ ss))
                  ∷ joined_rest (record { hole = b; size = k } ∷ t ∷ ss))
              (merge_right h m a (a + n - 8) add_hole)
      many true k no_hole v = absurd (cc)
      many false k no_hole v = IsSettled-used k (t ∷ ss) v
