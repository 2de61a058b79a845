-- ===== src/Heap/Free.antt =====
-- `free`: its checks, "Merge left", and the result on the segments.
use experimental_kernel.Common.{
  ℕ, ◌+◌, ◌-◌, ◌<◌, ◌≤◌, ◌^◌, ◌≡◌, ◌⊎◌, List, [], ◌∷◌, ◌++◌, arith, refl, ap, sym, ◌∙◌, eq→==, true,
  false, ◌&&◌, ◌==◌, not, ◌+ʷ◌, ◌-ʷ◌,
}
use experimental_kernel.Memory.{Mem, store, read32, write32}
use experimental_kernel.Memory.Words.{
  read32-write32_self, read32-write32_other, write32_other, store_other, read32-store_other,
  store_self,
}
use experimental_kernel.Heap.{KernelHeap, magic, release, free}
use experimental_kernel.Heap.Layout.{
  Seg, free_seg, used_seg, Layout, IsHeader, IsFooter, IsHeap, holes, total, Layout-head,
  Layout-tail, Layout-total, Front-of, Layout-of, Front-frame, Layout-frame,
}
use experimental_kernel.Heap.Index.{holes-append}
use experimental_kernel.Heap.Search.{index_size_lem}
use experimental_kernel.Heap.Release.{IsPending}
use experimental_kernel.Heap.Coalesce.{
  IsSettled, IsRightSafe, joined_size, joined_rest, merge_right-joined,
}

-- A block of `n` bytes at `block`, with `post` behind it.
module _ (h : KernelHeap) (m : Mem) (block n : ℕ) (post : List Seg)
    (at_block : Layout m block (used_seg n ∷ post) h.end_address)
    (ends : h.end_address < 2 ^ 32) where
  pub head : IsHeader m block (used_seg n)
  head = Layout-head m block (used_seg n) post h.end_address at_block

  pub behind : Layout m (block + n) post h.end_address
  behind = Layout-tail m block (used_seg n) post h.end_address at_block

  pub foot : IsFooter m block (used_seg n)
  foot = of_post post at_block
    where
      of_post :
          (post : List Seg)
          → Layout m block (used_seg n ∷ post) h.end_address
          → IsFooter m block (used_seg n)
      of_post [] l = l.1 refl
      of_post (t ∷ ss) l = l.1

  pub inside : block + n + total post ≡ h.end_address
  inside = Layout-total m (block + n) post h.end_address behind

  -- Past the checks of `free`.
  pub free-release : free h m (block + 12) ≡ release h m block (block + n - 8)
  unfolding free
  free-release =
      let ptr : (block + 12 == 0) ≡ false = ground arith in
      let header : block + 12 -ʷ 12 ≡ block = omega (arith, inside, ends) in
      let footer : block +ʷ n -ʷ 8 ≡ block + n - 8 = omega (arith, inside, ends, head.room) in
      let at_end : block + n - 8 ≡ block + (n - 8) = omega (arith, head.room) in
      let marked : (read32 m (block + n - 8) == magic) ≡ true = eq→== _ _ (rw at_end foot.marked) in
      rw (ptr, header, head.sized, footer, eq→== _ _ head.marked, marked)

-- The block stands between `pre` and `post`, and is marked as a hole.
module _ (h : KernelHeap) (m : Mem) (pre post : List Seg) (n : ℕ)
    (v : IsHeap h m (pre ++ used_seg n ∷ post)) where
  abbrev pub block : ℕ
  block = h.start_address + total pre

  pub at_block : Layout m block (used_seg n ∷ post) h.end_address
  at_block = Layout-of m h.start_address pre (used_seg n) post h.end_address v.layout

  abbrev pub marked_mem : Mem
  marked_mem = store m (block + 4) 1

  pending : IsPending h marked_mem pre post block n true
  pending =
      let head = head h m block n post at_block v.ends in
      let foot = foot h m block n post at_block v.ends in
      let inside = inside h m block n post at_block v.ends in
      let room : 20 ≤ n = head.room in
      record {
        front =
            Front-frame m marked_mem h.start_address pre block
              (λ x lo hi. store_other m (block + 4) 1 x (omega arith))
              (Front-of m h.start_address pre (used_seg n) post h.end_address v.layout);
        header = record {
          marked = read32-store_other m (block + 4) block 1 (omega arith) ∙ head.marked;
          flag = store_self m (block + 4) 1 (omega arith);
          sized = read32-store_other m (block + 4) (block + 8) 1 (omega arith) ∙ head.sized;
          room = room;
        };
        footer = record {
          marked = read32-store_other m (block + 4) _ 1 (omega (arith, room)) ∙ foot.marked;
          back = read32-store_other m (block + 4) _ 1 (omega (arith, room)) ∙ foot.back;
        };
        after =
            Layout-frame m marked_mem (block + n) post h.end_address
              (λ x lo hi. store_other m (block + 4) 1 x (omega (arith, room)))
              (behind h m block n post at_block v.ends);
        indexed = v.indexed ∙ holes-append h.start_address pre (used_seg n ∷ post);
        small = omega (arith, index_size_lem h m (pre ++ used_seg n ∷ post) v);
        spot = refl;
        inside = omega (arith, inside);
        ends = v.ends;
      }

  -- With no hole on the left.
  pub free_alone :
      (read32 marked_mem (block -ʷ 8) == magic
          && not (marked_mem (read32 marked_mem (block -ʷ 8 + 4) + 4) == 0))
        ≡ false
      → IsRightSafe marked_mem h.end_address post
      → IsSettled h marked_mem block
          (pre ++ free_seg (joined_size n post) ∷ joined_rest post)
          (free h m (block + 12))
  unfolding release
  free_alone alone safe =
      rw (free-release h m block n post at_block v.ends, release, alone)
        (merge_right-joined h marked_mem pre block n true post safe pending)

-- A hole of `k` bytes stands in front of the block.
module _ (h : KernelHeap) (m : Mem) (pre post : List Seg) (k n : ℕ)
    (v : IsHeap h m (pre ++ free_seg k ∷ used_seg n ∷ post)) where
  abbrev pub left : ℕ
  left = h.start_address + total pre

  pub at_left : Layout m left (free_seg k ∷ used_seg n ∷ post) h.end_address
  at_left = Layout-of m h.start_address pre (free_seg k) (used_seg n ∷ post) h.end_address v.layout

  -- What "Merge left" leaves in memory.
  abbrev pub flagged : Mem
  flagged = store m (left + k + 4) 1

  abbrev pub relinked : Mem
  relinked = write32 flagged (left + k + n - 8 + 4) left

  abbrev pub merged : Mem
  merged = write32 relinked (left + 8) (k + n)

  pub at_block_left : Layout m (left + k) (used_seg n ∷ post) h.end_address
  at_block_left = Layout-tail m left (free_seg k) (used_seg n ∷ post) h.end_address at_left

  pub merged_other :
      (x : ℕ) → (x + 1 ≤ left + 8) ⊎ (left + k + n ≤ x) → 20 ≤ k → 20 ≤ n → merged x ≡ m x
  merged_other x out kk nn =
      write32_other relinked (left + 8) (k + n) x (omega arith)
      ∙ write32_other flagged (left + k + n - 8 + 4) left x (omega arith)
      ∙ store_other m (left + k + 4) 1 x (omega arith)

  IsPending-left : IsPending h merged pre post left (k + n) false
  IsPending-left =
      let front = at_left.0 in
      let head = head h m (left + k) n post at_block_left v.ends in
      let foot = foot h m (left + k) n post at_block_left v.ends in
      let inside = inside h m (left + k) n post at_block_left v.ends in
      let kk : 20 ≤ k = front.room in
      let nn : 20 ≤ n = head.room in
      let behind_at : left + (k + n) ≡ left + k + n = omega arith in
      let end_at : left + (k + n - 8) ≡ left + k + (n - 8) = omega arith in
      let link_at : left + (k + n - 8) + 4 ≡ left + k + n - 8 + 4 = omega arith in
      record {
        front =
            Front-frame m merged h.start_address pre left
              (λ x lo hi. merged_other x (omega arith) kk nn)
              (Front-of m h.start_address pre (free_seg k) (used_seg n ∷ post) h.end_address
                v.layout);
        header = record {
          marked =
              read32-write32_other relinked (left + 8) left (k + n) (omega arith)
              ∙ read32-write32_other flagged _ left left (omega arith)
              ∙ read32-store_other m (left + k + 4) left 1 (omega arith)
              ∙ front.marked;
          flag = merged_other (left + 4) (omega arith) kk nn ∙ front.flag;
          sized = read32-write32_self relinked (left + 8) (k + n) (omega (arith, inside, v.ends));
          room = omega arith;
        };
        footer = record {
          marked =
              read32-write32_other relinked (left + 8) _ (k + n) (omega arith)
              ∙ read32-write32_other flagged _ _ left (omega arith)
              ∙ read32-store_other m (left + k + 4) _ 1 (omega arith)
              ∙ ap (read32 m) end_at
              ∙ foot.marked;
          back =
              read32-write32_other relinked (left + 8) _ (k + n) (omega arith)
              ∙ ap (read32 relinked) link_at
              ∙ read32-write32_self flagged _ left (omega (arith, inside, v.ends));
        };
        after = rw behind_at (
            Layout-frame m merged (left + k + n) post h.end_address
              (λ x lo hi. merged_other x (omega arith) kk nn)
              (behind h m (left + k) n post at_block_left v.ends));
        indexed =
            v.indexed
            ∙ holes-append h.start_address pre (free_seg k ∷ used_seg n ∷ post)
            ∙ ap (λ t. holes h.start_address pre ++ left ∷ holes t post) (sym behind_at);
        small = omega (arith, index_size_lem h m (pre ++ free_seg k ∷ used_seg n ∷ post) v);
        spot = refl;
        inside = omega (arith, inside);
        ends = v.ends;
      }

  -- With a hole on the left.
  pub free-left :
      IsRightSafe merged h.end_address post
      → IsSettled h merged left
          (pre ++ free_seg (joined_size (k + n) post) ∷ joined_rest post)
          (free h m (left + k + 12))
  unfolding release
  free-left safe =
      let front = at_left.0 in
      let hole_foot = at_left.1 in
      let head = head h m (left + k) n post at_block_left v.ends in
      let inside = inside h m (left + k) n post at_block_left v.ends in
      let kk : 20 ≤ k = front.room in
      let nn : 20 ≤ n = head.room in
      let test : left + k -ʷ 8 ≡ left + (k - 8) = omega (arith, inside, v.ends) in
      let marked : read32 flagged (left + (k - 8)) ≡ magic =
        read32-store_other m (left + k + 4) _ 1 (omega arith) ∙ hole_foot.marked in
      let back : read32 flagged (left + (k - 8) + 4) ≡ left =
        read32-store_other m (left + k + 4) _ 1 (omega arith) ∙ hole_foot.back in
      let flag : flagged (left + 4) ≡ 1 =
        store_other m (left + k + 4) 1 _ (omega arith) ∙ front.flag in
      let cache : read32 flagged (left + k + 8) ≡ n =
        read32-store_other m (left + k + 4) _ 1 (omega arith) ∙ head.sized in
      let old : read32 relinked (left + 8) ≡ k =
        read32-write32_other flagged _ (left + 8) left (omega arith)
        ∙ read32-store_other m (left + k + 4) _ 1 (omega arith)
        ∙ front.sized in
      let sum : k +ʷ n ≡ k + n = omega (arith, inside, v.ends) in
      let foot_at : left + k + n - 8 ≡ left + (k + n) - 8 = omega arith in
      let settled = merge_right-joined h merged pre left (k + n) false post safe IsPending-left in
      rw
        (
          free-release h m (left + k) n post at_block_left v.ends,
          release,
          test,
          back,
          marked,
          flag,
          cache,
          old,
          sum,
        )
        (rw (← foot_at) at settled)
