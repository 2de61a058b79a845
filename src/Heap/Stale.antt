-- ===== src/Heap/Stale.antt =====
-- The footer that "Merge right" forgets.
use experimental_kernel.Common.{ℕ, ◌+◌, ◌-◌, ◌≡◌, List, ◌∷◌, arith, ◌∙◌, ap, Bool}
use experimental_kernel.Memory.{Mem, read32, write32}
use experimental_kernel.Memory.Words.{read32-write32_self, read32-write32_other, write32_other}
use experimental_kernel.Heap.{KernelHeap, ok, merge_right}
use experimental_kernel.Heap.Layout.{Seg, free_seg, IsHeader, IsFooter, Layout-total}
use experimental_kernel.Heap.Release.{IsPending, merge_right_some}

-- When a hole of `n` bytes at `a` takes in the hole of `k` bytes on its right, and that hole is not
-- the last segment, the merged header says `n + k`, but the footer at its end still leads to the
-- right header at `a + n`, which is still marked as a hole of `k` bytes. So no footer of the merged
-- hole is there.
pub merge_right_stale :
    (h : KernelHeap) (m : Mem) (pre rest : List Seg) (t : Seg) (a n k : ℕ) (add_hole : Bool)
    → IsPending h m pre (free_seg k ∷ t ∷ rest) a n add_hole
    → (h' : KernelHeap) × (g : Mem) × (merge_right h m a (a + n - 8) add_hole ≡ ok (h', g))
      × (read32 g (a + 8) ≡ n + k)
      × (read32 g (a + (n + k - 8) + 4) ≡ a + n)
      × IsHeader g (a + n) (free_seg k)
      × ¬ (IsFooter g a (free_seg (n + k)))
merge_right_stale h m pre rest t a n k add_hole v =
    let (h', e, _, _, _) = merge_right_some h m pre (t ∷ rest) a n k add_hole v in
    let right = v.after.0 in
    let foot = v.after.1 in
    let fits = Layout-total m (a + n + k) (t ∷ rest) h.end_address v.after.2 in
    let at : a + (n + k - 8) + 4 ≡ a + n + (k - 8) + 4 = omega (arith, right.room) in
    let nn = v.header.room in
    let link : read32 (write32 m (a + 8) (n + k)) (a + (n + k - 8) + 4) ≡ a + n =
      ap (read32 (write32 m (a + 8) (n + k))) at
      ∙ read32-write32_other m (a + 8) _ (n + k) (omega (arith, nn, right.room))
      ∙ foot.back in
    (
      h',
      write32 m (a + 8) (n + k),
      e,
      read32-write32_self m (a + 8) (n + k) (omega (arith, fits, v.ends)),
      link,
      record {
        marked = read32-write32_other m (a + 8) (a + n) (n + k) (omega (arith, nn)) ∙ right.marked;
        flag = write32_other m (a + 8) (n + k) (a + n + 4) (omega (arith, nn)) ∙ right.flag;
        sized =
            read32-write32_other m (a + 8) (a + n + 8) (n + k) (omega (arith, nn)) ∙ right.sized;
        room = right.room;
      },
      λ f. omega (arith, f.back, link, nn),
    )
