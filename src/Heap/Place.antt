-- ===== src/Heap/Place.antt =====
-- The end of `allocate`: what the block, and the hole behind it, leave in memory.
use experimental_kernel.Common.{
  ℕ, ◌+◌, ◌-◌, ◌≤◌, ◌<◌, ◌^◌, ◌≡◌, ◌⊎◌, arith, ◌∙◌, true, false, ◌==◌, ◌+ʷ◌, ◌-ʷ◌, ne→==, lt→ltb,
}
use experimental_kernel.Memory.{Mem, read32}
use experimental_kernel.Array.{add_ordered}
use experimental_kernel.Heap.{KernelHeap, set_header, set_footer, place_hole, place_block}
use experimental_kernel.Heap.Layout.{Seg, free_seg, used_seg, IsHeader, IsFooter, IsHeader-frame}
use experimental_kernel.Heap.Write.{
  set_header_other, set_header-IsHeader, set_footer_other, set_footer-IsFooter,
}

-- A segment written out at `a`, and nothing outside it changed.
pub record Wrote (m g : Mem) (a : ℕ) (s : Seg) : Type 0 where
  pub header : IsHeader g a s
  pub footer : IsFooter g a s
  pub same : (x : ℕ) → (x + 1 ≤ a) ⊎ (a + s.size ≤ x) → g x ≡ m x

write_seg : ℕ → Seg → Mem → Mem
write_seg a s m = set_footer (a + (s.size - 8)) a (set_header a s.hole s.size m)

write_seg-Wrote :
    (m : Mem) (a : ℕ) (s : Seg) → 20 ≤ s.size → a + s.size < 2 ^ 32 → Wrote m (write_seg a s m) a s
unfolding write_seg
write_seg-Wrote m a s room fits =
    let g = set_header a s.hole s.size m in
    record {
      header =
          IsHeader-frame g (set_footer (a + (s.size - 8)) a g) a s
            (λ x lo hi. set_footer_other g a (a + (s.size - 8)) x (omega arith))
            (set_header-IsHeader m a s (omega arith) room);
      footer = set_footer-IsFooter g a s (omega arith);
      same = λ x out.
          set_footer_other g a (a + (s.size - 8)) x (omega arith)
          ∙ set_header_other m a s.hole s.size x (omega arith);
    }

module _ (h : KernelHeap) (m : Mem) (a n : ℕ) (fits : a + n < 2 ^ 32) where
  -- The hole of `n` bytes at `a` becomes a block.
  pub place_block_whole :
      20 ≤ n
      → (g : Mem) × (place_block h m a n (n - 20) n ≡ (h, g, a + 12)) × Wrote m g a (used_seg n)
  unfolding place_block
  place_block_whole room =
      let none_left : n -ʷ n ≡ 0 = omega arith in
      let foot : a +ʷ 12 +ʷ (n - 20) ≡ a + (n - 8) = omega arith in
      let ptr : a +ʷ 12 ≡ a + 12 = omega arith in
      (
        write_seg a (used_seg n) m,
        unfold write_seg in rw (none_left, foot, ptr),
        write_seg-Wrote m a (used_seg n) room fits,
      )

  place_hole-Wrote :
      (g : Mem) (b rest : ℕ)
      → b + rest ≡ a + n
      → 20 ≤ rest
      → a + n ≤ h.end_address
      → place_hole h g b rest
        ≡ (record h { index = add_ordered h.index b }, write_seg b (free_seg rest) g)
  unfolding place_hole write_seg
  place_hole-Wrote g b rest e room bound =
      let sized : read32 (set_header b true rest g) (b + 8) ≡ rest =
        (set_header-IsHeader g b (free_seg rest) (omega arith) room).sized in
      let foot : b +ʷ rest -ʷ 8 ≡ b + (rest - 8) = omega arith in
      rw (sized, foot, lt→ltb (b + (rest - 8)) h.end_address (omega arith))

  -- A block of `need` bytes, and a hole of the rest behind it.
  pub place_block_split :
      (need : ℕ)
      → 20 ≤ need
      → need + 20 ≤ n
      → a + n ≤ h.end_address
      → (g g' : Mem) × (place_block h m a n (need - 20) need
          ≡ (record h { index = add_ordered h.index (a + need) }, g', a + 12))
        × Wrote m g a (used_seg need)
        × Wrote g g' (a + need) (free_seg (n - need))
  unfolding place_block write_seg
  place_block_split need room left bound =
      let g = write_seg a (used_seg need) m in
      let rest : n -ʷ need ≡ n - need = omega arith in
      let foot : a +ʷ 12 +ʷ (need - 20) ≡ a + (need - 8) = omega arith in
      let hole : a + (need - 8) +ʷ 8 ≡ a + need = omega arith in
      let ptr : a +ʷ 12 ≡ a + 12 = omega arith in
      let some_left : (n - need == 0) ≡ false = ne→== (n - need) 0 (omega arith) in
      let placed = place_hole-Wrote g (a + need) (n - need) (omega arith) (omega arith) bound in
      (
        g,
        write_seg (a + need) (free_seg (n - need)) g,
        rw (rest, some_left, foot, hole, ptr, placed),
        write_seg-Wrote m a (used_seg need) room (omega arith),
        write_seg-Wrote g (a + need) (free_seg (n - need)) (omega arith) (omega arith),
      )
