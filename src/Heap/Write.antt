-- ===== src/Heap/Write.antt =====
-- What writing a header or a footer establishes, and what it leaves alone.
use experimental_kernel.Common.{
  ℕ, ◌+◌, ◌-◌, ◌≤◌, ◌<◌, ◌^◌, ◌≡◌, ◌⊎◌, arith, if◌then◌else◌, Bool, ◌∙◌, true, false,
}
use experimental_kernel.Memory.{Mem, store, write32}
use experimental_kernel.Memory.Words.{
  read32-write32_self, write32_other, read32-write32_other, store_other, read32-store_other,
  store_self,
}
use experimental_kernel.Heap.{magic, set_header, set_footer}
use experimental_kernel.Heap.Layout.{Seg, IsHeader, IsFooter}

module _ (m : Mem) (a : ℕ) where
  pub set_header_other :
      (hole : Bool) (size x : ℕ) → (x + 1 ≤ a) ⊎ (a + 12 ≤ x) → set_header a hole size m x ≡ m x
  unfolding set_header
  set_header_other hole size x out =
      write32_other _ (a + 8) size x (omega arith)
      ∙ store_other _ (a + 4) _ x (omega arith)
      ∙ write32_other m a magic x (omega arith)

  pub set_header-IsHeader :
      (s : Seg) → s.size < 2 ^ 32 → 20 ≤ s.size → IsHeader (set_header a s.hole s.size m) a s
  unfolding set_header
  set_header-IsHeader s small room = record {
    marked =
        read32-write32_other _ (a + 8) a s.size (omega arith)
        ∙ read32-store_other _ (a + 4) a _ (omega arith)
        ∙ read32-write32_self m a magic (omega arith);
    flag = write32_other _ (a + 8) s.size (a + 4) (omega arith) ∙ flag_lem s.hole;
    sized = read32-write32_self _ (a + 8) s.size small;
    room = room;
  }
    where
      flag_lem :
          (b : Bool)
          → store (write32 m a magic) (a + 4) (if b then 1 else 0) (a + 4) ≡ (if b then 1 else 0)
      flag_lem true = store_self _ (a + 4) 1 (omega arith)
      flag_lem false = store_self _ (a + 4) 0 (omega arith)

  pub set_footer_other : (f x : ℕ) → (x + 1 ≤ f) ⊎ (f + 8 ≤ x) → set_footer f a m x ≡ m x
  unfolding set_footer
  set_footer_other f x out =
      write32_other _ (f + 4) a x (omega arith) ∙ write32_other m f magic x (omega arith)

  pub set_footer-IsFooter :
      (s : Seg) → a < 2 ^ 32 → IsFooter (set_footer (a + (s.size - 8)) a m) a s
  unfolding set_footer
  set_footer-IsFooter s small = record {
    marked =
        read32-write32_other _ _ _ a (omega arith)
        ∙ read32-write32_self m (a + (s.size - 8)) magic (omega arith);
    back = read32-write32_self _ (a + (s.size - 8) + 4) a small;
  }
