-- ===== src/Setup/Whole.antt =====
-- What stands in the page tables when paging is switched on.
use experimental_kernel.Common.{
  ℕ, ◌+◌, ◌*◌, ◌/◌, ◌≤◌, ◌<◌, ◌≡◌, refl, sym, ap, ◌∙◌, ◌⊎◌, inl, inr, true, false, ◌&&◌, ◌||◌,
  arith, ltb, leb, ◌==◌, lt→ltb,
}
use mathlib.Core.Path.{subst}
use experimental_kernel.Heap.{ok, page_size}
use experimental_kernel.Paging.{Page}
use experimental_kernel.Paging.Search.{is_busy}
use experimental_kernel.Kmalloc.{Kernel, table_index, zero_page}
use experimental_kernel.Clone.{Machine}
use experimental_kernel.Setup.{
  prepare, touch_pages, map_low, alloc_pages, map_kernel, heap_start, initial_size,
}
use experimental_kernel.Setup.Pages.{has_table, page_at}
use experimental_kernel.Setup.Grant.{frame_count, BusyTo, Mapped, Given}
use experimental_kernel.Setup.Fill.{Filled, IsBlank, alloc_pages-Filled}
use experimental_kernel.Setup.Low.{low_pages, map_low-Filled}
use experimental_kernel.Setup.Touch.{
  TouchedTo, touch_pages-TouchedTo, after_directory, prepared, prepare_lem, prepared-BusyTo,
  prepared-TouchedTo,
}

-- No memory is taken back. The low memory is mapped to itself up to `placement_address`, the pages of the
-- heap have the frames that follow, and there is no other page and no free frame.
pub record KernelMap (m0 m : Machine) : Type 0 where
  pub kept : m0.kernel.placement_address ≤ m.kernel.placement_address
  pub low :
      (i : ℕ) → i < low_pages m.kernel.placement_address → Mapped i (page_at m.kernel (4096 * i))
  pub heap :
      (j : ℕ)
      → j < initial_size / page_size
      → Given (low_pages m.kernel.placement_address + j) (page_at m.kernel (heap_start + 4096 * j))
  pub others :
      (b : ℕ)
      → low_pages m.kernel.placement_address ≤ b / 4096
      → (b < heap_start) ⊎ (heap_start + initial_size ≤ b)
      → page_at m.kernel b ≡ zero_page
  pub full : (f : ℕ) → f < frame_count → is_busy m.paging.frames f ≡ true

map_kernel_lem :
    (fuel : ℕ) (m m1 m2 m3 : Machine)
    → prepare m ≡ ok m1
    → touch_pages (initial_size / page_size) heap_start m1 ≡ ok m2
    → map_low fuel 0 m2 ≡ ok m3
    → map_kernel fuel m ≡ alloc_pages (initial_size / page_size) heap_start m3
unfolding map_kernel
map_kernel_lem fuel m m1 m2 m3 e1 e2 e3 = rw (map_kernel, e1, e2, e3) refl

-- The tables of the heap's pages are there, and the pages empty, after the loop over the low memory.
heap-IsBlank :
    (k2 k3 : Kernel)
    → ((i : ℕ) → has_table k2 i ≡ (leb 768 i && ltb i 776))
    → ((i : ℕ) → has_table k3 i ≡ (i == 0 || has_table k2 i))
    → ((b : ℕ) → 1024 ≤ b / 4096 → page_at k3 b ≡ zero_page)
    → IsBlank k3 786432 8192
heap-IsBlank k2 k3 t2 t3 empty = record {
  tabled = λ j lt.
      let index : table_index (4096 * (786432 + j)) ≡ 768 + j / 1024 = omega (arith, lt) in
      ap (has_table k3) index ∙ t3 (768 + j / 1024) ∙ ground (arith, t2 (768 + j / 1024), lt);
  empty = λ j lt. ap (λ p. p.frame) (empty (4096 * (786432 + j)) (omega arith));
}

low-Mapped : (n : ℕ) (page : Page) → n < frame_count → Given n page → Mapped n page
low-Mapped n page lt (inl (_, mapped)) = mapped
low-Mapped n page lt (inr (past, _)) = absurd (omega (arith, lt, past))

KernelMap-parts :
    (m0 m2 m3 m : Machine) (n : ℕ)
    → m0.kernel.placement_address ≤ m.kernel.placement_address
    → n ≡ low_pages m.kernel.placement_address
    → n ≤ 1024
    → ((b : ℕ) → page_at m2.kernel b ≡ zero_page)
    → Filled m2 0 n 0 m3
    → Filled m3 786432 8192 n m
    → KernelMap m0 m
KernelMap-parts m0 m2 m3 m n kept count small empty f g = record {
  kept = kept;
  low = λ i lt.
      let inside : i < n = omega (arith, lt, count) in
      let given : Given i (page_at m3.kernel (4096 * i)) =
        subst (λ k. Given k (page_at m3.kernel (4096 * k))) (omega arith) (f.given i inside) in
      subst (Mapped i) (sym (g.others (4096 * i) (omega (arith, inside, small))))
        (low-Mapped i (page_at m3.kernel (4096 * i)) (omega (arith, inside, small)) given);
  heap = λ j lt.
      let address : heap_start + 4096 * j ≡ 4096 * (786432 + j) = omega arith in
      subst (λ k. Given (k + j) (page_at m.kernel (heap_start + 4096 * j))) count
        (subst (λ a. Given (n + j) (page_at m.kernel a)) (sym address) (g.given j lt));
  others = λ b above out.
      g.others b (omega (arith, out)) ∙ f.others b (omega (arith, above, count)) ∙ empty b;
  full = λ f' lt. g.busy.busy f' lt ∙ lt→ltb _ _ (omega (arith, lt));
}

-- The pages of the heap, after the loop over the low memory.
heap-KernelMap :
    (p n : ℕ) (m0 m2 m3 : Machine)
    → m0.kernel.placement_address ≤ m3.kernel.placement_address
    → TouchedTo p 8192 m2.kernel
    → n ≡ low_pages m3.kernel.placement_address
    → m3.kernel.placement_address < 0x400000
    → Filled m2 0 n 0 m3
    → ((i : ℕ) → has_table m3.kernel i ≡ (i == 0 || has_table m2.kernel i))
    → (m' : Machine) × (alloc_pages (initial_size / page_size) heap_start m3 ≡ ok m')
      × KernelMap m0 m'
heap-KernelMap p n m0 m2 m3 kept t count low f tables =
    let start : 0 + n ≡ n = omega arith in
    let small : n ≤ 1024 = omega (arith, count, low) in
    let (m', filled, g, same) =
      alloc_pages-Filled 8192 786432 n m3 f.is_early (omega (arith, low))
        (subst (BusyTo m3.paging) start f.busy)
        (heap-IsBlank m2.kernel m3.kernel t.tables tables
          (λ b above. f.others b (omega (arith, above, small)) ∙ t.view b)) in
    (
      m',
      filled,
      KernelMap-parts m0 m2 m3 m' n (omega (arith, kept, same.placement))
          (count ∙ ap low_pages (sym same.placement)) small t.view f g,
    )

-- Both loops, after the one that makes the tables.
tables-KernelMap :
    (fuel p : ℕ) (m m1 m2 : Machine)
    → 1024 < fuel
    → p + 52731 < 0x400000
    → m.kernel.placement_address ≤ p
    → prepare m ≡ ok m1
    → touch_pages (initial_size / page_size) heap_start m1 ≡ ok m2
    → TouchedTo p 8192 m2.kernel
    → BusyTo m2.paging 0
    → (m' : Machine) × (map_kernel fuel m ≡ ok m') × KernelMap m m'
tables-KernelMap fuel p m m1 m2 more room lower e1 e2 t b =
    let high : m2.kernel.placement_address + 12288 < 0x400000 = omega (arith, room, t.placement) in
    let (m3, low, f, placed, tables) =
      map_low-Filled fuel m2 more t.is_early high (t.tables 0) b
        (λ a. ap (λ q. q.frame) (t.view a)) in
    let (m', filled, kernel_map) =
      heap-KernelMap p (low_pages m3.kernel.placement_address) m m2 m3
        (ground (arith, placed, high, t.above, lower)) t refl (ground (arith, placed, high)) f
        tables in
    (m', map_kernel_lem fuel m m1 m2 m3 e1 e2 low ∙ filled, kernel_map)

-- initialisePaging before it switches paging on, where the heap is not enabled and placement_address is
-- 64 KB or more below 4 MB (with fuel for the pages of 4 MB, the loop over the low memory does not run
-- out of it): placement_address does not go down, every page up to placement_address has the frame of its own number, present and
-- writeable, the pages of the heap have the frames that follow, in order, and any other page is empty.
-- No frame is free. As the main memory has 4096 frames and the heap 8192 pages, a page of the heap that
-- comes after the last frame has no frame, or one behind the memory.
pub map_kernel-KernelMap :
    (fuel : ℕ) (m : Machine)
    → 1024 < fuel
    → m.kernel.heap.enabled ≡ false
    → m.kernel.placement_address + 65536 < 0x400000
    → (m' : Machine) × (map_kernel fuel m ≡ ok m') × KernelMap m m'
map_kernel-KernelMap fuel m more early room =
    let p = after_directory m.kernel.placement_address in
    let bound : p < m.kernel.placement_address + 12805 = ground (arith, room) in
    let (k2, touched, t) =
      touch_pages-TouchedTo 8192 p 0 (prepared m) refl (omega (arith, room, bound))
        (prepared-TouchedTo m early) in
    tables-KernelMap fuel p m (prepared m) (record (prepared m) { kernel = k2 }) more
      (omega (arith, room, bound)) (ground (arith, room))
      (prepare_lem m early (omega (arith, room))) touched t (prepared-BusyTo m)
