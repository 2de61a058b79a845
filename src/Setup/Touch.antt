-- ===== src/Setup/Touch.antt =====
-- The bitmap and the directory, and the page tables of the kernel heap.
use experimental_kernel.Common.{
  ℕ, zero, suc, ◌+◌, ◌*◌, ◌/◌, ◌%◌, ◌^◌, ◌≤◌, ◌<◌, ◌≡◌, refl, ap, ◌∙◌, ◌⊎◌, inl, inr, true, false,
  ◌&&◌, arith, ltb, leb, if◌then◌else◌, lt→ltb, ltb→lt, Bool-cases, ◌+ʷ◌,
}
use mathlib.Core.Path.{subst}
use native.Mathlib.Nat.{zero-div}
use experimental_kernel.Heap.{ok, page_size}
use experimental_kernel.Kmalloc.{
  Kernel, PagePtr, get_page, kmalloc, kmalloc_early, table_index, round_up, zero_page, table_bytes,
}
use experimental_kernel.Clone.{Machine, zero_directory, directory_bytes}
use experimental_kernel.Setup.{prepare, touch_pages, heap_start, bitmap_bytes}
use experimental_kernel.Setup.Pages.{has_table, page_at, IsEarly, Gets, get_page-Gets}
use experimental_kernel.Setup.Grant.{BusyTo}

-- The number of tables for the first `j` pages of the heap.
abbrev pub tables_for : ℕ → ℕ
tables_for j = (j + 1023) / 1024

-- After the first `j` pages of the heap, from a directory without tables and `placement_address` at `p`.
pub record TouchedTo (p j : ℕ) (k : Kernel) : Type 0 where
  pub is_early : IsEarly k
  pub tables : (i : ℕ) → has_table k i ≡ (leb 768 i && ltb i (768 + tables_for j))
  pub view : (b : ℕ) → page_at k b ≡ zero_page
  pub above : p ≤ k.placement_address
  pub placement :
      ((j ≡ 0) × (k.placement_address ≡ p))
      ⊎ ((k.placement_address % 4096 ≡ 0) × (k.placement_address ≤ p + 4096 + 4096 * tables_for j))

touch_step :
    (p j : ℕ) (k k' : Kernel) (place : PagePtr)
    → j < 8192
    → p + 65536 < 2 ^ 32
    → TouchedTo p j k
    → Gets k (heap_start + 4096 * j) k' place
    → TouchedTo p (j + 1) k'
touch_step p j k k' place lt room t g =
    let index : table_index (heap_start + 4096 * j) ≡ 768 + j / 1024 = omega (arith, lt) in
    let had : has_table k (table_index (heap_start + 4096 * j)) ≡ ltb (j / 1024) (tables_for j) =
      ap (has_table k) index ∙ t.tables (768 + j / 1024) ∙ ground (arith, lt) in
    record {
      is_early = g.is_early;
      tables = λ i. g.tables i ∙ ground (arith, t.tables i, index, lt);
      view = λ b. g.view b ∙ t.view b;
      above = elim (Bool-cases (ltb (j / 1024) (tables_for j))) [
        | inl there ↦
            let same : k'.placement_address ≡ k.placement_address =
              g.placement ∙ (rw (had, there) refl) in
            omega (arith, same, t.above)
        | inr missing ↦
            let more : k'.placement_address ≡ round_up true k.placement_address + table_bytes =
              g.placement ∙ (rw (had, missing) refl) in
            ground (arith, more, t.above, t.placement, room, lt)
      ];
      placement = elim (Bool-cases (ltb (j / 1024) (tables_for j))) [
        | inl there ↦
            let same : k'.placement_address ≡ k.placement_address =
              g.placement ∙ (rw (had, there) refl) in
            omega (arith, same, t.placement, ltb→lt _ _ there)
        | inr missing ↦
            let more : k'.placement_address ≡ round_up true k.placement_address + table_bytes =
              g.placement ∙ (rw (had, missing) refl) in
            inr (
              ground (arith, more, t.placement, room, lt),
              ground (arith, more, t.placement, room, lt, missing),
            )
      ];
    }

touch_pages-next :
    (left address : ℕ) (m : Machine) (k : Kernel) (place : PagePtr)
    → get_page m.kernel address true ≡ ok (k, place)
    → touch_pages (suc left) address m
      ≡ touch_pages left (address + page_size) (record m { kernel = k })
unfolding touch_pages
touch_pages-next left address m k place e = rw (touch_pages, e) refl

-- The loop over the pages of the heap makes the tables, and changes no page.
pub touch_pages-TouchedTo :
    (left p j : ℕ) (m : Machine)
    → j + left ≡ 8192
    → p + 65536 < 2 ^ 32
    → TouchedTo p j m.kernel
    → (k : Kernel) × (touch_pages left (heap_start + 4096 * j) m ≡ ok (record m { kernel = k }))
      × TouchedTo p 8192 k
touch_pages-TouchedTo zero p j m count room t =
    let end : j ≡ 8192 = omega (arith, count) in
    (m.kernel, (unfold touch_pages in refl), subst (λ i. TouchedTo p i m.kernel) end t)
touch_pages-TouchedTo (suc left) p j m count room t =
    let (k1, place, got, g) =
      get_page-Gets m.kernel (heap_start + 4096 * j) t.is_early
        (omega (arith, count, room, t.placement)) in
    let (k, rest, t') =
      touch_pages-TouchedTo left p (j + 1) (record m { kernel = k1 }) (omega (arith, count)) room
        (touch_step p j m.kernel k1 place (omega (arith, count)) room t g) in
    let next : heap_start + 4096 * j + page_size ≡ heap_start + 4096 * (j + 1) = omega arith in
    (
      k,
      touch_pages-next left (heap_start + 4096 * j) m k1 place got
          ∙ ap (λ a. touch_pages left a (record m { kernel = k1 })) next
          ∙ rest,
      t',
    )

-- Where `placement_address` is once the bitmap and the directory have their memory.
abbrev pub after_directory : ℕ → ℕ
after_directory placement = round_up true (placement + bitmap_bytes) + directory_bytes

-- The machine once the bitmap is clear and the directory empty.
abbrev pub prepared : Machine → Machine
prepared m = record {
  kernel = record (m.kernel) {
    placement_address = after_directory m.kernel.placement_address;
    directory = zero_directory (round_up true (m.kernel.placement_address + bitmap_bytes));
  };
  paging = record {
    frames = λ i. if ltb i (bitmap_bytes / 4) then 0 else m.paging.frames i;
    frame_number = 4096;
  };
  physical = m.physical;
}

pub prepare_lem :
    (m : Machine)
    → m.kernel.heap.enabled ≡ false
    → m.kernel.placement_address + 65536 < 2 ^ 32
    → prepare m ≡ ok (prepared m)
unfolding prepare kmalloc kmalloc_early
prepare_lem m early room =
    let first : m.kernel.placement_address +ʷ bitmap_bytes
        ≡ m.kernel.placement_address + bitmap_bytes =
      ground (arith, room) in
    let second : round_up true (m.kernel.placement_address + bitmap_bytes) +ʷ directory_bytes
        ≡ after_directory m.kernel.placement_address =
      ground (arith, room) in
    rw (prepare, kmalloc, early, first, second) refl

pub prepared-BusyTo : (m : Machine) → BusyTo (prepared m).paging 0
prepared-BusyTo m = record {
  number = refl;
  busy = λ f lt.
      let inside : ltb (f / 32) (bitmap_bytes / 4) ≡ true = lt→ltb _ _ (omega (arith, lt)) in
      let empty : 0 / 2 ^ (f % 32) ≡ 0 = zero-div (2 ^ (f % 32)) in ground (arith, inside, empty);
}

pub prepared-TouchedTo :
    (m : Machine)
    → m.kernel.heap.enabled ≡ false
    → TouchedTo (after_directory m.kernel.placement_address) 0 (prepared m).kernel
prepared-TouchedTo m early = record {
  is_early = record {
    early = early;
    below = λ i. omega arith;
    apart = λ i j real same. absurd (real refl);
  };
  tables = λ i. ground arith;
  view = λ b. refl;
  above = omega arith;
  placement = inl (refl, refl);
}
