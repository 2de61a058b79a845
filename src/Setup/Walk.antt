-- ===== src/Setup/Walk.antt =====
-- The page tables as the processor walks them: it follows the words of pageTablesPhysical, and not
-- pageTables.
use experimental_kernel.Common.{
  ℕ, ◌+◌, ◌*◌, ◌/◌, ◌%◌, ◌≡◌, ◌≢◌, ◌∙◌, refl, ap, sym, inl, inr, Bool, true, false, ◌&&◌, arith,
  ◌==◌, if◌then◌else◌, Option, none, some, bit_or, ==→eq, Bool-cases,
}
use experimental_kernel.Bits.{bit, bit_or_7}
use experimental_kernel.Heap.{ok}
use experimental_kernel.Kmalloc.{
  Kernel, PagePtr, get_page, present_page, enter_table, kmalloc_early, round_up, table_index,
  table_bytes,
}
use experimental_kernel.Setup.Pages.{
  has_table, page_at, get_page_there, get_page_missing, with_table,
}
use experimental_kernel.Setup.Grant.{Mapped}

-- The byte of main memory that an address leads to, and whether it may be written, and used in user mode.
-- A word of the directory holds the address of a table in its high 20 bits, and three flags in the low
-- ones. Before paging is on, the address of a table is where it is in main memory.
abbrev pub translate : Kernel → ℕ → Option (ℕ × Bool × Bool)
translate k a =
    let word = k.directory.tables_physical (a / 0x400000) in
    let page = k.tables (word / 4096 * 4096) (a / 4096 % 1024) in
    if (bit word 0 == 1) && (page.present == 1)
    then some (
      page.frame * 4096 + a % 4096,
      (bit word 1 == 1) && (page.rw == 1),
      (bit word 2 == 1) && (page.user == 1),
    )
    else none

-- A kernel without the heap, in which each table has its own address with the three flags as its word.
pub record Walks (k : Kernel) : Type 0 where
  pub early : k.heap.enabled ≡ false
  pub whole : (i : ℕ) → k.directory.page_tables i % 4096 ≡ 0
  pub word :
      (i : ℕ)
      → k.directory.page_tables i ≢ 0
      → k.directory.tables_physical i ≡ k.directory.page_tables i + 7

-- A page that is mapped is reached by the processor too.
pub Walks-translate :
    (k : Kernel) (a n : ℕ)
    → Walks k
    → n ≡ a / 4096
    → Mapped n (page_at k a)
    → translate k a ≡ some (a, true, true)
Walks-translate k a n w number mapped = elim (Bool-cases (has_table k (table_index a))) [
  | inr missing ↦
      let zero_present : 0 ≡ 1 = (rw missing at mapped.present) in
      absurd (omega (arith, zero_present))
  | inl there ↦ walk there (rw there at mapped)
]
  where
    walk :
        has_table k (table_index a) ≡ true
        → Mapped n (k.tables (k.directory.page_tables (table_index a)) (a / 4096 % 1024))
        → translate k a ≡ some (a, true, true)
    walk there here =
        let t = k.directory.page_tables (table_index a) in
        let index : a / 0x400000 ≡ table_index a = omega arith in
        let word : k.directory.tables_physical (table_index a) ≡ t + 7 =
          w.word (table_index a) (ground (arith, there)) in
        let table : (t + 7) / 4096 * 4096 ≡ t = omega (arith, w.whole (table_index a)) in
        let p : bit (t + 7) 0 ≡ 1 = omega (arith, w.whole (table_index a)) in
        let q : bit (t + 7) 1 ≡ 1 = omega (arith, w.whole (table_index a)) in
        let r : bit (t + 7) 2 ≡ 1 = omega (arith, w.whole (table_index a)) in
        let byte : n * 4096 + a % 4096 ≡ a = omega (arith, number) in
        rw (index, word, table, p, q, r, here.present, here.rw_, here.user, here.frame, byte) refl

present_page-Walks : (k : Kernel) (a : ℕ) → Walks k → Walks (present_page k a).0
unfolding present_page
present_page-Walks k a w = record {
  early = w.early;
  whole = w.whole;
  word = λ i real. elim (Bool-cases (i == table_index a)) [
    | inl here ↦
        let same : i ≡ table_index a = ==→eq _ _ here in
        rw here (
          ap (λ j. bit_or (k.directory.tables_physical j) 7) (sym same)
          ∙ ap (λ v. bit_or v 7) (w.word i real)
          ∙ bit_or_7 (k.directory.page_tables i + 7)
          ∙ omega (arith, w.whole i))
    | inr other ↦ rw other (w.word i real)
  ];
}

with_table-Walks : (k : Kernel) (a : ℕ) → Walks k → Walks (with_table k a)
unfolding enter_table kmalloc_early
with_table-Walks k a w =
    let aligned : round_up true k.placement_address % 4096 ≡ 0 = ground arith in
    record {
      early = w.early;
      whole = λ i. elim (Bool-cases (i == table_index a)) [
        | inl here ↦ rw here aligned
        | inr other ↦ rw other (w.whole i)
      ];
      word = λ i. elim (Bool-cases (i == table_index a)) [
        | inl here ↦
            rw here (λ real. bit_or_7 (round_up true k.placement_address) ∙ omega (arith, aligned))
        | inr other ↦ rw other (w.word i)
      ];
    }

-- getPage keeps that.
pub get_page-Walks :
    (k : Kernel) (a : ℕ)
    → Walks k
    → (k' : Kernel) × (place : PagePtr) × (get_page k a true ≡ ok (k', place)) × Walks k'
get_page-Walks k a w = elim (Bool-cases (has_table k (table_index a))) [
  | inl there ↦ (
    (present_page k a).0,
    (present_page k a).1,
    get_page_there k a there,
    present_page-Walks k a w,
  )
  | inr missing ↦ (
    with_table k a,
    (enter_table (kmalloc_early k table_bytes true).0 a (kmalloc_early k table_bytes true).1
        (kmalloc_early k table_bytes true).1).1,
    get_page_missing k a w.early missing ∙ (unfold kmalloc_early in refl),
    with_table-Walks k a w,
  )
]
