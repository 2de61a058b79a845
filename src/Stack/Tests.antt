-- ===== src/Stack/Tests.antt =====
-- A stack of two words at 0x5000, the upper of which points to the lower, moves to 0xE0002000. The heap is
-- enabled, with one hole that is large enough for the page table that is missing.
use experimental_kernel.Common.{
  ℕ, ◌+◌, ◌*◌, ◌-◌, ◌%◌, ◌≤◌, ◌<◌, ◌≡◌, ◌≢◌, ◌⊎◌, ◌∙◌, inl, inr, refl, sym, ap, Bool, false, true,
  ltb, arith, ◌==◌, if◌then◌else◌, ◌+ʷ◌, ne→==, eq→==, ==→eq, ltb→lt, lt→ltb, Bool-cases,
}
use experimental_kernel.Array.{erase, at_ordered}
use experimental_kernel.Memory.{Mem, read32, write32, store}
use experimental_kernel.Heap.{
  KernelHeap, ok, set_header, set_footer, allocate, allocate_at, find_smallest_hole, find_loop,
  fits, place_block, index_size, page_size,
}
use experimental_kernel.Heap.Write.{set_header_other, set_footer_other}
use experimental_kernel.Kmalloc.{
  Kernel, kmalloc, kmalloc_heap, find_page, present_page, enter_table, zero_page, table_bytes,
  table_index,
}
use experimental_kernel.Clone.{Machine}
use experimental_kernel.Setup.Pages.{has_table}
use experimental_kernel.Stack.{change_stack}
use experimental_kernel.Stack.Supply.{IsBytes, GivesTable, Supplies}
use experimental_kernel.Stack.Words.{CanMove}
use experimental_kernel.Stack.Moved.{Moved, change_stack-Moved}

abbrev old_mem : Mem
old_mem x = if x == 0x4FFD then 0x4F else if x == 0x4FFC then 0xF9 else 0

-- The hole at 0xC0080FF4.
abbrev mem : Mem
mem = set_header 0xC0080FF4 true 4116 old_mem

abbrev heap : KernelHeap
heap = record {
  index = record { cells = λ i. 0xC0080FF4; size = 1; max_size = index_size };
  start_address = 0xC0080000;
  end_address = 0xC2000000;
  max_address = 0xCFFFF000;
  supervisor = false;
  read_only = false;
  enabled = true;
}

abbrev later_mem : Mem
later_mem = set_footer 0xC0082000 0xC0080FF4 (set_header 0xC0080FF4 false 4116 mem)

abbrev later_heap : KernelHeap
later_heap = record heap { index = erase heap.index 0 }

allocated : allocate heap mem table_bytes true ≡ (later_heap, later_mem, 0xC0081000)
unfolding allocate allocate_at find_smallest_hole find_loop fits place_block read32 write32 store
    set_header at_ordered
allocated = refl

abbrev page_tables : ℕ → ℕ
page_tables i = if i == 768 then 0x3000 else 0

abbrev machine : Machine
machine = record {
  kernel = record {
    placement_address = 0x100000;
    heap = heap;
    mem = mem;
    directory = record {
      tables_physical = λ i. 0;
      page_tables = page_tables;
      physical_address = 0;
    };
    tables = λ t e. zero_page;
  };
  paging = record { frames = λ i. 1; frame_number = 4 };
  physical = λ frame offset. 0;
}

abbrev kept : ℕ → Bool
kept a = ltb a 0xC0000000

-- Before and after the table of the new stack is there.
abbrev Ready : Kernel → Type 0
Ready k =
    ((i : ℕ) → i ≢ 896 → k.directory.page_tables i ≡ page_tables i)
    × (((k.heap ≡ heap) × (k.mem ≡ mem) × (k.directory.page_tables 896 ≡ 0))
        ⊎ (k.directory.page_tables 896 ≢ 0))

abbrev after : Kernel → Kernel
after k = (present_page (record k { heap = later_heap; mem = later_mem }) 0xC0081000).0

on_heap :
    (k : Kernel)
    → k.heap.enabled ≡ true
    → kmalloc k table_bytes true true ≡ kmalloc_heap k table_bytes true true
unfolding kmalloc
on_heap k enabled = rw (kmalloc, enabled) refl

kmalloc_heap_lem :
    (k : Kernel) (h : KernelHeap) (m : Mem) (place : ℕ)
    → allocate k.heap k.mem table_bytes true ≡ (h, m, place)
    → (k.directory.page_tables (table_index place) == 0) ≡ false
    → (let (k', (table, entry)) = present_page (record k { heap = h; mem = m }) place in
        kmalloc_heap k table_bytes true true
        ≡ ok (k', place, (k'.tables table entry).frame * page_size +ʷ place % page_size))
unfolding kmalloc_heap find_page
kmalloc_heap_lem k h m place given there =
    let third : (allocate k.heap k.mem table_bytes true).2 ≡ place = ap (λ r. r.2) given in
    rw (kmalloc_heap, given, there, third) refl

kmalloc_lem :
    (k : Kernel)
    → k.heap ≡ heap
    → k.mem ≡ mem
    → k.directory.page_tables 768 ≡ 0x3000
    → kmalloc k table_bytes true true
      ≡ ok (after k, 0xC0081000, (k.tables 0x3000 129).frame * page_size +ʷ 0)
unfolding present_page
kmalloc_lem k h m t =
    let enabled : k.heap.enabled ≡ true = ap (λ x. x.enabled) h in
    let given : allocate k.heap k.mem table_bytes true ≡ (later_heap, later_mem, 0xC0081000) =
      ap (λ x. allocate x k.mem table_bytes true) h
      ∙ ap (λ x. allocate heap x table_bytes true) m
      ∙ allocated in
    on_heap k enabled
    ∙ kmalloc_heap_lem k later_heap later_mem 0xC0081000 given (ap (λ x. x == 0) t)
    ∙ ap (λ x. ok (after k, 0xC0081000, (k.tables x 129).frame * page_size +ʷ 0)) t

later_mem_kept : (a : ℕ) → kept a ≡ true → later_mem a ≡ mem a
later_mem_kept a low =
    let below : a < 0xC0000000 = ltb→lt _ _ low in
    set_footer_other (set_header 0xC0080FF4 false 4116 mem) 0xC0080FF4 0xC0082000 a
      (inl (omega (arith, below)))
    ∙ set_header_other mem 0xC0080FF4 false 4116 a (inl (omega (arith, below)))

store-IsBytes : (m : Mem) (a v : ℕ) → IsBytes m → IsBytes (store m a v)
unfolding store
store-IsBytes m a v h x = ground (arith, h x)

write32-IsBytes : (m : Mem) (a v : ℕ) → IsBytes m → IsBytes (write32 m a v)
unfolding write32
write32-IsBytes m a v h =
    store-IsBytes _ (a + 3) _
      (store-IsBytes _ (a + 2) _ (store-IsBytes _ (a + 1) _ (store-IsBytes m a v h)))

set_header-IsBytes :
    (a : ℕ) (hole : Bool) (size : ℕ) (m : Mem) → IsBytes m → IsBytes (set_header a hole size m)
unfolding set_header
set_header-IsBytes a hole size m h =
    write32-IsBytes _ (a + 8) size (store-IsBytes _ (a + 4) _ (write32-IsBytes m a _ h))

set_footer-IsBytes : (f header : ℕ) (m : Mem) → IsBytes m → IsBytes (set_footer f header m)
unfolding set_footer
set_footer-IsBytes f header m h = write32-IsBytes _ (f + 4) header (write32-IsBytes m f _ h)

mem-IsBytes : IsBytes mem
mem-IsBytes = set_header-IsBytes 0xC0080FF4 true 4116 old_mem (λ a. ground arith)

entered-Ready :
    (k : Kernel) (a : ℕ)
    → 0xE0000000 ≤ a
    → a ≤ 0xE0002000
    → Ready k
    → Ready (enter_table (after k) a 0xC0081000 ((k.tables 0x3000 129).frame * page_size +ʷ 0)).0
unfolding enter_table present_page
entered-Ready k a lo hi (others, _) =
    let index : table_index a ≡ 896 = omega (arith, lo, hi) in
    (
      λ i ne.
          let other : (i == table_index a) ≡ false = ne→== _ _ (omega (arith, ne, index)) in
          rw other (others i ne),
      (let self : (896 == table_index a) ≡ true = eq→== _ _ (omega (arith, index)) in
          inr (rw self (omega arith))),
    )

fresh :
    (k : Kernel)
    → ((i : ℕ) → i ≢ 896 → k.directory.page_tables i ≡ page_tables i)
    → k.directory.page_tables 896 ≡ 0
    → (i : ℕ) → k.directory.page_tables i ≢ 0xC0081000
fresh k others here i e = elim (Bool-cases (i == 896)) [
  | inl at ↦
      let z : k.directory.page_tables i ≡ 0 = ap k.directory.page_tables (==→eq _ _ at) ∙ here in
      omega (arith, z, e)
  | inr away ↦ ground (arith, others i (ground (arith, away)), e)
]

given_table :
    (k : Kernel) (a : ℕ)
    → 0xE0000000 ≤ a
    → a ≤ 0xE0002000
    → Ready k
    → has_table k 896 ≡ false
    → (g : GivesTable kept k) × Ready (enter_table g.after a g.table g.physical).0
unfolding present_page
given_table k a lo hi (others, inr real) missing = absurd (ground (arith, real, missing))
given_table k a lo hi (others, inl (h, m, here)) missing = (
  record {
    after = after k;
    table = 0xC0081000;
    physical = (k.tables 0x3000 129).frame * page_size +ʷ 0;
    returns = kmalloc_lem k h m (others 768 (omega arith));
    real = omega arith;
    fresh = fresh k others here;
    same_directory = refl;
    same_tables = refl;
    same_mem = λ x low. later_mem_kept x low ∙ ap (λ t. t x) (sym m);
    bytes = λ b.
        set_footer-IsBytes 0xC0082000 0xC0080FF4 (set_header 0xC0080FF4 false 4116 mem)
          (set_header-IsBytes 0xC0080FF4 false 4116 mem mem-IsBytes);
  },
  entered-Ready k a lo hi (others, inl (h, m, here)),
)

supplies : Supplies Ready kept 0xE0000000 0xE0002000
unfolding present_page
supplies = record {
  gives = λ k a lo hi ready missing.
      let index : table_index a ≡ 896 = omega (arith, lo, hi) in
      given_table k a lo hi ready (ap (λ i. has_table k i) (sym index) ∙ missing);
  finds = λ k a lo hi ready. ready;
  places = λ k a page lo hi ready there. ready;
}

machine-CanMove : CanMove 0x4FF8 0x4FFC 0x5000 0xE0002000 0x2000
machine-CanMove = record {
  esp = omega arith;
  ebp = omega arith;
  room = omega arith;
  whole = refl;
  apart = omega arith;
  low = omega arith;
  high = omega arith;
}

one_table : (i j : ℕ) → page_tables i ≢ 0 → page_tables i ≡ page_tables j → i ≡ j
one_table i j real same = ground (arith, real, same)

blank :
    (j : ℕ)
    → (if has_table machine.kernel (table_index (0xE0002000 - 4096 * j))
        then zero_page
        else zero_page).frame
      ≡ 0
blank j = elim (Bool-cases (has_table machine.kernel (table_index (0xE0002000 - 4096 * j)))) [
  | inl e ↦ rw e refl
  | inr e ↦ rw e refl
]

change_stack-Moved_example :
    (m' : Machine) × (change_stack 0x2002 machine 0x4FF8 0x4FFC 0x5000 0xE0002000 0x2000
      ≡ ok (m', 0xE0002000 - (0x5000 - 0x4FF8), 0xE0002000 - (0x5000 - 0x4FFC)))
    × Moved kept machine 0x4FF8 0x5000 0xE0002000 0x2000 m'
change_stack-Moved_example =
    change_stack-Moved Ready kept 0x2002 machine 0x4FF8 0x4FFC 0x5000 0xE0002000 0x2000
      (omega arith) machine-CanMove mem-IsBytes supplies (λ i ne. refl, inl (refl, refl, refl))
      one_table (λ a lo hi. lt→ltb _ _ (omega (arith, hi))) (λ j le. blank j)
