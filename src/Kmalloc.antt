-- ===== src/Kmalloc.antt =====
-- kmalloc of source/memory_management.cpp, and PagingManagement::getPage of
-- source/paging_management.cpp, which call one another. Page tables are kept by their address in
-- `tables`, apart from the byte store, and page directories hold these addresses (0 is null).
pub mod Bump
pub mod Lookup
pub mod Tests
use experimental_kernel.Common.{
  ℕ, ◌+◌, ◌-◌, ◌*◌, ◌/◌, ◌%◌, ◌^◌, ◌==◌, if◌then◌else◌, ◌+ʷ◌, Bool, true, false, not, ◌&&◌, bit_or,
  Option, none, some,
}
use experimental_kernel.Memory.{Mem}
use experimental_kernel.Heap.{KernelHeap, Run, ok, hang, allocate, page_size}
use experimental_kernel.Paging.{Page}

pub record PageDirectory : Type 0 where
  pub tables_physical : ℕ → ℕ
  pub page_tables : ℕ → ℕ
  pub physical_address : ℕ

-- `placement_address`, `kernelHeap`, the memory, and the current page directory with its tables.
pub record Kernel : Type 0 where
  pub placement_address : ℕ
  pub heap : KernelHeap
  pub mem : Mem
  pub directory : PageDirectory
  pub tables : ℕ → ℕ → Page

abbrev pub put_at : {A : Type 0} → (ℕ → A) → ℕ → A → ℕ → A
put_at f i v = λ j. if j == i then v else f j

-- sizeof(PageTable): 1024 entries of 4 bytes.
abbrev pub table_bytes : ℕ
table_bytes = 4096

-- The address of a page table, and the index of an entry in it.
abbrev pub PagePtr : Type 0
PagePtr = ℕ × ℕ

abbrev pub table_index : ℕ → ℕ
table_index address = address / 0x1000 / 1024

abbrev pub entry_index : ℕ → ℕ
entry_index address = address / 0x1000 % 1024

-- getPage where the table is there: it is marked PRESENT, RW, US.
unfoldable pub present_page : Kernel → ℕ → Kernel × PagePtr
present_page k address =
    let i = table_index address in
    let d = k.directory in
    (
      record k {
        directory = record d {
          tables_physical = put_at d.tables_physical i (bit_or (d.tables_physical i) 7);
        };
      },
      (d.page_tables i, entry_index address),
    )

-- getPage with makePageTable = 0: without a table it hangs.
unfoldable pub find_page : Kernel → ℕ → Run (Kernel × PagePtr)
find_page k address =
    if k.directory.page_tables (table_index address) == 0 then hang else ok (present_page k address)

-- The address rounded up to a page, when that is asked for.
abbrev pub round_up : Bool → ℕ → ℕ
round_up align placement =
    if align && not (placement % page_size == 0)
    then placement - placement % page_size +ʷ page_size
    else placement

-- kmalloc before the heap is enabled.
unfoldable pub kmalloc_early : Kernel → ℕ → Bool → Kernel × ℕ
kmalloc_early k size align =
    let place = round_up align k.placement_address in
    (record k { placement_address = place +ʷ size }, place)

-- kmalloc on the heap, with the physical address if `phys` is not null.
unfoldable pub kmalloc_heap : Kernel → ℕ → Bool → Bool → Run (Kernel × ℕ × ℕ)
kmalloc_heap k size align phys =
    let (h, m, place) = allocate k.heap k.mem size align in
    let k' = record k { heap = h; mem = m } in
    if phys
    then elim (find_page k' place) [
      | ok (k'', (table, entry)) ↦
          ok (k'', place, (k''.tables table entry).frame * page_size +ʷ place % page_size)
      | hang ↦ hang
    ]
    else ok (k', place, 0)

-- The result and `*phys` (0 where `phys` is null).
unfoldable pub kmalloc : Kernel → ℕ → Bool → Bool → Run (Kernel × ℕ × ℕ)
kmalloc k size align phys =
    if k.heap.enabled
    then kmalloc_heap k size align phys
    else (let (k', place) = kmalloc_early k size align in ok (k', place, if phys then place else 0))

abbrev pub zero_page : Page
zero_page = record { present = 0; rw = 0; user = 0; accessed = 0; dirty = 0; unused = 0; frame = 0 }

-- getPage once kmalloc has made the table.
unfoldable pub enter_table : Kernel → ℕ → ℕ → ℕ → Kernel × PagePtr
enter_table k address table physical =
    let i = table_index address in
    let d = k.directory in
    (
      record k {
        directory = record d {
          tables_physical = put_at d.tables_physical i (bit_or physical 7);
          page_tables = put_at d.page_tables i table;
        };
        tables = put_at k.tables table (λ entry. zero_page);
      },
      (table, entry_index address),
    )

-- getPage over the current directory.
unfoldable pub get_page : Kernel → ℕ → Bool → Run (Kernel × PagePtr)
get_page k address make_page_table =
    if k.directory.page_tables (table_index address) == 0
    then if make_page_table
      then elim (kmalloc k table_bytes true true) [
        | ok (k', table, physical) ↦ ok (enter_table k' address table physical)
        | hang ↦ hang
      ]
      else hang
    else ok (present_page k address)
