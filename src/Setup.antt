-- ===== src/Setup.antt =====
-- PagingManagement::initialisePaging and switchPaging of source/paging_management.cpp. The machine is
-- that of Clone; the directory that is set up is the current one. A loop that is still running when its
-- fuel is out has the result `hang`.
pub mod Pages
pub mod Grant
pub mod Fill
pub mod Low
pub mod Touch
pub mod Whole
pub mod Walk
pub mod Bitmap
pub mod Rounds
pub mod Sound
pub mod Tests
use experimental_kernel.Common.{
  ℕ, zero, suc, ◌+◌, ◌-◌, ◌*◌, ◌/◌, ◌%◌, ◌^◌, ◌≤◌, ◌<◌, min, max, bit_and, bit_or, ◌≡◌, refl, sym,
  ap, ◌∙◌, fun_ext, ◌≢◌, ◌↔◌, ◌⊎◌, inl, inr, Bool, true, false, not, ◌&&◌, ◌||◌, Option, none, some,
  List, [], ◌∷◌, ◌++◌, map, arith, ltb, leb, ◌==◌, if◌then◌else◌, lt→ltb, le→ltb, ltb→lt, ltb→le,
  ==→eq, ==→ne, eq→==, ne→==, Bool-cases, Option-cases, u32, u16, u8, ◌+ʷ◌, ◌-ʷ◌, length, get_elem?,
  get_or, set, replicate, length-append,
}
use experimental_kernel.Heap.{KernelHeap, Run, ok, hang, page_size}
use experimental_kernel.Heap
use experimental_kernel.Paging.{Page, Paging, alloc_frame}
use experimental_kernel.Kmalloc.{Kernel, PageDirectory, put_at, kmalloc, get_page}
use experimental_kernel.Clone.{Machine, clone_page_directory, zero_directory, directory_bytes}
use experimental_kernel.Interrupts.{Handler, put_handler, page_fault_handler}

-- KernelHeap::START and KernelHeap::INITIAL_SIZE, and the size of the main memory.
abbrev pub heap_start : ℕ
heap_start = 0xC0000000

abbrev pub initial_size : ℕ
initial_size = 0x02000000

abbrev pub mem_size : ℕ
mem_size = 0x1000000

-- The bytes of the bitmap: a word for 32 frames.
abbrev pub bitmap_bytes : ℕ
bitmap_bytes = mem_size / page_size / 32 * 4

-- The bitmap and the page directory. memset clears the words of the bitmap and none behind them; the
-- physical address of the directory is that of its first field.
unfoldable pub prepare : Machine → Run Machine
prepare m =
    let frames : ℕ → ℕ = λ i. if ltb i (bitmap_bytes / 4) then 0 else m.paging.frames i in
    elim (kmalloc m.kernel bitmap_bytes false false) [
      | hang ↦ hang
      | ok (k1, bitmap, none_) ↦ elim (kmalloc k1 directory_bytes true true) [
        | hang ↦ hang
        | ok (k2, directory, physical) ↦ ok (record m {
          kernel = record k2 { directory = zero_directory physical };
          paging = record { frames = frames; frame_number = mem_size / page_size };
        })
      ]
    ]

-- getPage for each page from `address` on, with `left` pages left.
unfoldable pub touch_pages : ℕ → ℕ → Machine → Run Machine
touch_pages zero address m = ok m
touch_pages (suc left) address m = elim (get_page m.kernel address true) [
  | hang ↦ hang
  | ok (k, place) ↦ touch_pages left (address + page_size) (record m { kernel = k })
]

-- allocFrame(getPage(address, true, pageDirectory_), false, true).
unfoldable pub alloc_page : ℕ → Machine → Run Machine
alloc_page address m = elim (get_page m.kernel address true) [
  | hang ↦ hang
  | ok (k, (table, entry)) ↦
      (let (paging, page, success) = alloc_frame m.paging (k.tables table entry) false true in
        ok (record m {
          kernel = record k { tables = put_at k.tables table (put_at (k.tables table) entry page) };
          paging = paging;
        }))
]

-- The same for each page from `address` on.
unfoldable pub alloc_pages : ℕ → ℕ → Machine → Run Machine
alloc_pages zero address m = ok m
alloc_pages (suc left) address m = elim (alloc_page address m) [
  | hang ↦ hang
  | ok m' ↦ alloc_pages left (address + page_size) m'
]

-- The loop up to `placement_address`, which getPage moves.
unfoldable pub map_low : ℕ → ℕ → Machine → Run Machine
map_low zero address m = hang
map_low (suc fuel) address m = elim (ltb address (m.kernel.placement_address +ʷ page_size)) [
  | false ↦ ok m
  | true ↦ elim (alloc_page address m) [
    | hang ↦ hang
    | ok m' ↦ map_low fuel (address + page_size) m'
  ]
]

-- The page tables before paging is switched on.
unfoldable pub map_kernel : ℕ → Machine → Run Machine
map_kernel fuel m = elim (prepare m) [
  | hang ↦ hang
  | ok m1 ↦ elim (touch_pages (initial_size / page_size) heap_start m1) [
    | hang ↦ hang
    | ok m2 ↦ elim (map_low fuel 0 m2) [
      | hang ↦ hang
      | ok m3 ↦ alloc_pages (initial_size / page_size) heap_start m3
    ]
  ]
]

-- cr3 and cr0, the handlers of exceptions, `pageDirectory_` and `enabled_`.
pub record System : Type 0 where
  pub machine : Machine
  pub cr3 : ℕ
  pub cr0 : ℕ
  pub isr_handlers : ℕ → Option Handler
  pub page_directory : PageDirectory
  pub enabled : Bool

-- switchPaging: the directory becomes the current one, and bit 31 of cr0 is set.
unfoldable pub switch_paging : PageDirectory → System → System
switch_paging d s = record s {
  machine = record (s.machine) { kernel = record (s.machine.kernel) { directory = d } };
  cr3 = d.physical_address;
  cr0 = bit_or s.cr0 0x80000000;
}

-- initialisePaging, with what stands in memory where the heap puts its index.
unfoldable pub initialise_paging : ℕ → (ℕ → ℕ) → System → Run System
initialise_paging fuel cells s = elim (map_kernel fuel s.machine) [
  | hang ↦ hang
  | ok m1 ↦
      (let s1 = switch_paging m1.kernel.directory (record s {
        machine = m1;
        isr_handlers = put_handler s.isr_handlers 14 page_fault_handler;
        page_directory = m1.kernel.directory;
      }) in
        elim (Heap.init heap_start (heap_start + initial_size) 0xCFFFF000 false false cells
          m1.kernel.mem) [
            | hang ↦ hang
            | ok (heap, mem) ↦
                elim (clone_page_directory m1.kernel.directory.page_tables
                  (record m1 { kernel = record (m1.kernel) { heap = heap; mem = mem } })) [
                    | hang ↦ hang
                    | ok (m2, address, d) ↦
                        ok
                          (record (switch_paging d (record s1 { machine = m2 })) { enabled = true })
                  ]
          ])
]
