-- ===== src/Clone/Tests.antt =====
-- A kernel before the heap is enabled, with frame 0 and frame 3 busy, a table at 4096 whose entry 5 has
-- frame 3, and a directory whose only table is the shared one.
use experimental_kernel.Common.{
  ℕ, ◌≡◌, refl, ◌≢◌, inl, inr, true, false, arith, ◌==◌, if◌then◌else◌, Bool-cases,
}
use experimental_kernel.Array.{zeroed}
use experimental_kernel.Heap.{ok}
use experimental_kernel.Paging.{Page}
use experimental_kernel.Paging.Search.{is_busy}
use experimental_kernel.Kmalloc.{Kernel, PageDirectory, zero_page, kmalloc, kmalloc_early}
use experimental_kernel.Clone.{Machine, clone_page_table, clone_page_directory, zero_directory}
use experimental_kernel.Clone.Tables.{
  Cloned, Links, clone_page_table-Cloned, clone_page_directory-Links,
}

abbrev page : Page
page = record { present = 1; rw = 1; user = 1; accessed = 0; dirty = 0; unused = 0; frame = 3 }

abbrev table : ℕ → Page
table e = if e == 5 then page else zero_page

abbrev kernel : ℕ → Kernel
unfolding zeroed
kernel placement = record {
  placement_address = placement;
  heap = record {
    index = zeroed 0 (λ i. 0) 0;
    start_address = 0;
    end_address = 0;
    max_address = 0;
    supervisor = false;
    read_only = false;
    enabled = false;
  };
  mem = λ x. 0;
  directory = record {
    tables_physical = λ i. if i == 0 then 4103 else 0;
    page_tables = λ i. if i == 0 then 4096 else 0;
    physical_address = 0;
  };
  tables = λ t. if t == 4096 then table else (λ e. zero_page);
}

abbrev machine : ℕ → Machine
machine placement = record {
  kernel = kernel placement;
  paging = record { frames = λ i. if i == 0 then 9 else 0; frame_number = 4 };
  physical = λ frame offset. frame;
}

busy_source :
    (e : ℕ) → (table e).frame ≢ 0 → is_busy (machine 0).paging.frames (table e).frame ≡ true
busy_source e used = elim (Bool-cases (e == 5)) [
  | inl here ↦ rw here refl
  | inr other ↦ absurd (used (rw other refl))
]

clone_page_table-Cloned_example :
    (m' : Machine) × (clone_page_table (machine 0x100000) 4096 ≡ ok (m', 0x100000, 0x100000))
    × Cloned (machine 0x100000) m' (kernel 0x101000) 4096 0x100000
unfolding kernel kmalloc kmalloc_early
clone_page_table-Cloned_example =
    clone_page_table-Cloned (machine 0x100000) 4096 0x100000 0x100000 (kernel 0x101000) refl
      (omega arith) refl busy_source (omega arith)

clone_page_directory-Links_example :
    (d : PageDirectory) × (clone_page_directory (λ i. 4096) (machine 0x100000)
      ≡ ok (machine 0x102004, 0x100000, d))
    × Links (kernel 0x102004).directory 0 1024 (zero_directory 0x100000) d
unfolding kernel kmalloc kmalloc_early
clone_page_directory-Links_example =
    clone_page_directory-Links (λ i. 4096) (machine 0x100000) (kernel 0x102004) 0x100000 0x100000
      refl (λ i. elim (Bool-cases (i == 0)) [ inl e ↦ rw e (inr refl) | inr e ↦ rw e (inl refl) ])
