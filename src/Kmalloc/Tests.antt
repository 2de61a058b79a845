-- ===== src/Kmalloc/Tests.antt =====
-- The kernel before the heap is enabled, with no page table, and the theorems at it.
use experimental_kernel.Common.{ℕ, ◌≡◌, refl, arith, true, false, bit_or}
use experimental_kernel.Array.{zeroed}
use experimental_kernel.Heap.{ok}
use experimental_kernel.Kmalloc.{
  Kernel, kmalloc, kmalloc_early, get_page, zero_page, table_index, entry_index,
}
use experimental_kernel.Kmalloc.Lookup.{get_page_made}

abbrev early : Kernel
unfolding zeroed
early = record {
  placement_address = 0x100010;
  heap = record {
    index = zeroed 0 (λ i. 0) 0;
    start_address = 0;
    end_address = 0;
    max_address = 0;
    supervisor = false;
    read_only = false;
    enabled = false;
  };
  mem = λ x. 0;
  directory = record { tables_physical = λ i. 0; page_tables = λ i. 0; physical_address = 0 };
  tables = λ t e. zero_page;
}

get_page_made_example :
    (k'' : Kernel) × (get_page early 0x400123 true ≡ ok (k'', (0x101000, entry_index 0x400123)))
    × ((entry : ℕ) → k''.tables 0x101000 entry ≡ zero_page)
    × (k''.directory.tables_physical (table_index 0x400123) ≡ bit_or 0x101000 7)
    × (k''' : Kernel) × (get_page k'' 0x400123 false ≡ ok (k''', (0x101000, entry_index 0x400123)))
    × ((t entry : ℕ) → k'''.tables t entry ≡ k''.tables t entry)
unfolding early
get_page_made_example =
    get_page_made early (record early { placement_address = 0x102000 }) 0x400123 0x101000 0x101000
      false refl (unfold kmalloc kmalloc_early in refl) (omega arith)
