-- ===== src/Setup/Tests.antt =====
-- A kernel that has just started, with 1 MB below `placement_address`, whose memory holds ones.
use experimental_kernel.Common.{◌≡◌, refl, false, arith}
use experimental_kernel.Array.{zeroed}
use experimental_kernel.Heap.{ok}
use experimental_kernel.Kmalloc.{zero_page}
use experimental_kernel.Clone.{Machine}
use experimental_kernel.Setup.{map_kernel}
use experimental_kernel.Setup.Whole.{KernelMap, map_kernel-KernelMap}

abbrev started : Machine
unfolding zeroed
started = record {
  kernel = record {
    placement_address = 0x100000;
    heap = record {
      index = zeroed 0 (λ i. 0) 0;
      start_address = 0;
      end_address = 0;
      max_address = 0;
      supervisor = false;
      read_only = false;
      enabled = false;
    };
    mem = λ x. 1;
    directory = record { tables_physical = λ i. 1; page_tables = λ i. 1; physical_address = 0 };
    tables = λ t e. zero_page;
  };
  paging = record { frames = λ i. 1; frame_number = 0 };
  physical = λ frame offset. 1;
}

map_kernel-KernelMap_example :
    (m' : Machine) × (map_kernel 1025 started ≡ ok m') × KernelMap started m'
unfolding started
map_kernel-KernelMap_example = map_kernel-KernelMap 1025 started (omega arith) refl (omega arith)
