-- ===== src/Boot/Tests.antt =====
-- A kernel that has just started, with a multiboot header at 4096, whose list of modules at 8192 has an
-- initrd from 0x180000 to 0x190000.
use experimental_kernel.Common.{
  ℕ, ◌<◌, ◌+◌, ◌*◌, ◌≡◌, refl, true, false, none, some, arith, ◌==◌, if◌then◌else◌,
}
use experimental_kernel.Array.{zeroed}
use experimental_kernel.Memory.{Mem, read32}
use experimental_kernel.Heap.{ok}
use experimental_kernel.Kmalloc.{PageDirectory, zero_page}
use experimental_kernel.Clone.{Machine}
use experimental_kernel.Setup.{System, map_kernel}
use experimental_kernel.Setup.Walk.{translate}
use experimental_kernel.Boot.{at_initrd}
use experimental_kernel.Boot.Mapped.{initrd_end, directory_place, at_initrd-translate}

abbrev mem : Mem
mem x = if x == 4121 then 0x20 else if x == 8194 then 0x18 else if x == 8198 then 0x19 else 0

abbrev directory : PageDirectory
directory = record { tables_physical = λ i. 0; page_tables = λ i. 0; physical_address = 0 }

abbrev started : System
unfolding zeroed
started = record {
  machine = record {
    kernel = record {
      placement_address = 0x110000;
      heap = record {
        index = zeroed 0 (λ i. 0) 0;
        start_address = 0;
        end_address = 0;
        max_address = 0;
        supervisor = false;
        read_only = false;
        enabled = false;
      };
      mem = mem;
      directory = directory;
      tables = λ t e. zero_page;
    };
    paging = record { frames = λ i. 0; frame_number = 0 };
    physical = λ frame offset. 0;
  };
  cr3 = 0;
  cr0 = 1;
  isr_handlers = λ i. none;
  page_directory = directory;
  enabled = false;
}

started_end : initrd_end 4096 started ≡ 0x190000
unfolding started read32
started_end = refl

at_initrd-translate_example :
    (m : Machine) × (map_kernel 1025 (at_initrd 4096 started).0.machine ≡ ok m)
    × ((a : ℕ) → a < initrd_end 4096 started → translate m.kernel a ≡ some (a, true, true))
    × ((w : ℕ)
        → directory_place (initrd_end 4096 started) < initrd_end 4096 started + 4 * w + 4
        → m.paging.frames w ≡ 0)
unfolding started
at_initrd-translate_example =
    at_initrd-translate 1025 4096 started (omega arith) refl (omega (arith, started_end))
      (rw started_end (ground arith)) (λ w lo hi. refl)
