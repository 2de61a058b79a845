-- ===== src/Boot/Mapped.antt =====
-- The kernel and the initrd stay where they are when paging is switched on.
use mathlib.Core.Path.{subst}
use experimental_kernel.Common.{
  ℕ, ◌+◌, ◌*◌, ◌/◌, ◌%◌, ◌<◌, ◌≤◌, ◌≡◌, refl, ap, arith, true, false, some, if◌then◌else◌, ◌+ʷ◌,
}
use experimental_kernel.Memory.{read32}
use experimental_kernel.Heap.{ok, page_size}
use experimental_kernel.Kmalloc.{Kernel, zero_page, round_up}
use experimental_kernel.Clone.{Machine}
use experimental_kernel.Setup.{System, map_kernel, bitmap_bytes, initial_size}
use experimental_kernel.Setup.Pages.{has_table, page_at}
use experimental_kernel.Setup.Grant.{Mapped}
use experimental_kernel.Setup.Whole.{KernelMap, map_kernel-KernelMap}
use experimental_kernel.Setup.Walk.{translate, Walks, Walks-translate}
use experimental_kernel.Setup.Bitmap.{word_count}
use experimental_kernel.Setup.Rounds.{Holds, map_kernel-more}
use experimental_kernel.Setup.Sound.{Sound, map_kernel-Sound}
use experimental_kernel.Boot.{at_initrd}

-- The address behind the initrd, as the multiboot header says.
abbrev pub initrd_end : ℕ → System → ℕ
initrd_end header s = let mem = s.machine.kernel.mem in read32 mem (read32 mem (header +ʷ 24) +ʷ 4)

-- Where prepare puts the page directory: on the next page boundary behind the bitmap.
abbrev pub directory_place : ℕ → ℕ
directory_place bitmap = round_up true (bitmap + bitmap_bytes)

page_at_start : (k : Kernel) (a : ℕ) → page_at k (4096 * (a / 4096)) ≡ page_at k a
page_at_start k a =
    let number : 4096 * (a / 4096) / 4096 ≡ a / 4096 = omega arith in
    ap
      (λ n.
        if has_table k (n / 1024)
        then k.tables (k.directory.page_tables (n / 1024)) (n % 1024)
        else zero_page)
      number

low_page-translate :
    (header : ℕ) (s : System) (m : Machine)
    → Walks m.kernel
    → KernelMap (at_initrd header s).0.machine m
    → (a : ℕ) → a < initrd_end header s
    → translate m.kernel a ≡ some (a, true, true)
unfolding at_initrd
low_page-translate header s m walks k a lt = Walks-translate m.kernel a (a / 4096) walks refl (
    subst (Mapped (a / 4096)) (page_at_start m.kernel a)
      (k.low (a / 4096) (omega (arith, k.kept, lt))))

frames_kept :
    (start : ℕ) (frames : ℕ → ℕ) (n : ℕ) (m : Machine)
    → n ≤ word_count * 32
    → start + 4 * word_count ≤ directory_place start
    → Sound frames n m
    → (w : ℕ) → directory_place start < start + 4 * w + 4
    → m.paging.frames w ≡ frames w
frames_kept start frames n m le apart s w behind =
    (s.given le).kept w (omega (arith, apart, behind))

-- The page tables that `initialise_paging` makes in `start_kernel`, where the heap is not enabled, the
-- initrd ends 64 KB or more below 4 MB, and between the bitmap, which stands behind the initrd, and the
-- page directory on the next page boundary there is room for the bits of the frames behind the memory, in
-- words that are clear: by the words of the directory that the processor walks, every address up to the
-- end of the initrd, the kernel's own code included, leads to the same byte of main memory, which may be
-- written and used in user mode. No bit is set in a word that reaches into the page directory.
pub at_initrd-translate :
    (fuel header : ℕ) (s : System)
    → 1024 < fuel
    → s.machine.kernel.heap.enabled ≡ false
    → initrd_end header s + 65536 < 0x400000
    → initrd_end header s + 4 * word_count ≤ directory_place (initrd_end header s)
    → ((w : ℕ) → bitmap_bytes / 4 ≤ w → w < word_count → s.machine.paging.frames w ≡ 0)
    → (m : Machine) × (map_kernel fuel (at_initrd header s).0.machine ≡ ok m)
      × ((a : ℕ) → a < initrd_end header s → translate m.kernel a ≡ some (a, true, true))
      × ((w : ℕ)
          → directory_place (initrd_end header s) < initrd_end header s + 4 * w + 4
          → m.paging.frames w ≡ s.machine.paging.frames w)
unfolding at_initrd
at_initrd-translate fuel header s more early room apart clear =
    let m0 = (at_initrd header s).0.machine in
    let (m, done, k) = map_kernel-KernelMap 1025 m0 (omega arith) early room in
    let sound : Sound s.machine.paging.frames (1025 + initial_size / page_size) m =
      subst (Holds (Sound s.machine.paging.frames (1025 + initial_size / page_size))) done
        (map_kernel-Sound 1025 m0 early (omega (arith, room)) clear) in
    (
      m,
      map_kernel-more 1025 fuel m0 m (omega (arith, more)) done,
      low_page-translate header s m sound.walks k,
      frames_kept (initrd_end header s) s.machine.paging.frames (1025 + initial_size / page_size) m
          (omega arith) apart sound,
    )
