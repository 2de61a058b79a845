-- ===== src/Heap/Tests.antt =====
-- A small heap from 4096 to 4396: its operations run, and the theorems at it.
use experimental_kernel.Common.{
  ℕ, ◌+◌, ◌-◌, ◌*◌, ◌%◌, ◌<◌, ◌^◌, ◌≡◌, List, [], ◌∷◌, arith, refl, true, false, if◌then◌else◌,
  ◌==◌,
}
use experimental_kernel.Memory.{Mem, store, read32, write32}
use experimental_kernel.Array.{
  Array, add_ordered, insert_pos, shift_loop, erase, erase_loop, at_ordered,
}
use experimental_kernel.Array.View.{to_list, view}
use experimental_kernel.Heap.{
  KernelHeap, ok, init, allocate, allocate_at, find_smallest_hole, find_loop, fits, place_block,
  place_hole, set_header, set_footer, free, release, merge_right, index_of, index_of_loop,
  erase_if_there, index_size, page_size,
}
use experimental_kernel.Heap.Layout.{Seg, free_seg, used_seg, IsHeap, IsHeader, IsFooter, total}
use experimental_kernel.Heap.Policy.{first_fit}
use experimental_kernel.Heap.Allocate.{Allocates, allocate-first_fit}
use experimental_kernel.Heap.Freed.{IsReleased, left_room, free-freed}
use experimental_kernel.Heap.Coalesce.{freed}
use experimental_kernel.Heap.Release.{IsPending}
use experimental_kernel.Heap.Init.{init-IsHeap}
use experimental_kernel.Heap.Aligned.{allocate_aligned, fits_small_hole}
use experimental_kernel.Heap.Stale.{merge_right_stale}

-- A hole of 40 bytes, a block of 60, a block of 80 and a hole of 120.
abbrev segs : List Seg
segs = free_seg 40 ∷ used_seg 60 ∷ used_seg 80 ∷ free_seg 120 ∷ []

abbrev mem : Mem
unfolding set_header set_footer write32 store
mem = set_footer 4388 4276 (
    set_header 4276 true 120 (
      set_footer 4268 4196 (
        set_header 4196 false 80 (
          set_footer 4188 4136
            (set_header 4136 false 60 (set_footer 4128 4096 (set_header 4096 true 40 (λ x. 0))))))))

abbrev index : Array ℕ
index = record { cells = λ i. if i == 0 then 4096 else 4276; size = 2; max_size = index_size }

abbrev heap : KernelHeap
heap = record {
  index = index;
  start_address = 4096;
  end_address = 4396;
  max_address = 4396;
  supervisor = false;
  read_only = false;
  enabled = true;
}

heap-IsHeap : IsHeap heap mem segs
unfolding read32 mem to_list view
heap-IsHeap = record {
  layout = (
    record { marked = refl; flag = refl; sized = refl; room = omega arith },
    record { marked = refl; back = refl },
    (
      record { marked = refl; flag = refl; sized = refl; room = omega arith },
      record { marked = refl; back = refl },
      (
        record { marked = refl; flag = refl; sized = refl; room = omega arith },
        record { marked = refl; back = refl },
        (record { marked = refl; flag = refl; sized = refl; room = omega arith }, λ used. cc, refl),
      ),
    ),
  );
  indexed = refl;
  ends = omega arith;
}

-- 60 bytes come from the last hole, since the first is too small.
allocate_runs :
    ((allocate heap mem 60 false).2 ≡ 4288)
    × (to_list (allocate heap mem 60 false).0.index ≡ 4096 ∷ 4356 ∷ [])
unfolding allocate allocate_at find_smallest_hole find_loop fits place_block place_hole at_ordered
    erase erase_loop add_ordered insert_pos shift_loop to_list view read32 mem
allocate_runs = (refl, refl)

-- The middle block joins the hole on its left.
free_runs : (h : KernelHeap) × (g : Mem) × (free heap mem 4148 ≡ ok (h, g)) × (read32 g 4104 ≡ 100)
unfolding free release merge_right erase_if_there index_of index_of_loop at_ordered read32 mem
    write32 store
free_runs = (_, _, refl, refl)

allocate-first_fit_example : Allocates heap mem (allocate heap mem 60 false) (first_fit 80 segs)
allocate-first_fit_example = allocate-first_fit heap mem segs 60 heap-IsHeap (omega arith)

free-freed_example :
    IsReleased heap mem
      (freed (free_seg 40 ∷ []) 60 (used_seg 80 ∷ free_seg 120 ∷ []))
      (heap.start_address + total (free_seg 40 ∷ []) - left_room (free_seg 40 ∷ []))
      (heap.start_address + total (free_seg 40 ∷ []) + 60)
      (free heap mem (heap.start_address + total (free_seg 40 ∷ []) + 12))
free-freed_example =
    free-freed heap mem (free_seg 40 ∷ []) (used_seg 80 ∷ free_seg 120 ∷ []) 60 heap-IsHeap tt refl

-- The heap as the kernel makes it.
init-IsHeap_example :
    (h : KernelHeap) × (g : Mem) × (init 0xC0000000 0xC2000000 0xCFFFF000 false false
        (λ i. 7)
        (λ x. 0)
      ≡ ok (h, g))
    × IsHeap h g (free_seg (0xC2000000 - (0xC0000000 + 4 * index_size)) ∷ [])
    × (h.enabled ≡ true)
    × (h.start_address ≡ 0xC0000000 + 4 * index_size)
    × (h.end_address ≡ 0xC2000000)
init-IsHeap_example =
    init-IsHeap 0xC0000000 0xC2000000 0xCFFFF000 false false (λ i. 7) (λ x. 0) refl refl
      (omega arith) (omega arith)

allocate_aligned_example : (allocate heap mem 60 true).2 % page_size ≡ 0
allocate_aligned_example = allocate_aligned heap mem 60 words
  where
    words : (i : ℕ) → at_ordered heap.index i < 2 ^ 32
    words i = unfold at_ordered in ground arith

fits_small_hole_example : fits mem 1000 true 4096 ≡ true
unfolding read32 mem
fits_small_hole_example = fits_small_hole mem 1000 4096 (omega arith) (omega arith)

-- A hole of 60 bytes at 4096 that is about to take in the hole of 80 on its right.
abbrev mem_right : Mem
unfolding set_header set_footer write32 store
mem_right = set_footer 4348 4236 (
    set_header 4236 false 120 (
      set_footer 4228 4156
        (set_header 4156 true 80 (set_footer 4148 4096 (set_header 4096 true 60 (λ x. 0))))))

abbrev heap_right : KernelHeap
heap_right = record heap {
  index = record { cells = λ i. 4156; size = 1; max_size = index_size };
  end_address = 4356;
}

right-IsPending : IsPending heap_right mem_right [] (free_seg 80 ∷ used_seg 120 ∷ []) 4096 60 true
unfolding read32 mem_right to_list view
right-IsPending = record {
  front = refl;
  header = record { marked = refl; flag = refl; sized = refl; room = omega arith };
  footer = record { marked = refl; back = refl };
  after = (
    record { marked = refl; flag = refl; sized = refl; room = omega arith },
    record { marked = refl; back = refl },
    (
      record { marked = refl; flag = refl; sized = refl; room = omega arith },
      λ used. record { marked = refl; back = refl },
      refl,
    ),
  );
  indexed = refl;
  small = omega arith;
  spot = refl;
  inside = omega arith;
  ends = omega arith;
}

merge_right_stale_example :
    (h' : KernelHeap) × (g : Mem) × (merge_right heap_right mem_right 4096 (4096 + 60 - 8) true
      ≡ ok (h', g))
    × (read32 g (4096 + 8) ≡ 60 + 80)
    × (read32 g (4096 + (60 + 80 - 8) + 4) ≡ 4096 + 60)
    × IsHeader g (4096 + 60) (free_seg 80)
    × ¬ (IsFooter g 4096 (free_seg (60 + 80)))
merge_right_stale_example =
    merge_right_stale heap_right mem_right [] [] (used_seg 120) 4096 60 80 true right-IsPending
