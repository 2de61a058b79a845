-- ===== src/Kmalloc/Bump.antt =====
-- kmalloc before the heap is enabled: a pointer that only moves up.
use experimental_kernel.Common.{
  ℕ, ◌+◌, ◌%◌, ◌^◌, ◌<◌, ◌≤◌, ◌≡◌, refl, arith, Bool, true, false, ◌+ʷ◌,
}
use experimental_kernel.Heap.{Run, ok, page_size}
use experimental_kernel.Kmalloc.{Kernel, kmalloc, kmalloc_early, round_up}

-- What one early allocation promises: the block starts at or behind the old placement address, on a
-- page boundary if that was asked for, and ends where the next one may start; the physical
-- address is the address itself.
record IsBump (k : Kernel) (size : ℕ) (align : Bool) (r : Run (Kernel × ℕ × ℕ)) : Type 0 where
  after : Kernel
  place : ℕ
  returns : r ≡ ok (after, place, place)
  above : k.placement_address ≤ place
  aligned : align ≡ true → place % page_size ≡ 0
  ends : after.placement_address ≡ place + size
  waste : place < k.placement_address + page_size
  same_heap : after.heap ≡ k.heap

-- Before the heap is enabled, and with a page to spare at the end of the address space, kmalloc
-- keeps that promise.
kmalloc-IsBump :
    (k : Kernel) (size : ℕ) (align : Bool)
    → k.heap.enabled ≡ false
    → k.placement_address + page_size + size < 2 ^ 32
    → IsBump k size align (kmalloc k size align true)
unfolding kmalloc kmalloc_early
kmalloc-IsBump k size align early room = record {
  after = record k { placement_address = round_up align k.placement_address + size };
  place = round_up align k.placement_address;
  returns = rw (kmalloc, early, bump_fits) refl;
  above = ground arith;
  aligned = λ asked. ground arith;
  ends = refl;
  waste = ground arith;
  same_heap = refl;
}
  where
    bump_fits :
        round_up align k.placement_address +ʷ size ≡ round_up align k.placement_address + size
    bump_fits = ground arith
