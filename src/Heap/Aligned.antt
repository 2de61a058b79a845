-- ===== src/Heap/Aligned.antt =====
-- Page-aligned allocation: what it gives, and what its search lets through.
use experimental_kernel.Common.{
  ℕ, ◌-◌, ◌%◌, ◌<◌, ◌≤◌, ◌^◌, ◌≡◌, inl, inr, arith, true, ◌==◌, ◌+ʷ◌, Bool-cases, Option-cases,
}
use experimental_kernel.Memory.{Mem}
use experimental_kernel.Array.{at_ordered}
use experimental_kernel.Heap.{
  KernelHeap, get_size, align_offset, fits, place_block, allocate_at, allocate, find_smallest_hole,
  page_size, header_bytes,
}

place_block-pointer :
    (h : KernelHeap) (m : Mem) (addr hole_size size size_to_alloc : ℕ)
    → (place_block h m addr hole_size size size_to_alloc).2 ≡ addr +ʷ header_bytes
unfolding place_block
place_block-pointer h m addr hole_size size size_to_alloc = ground arith

allocate_at_aligned :
    (h : KernelHeap) (m : Mem) (asked position : ℕ)
    → at_ordered h.index position < 2 ^ 32
    → (allocate_at h m asked true position).2 % page_size ≡ 0
unfolding allocate_at
allocate_at_aligned h m asked position word =
    let hole_addr = at_ordered h.index position in
    elim (Bool-cases ((hole_addr +ʷ header_bytes) % page_size == 0)) [
      | inl aligned ↦ rw (aligned, place_block-pointer) (ground arith)
      | inr shifted ↦ rw (shifted, place_block-pointer) (omega (arith, word))
    ]

-- With page alignment asked for, `allocate` gives the null pointer or a page-aligned address: what
-- the heap holds does not matter, as long as the index holds 32-bit addresses.
pub allocate_aligned :
    (h : KernelHeap) (m : Mem) (size : ℕ)
    → ((i : ℕ) → at_ordered h.index i < 2 ^ 32)
    → (allocate h m size true).2 % page_size ≡ 0
unfolding allocate
allocate_aligned h m size words = elim (Option-cases (find_smallest_hole h m (size +ʷ 20) true)) [
  | inl nothing ↦ rw (allocate, nothing)
  | inr (position, e) ↦ rw (allocate, e) (allocate_at_aligned h m size position (words position))
]

-- The test of findSmallestHole takes a hole that ends before the aligned place, whatever is asked
-- for below 2 ^ 32 - 4096: the difference of the sizes wraps.
pub fits_small_hole :
    (m : Mem) (size location : ℕ)
    → get_size m location < align_offset location
    → size ≤ 2 ^ 32 - page_size
    → fits m size true location ≡ true
unfolding fits
fits_small_hole m size location small asked = ground arith
