-- ===== src/Heap.antt =====
-- source/kernel_heap.h and source/kernel_heap.cpp: headers and footers in the byte store, and the
-- index of holes. The index array is kept in `index` (its own cells) and not in the bytes from
-- KernelHeap::START that it occupies. What the functions print is left out.
pub mod Layout
pub mod Write
pub mod Index
pub mod Policy
pub mod Search
pub mod Place
pub mod Allocate
pub mod Lookup
pub mod Release
pub mod Coalesce
pub mod Free
pub mod Freed
pub mod Init
pub mod Stale
pub mod Tests
pub mod Aligned
use experimental_kernel.Common.{
  ℕ, zero, suc, ◌+◌, ◌-◌, ◌*◌, ◌%◌, ◌^◌, ◌==◌, ltb, leb, if◌then◌else◌, ◌+ʷ◌, ◌-ʷ◌, Option, none,
  some, Bool, true, false, not, ◌&&◌,
}
use experimental_kernel.Memory.{Mem, store, read32, write32}
use experimental_kernel.Array
use experimental_kernel.Array.{Array, zeroed, erase, add_ordered, at_ordered}

-- `hang` is the endless loop `for(;;);` that the code ends in.
pub data Run {ℓ} (A : Type ℓ) : Type ℓ where
  ok : A → Run A
  hang : Run A

-- MAGIC, INDEX_SIZE, Page::SIZE, sizeof(Header) and sizeof(Footer).
abbrev pub magic : ℕ
magic = 0x123890AB

abbrev pub index_size : ℕ
index_size = 0x20000

abbrev pub page_size : ℕ
page_size = 0x1000

abbrev pub header_bytes : ℕ
header_bytes = 12

abbrev pub footer_bytes : ℕ
footer_bytes = 8

-- Header: magic_ at 0, isHole_ at 4, size_ at 8. Footer: magic_ at 0, header_ at 4.
abbrev pub get_magic : Mem → ℕ → ℕ
get_magic m a = read32 m a

abbrev pub is_hole : Mem → ℕ → Bool
is_hole m a = not (m (a + 4) == 0)

abbrev pub get_size : Mem → ℕ → ℕ
get_size m a = read32 m (a + 8)

abbrev pub get_header : Mem → ℕ → ℕ
get_header m f = read32 m (f + 4)

unfoldable pub set_header : ℕ → Bool → ℕ → Mem → Mem
set_header a hole size m =
    write32 (store (write32 m a magic) (a + 4) (if hole then 1 else 0)) (a + 8) size

unfoldable pub set_footer : ℕ → ℕ → Mem → Mem
set_footer f header m = write32 (write32 m f magic) (f + 4) header

pub record KernelHeap : Type 0 where
  pub index : Array ℕ
  pub start_address : ℕ
  pub end_address : ℕ
  pub max_address : ℕ
  pub supervisor : Bool
  pub read_only : Bool
  pub enabled : Bool

-- `startAddress_ & 0xFFFFF000 != 0` reads `startAddress_ & 1`, by the precedence of C.
abbrev pub page_up : ℕ → ℕ
page_up start = if start % 2 == 0 then start else (start - start % page_size) +ʷ page_size

unfoldable pub init : ℕ → ℕ → ℕ → Bool → Bool → (ℕ → ℕ) → Mem → Run (KernelHeap × Mem)
init start end max supervisor read_only cells m =
    if not (start % page_size == 0)
    then hang
    else if not (end % page_size == 0)
    then hang
    else (let first = page_up (start +ʷ 4 * index_size) in
        ok (
          record {
            index = add_ordered (zeroed 0 cells index_size) first;
            start_address = first;
            end_address = end;
            max_address = max;
            supervisor = supervisor;
            read_only = read_only;
            enabled = true;
          },
          set_header first true (end -ʷ first) m,
        ))

-- The distance from a hole to the place where the memory behind a header is page aligned.
abbrev pub align_offset : ℕ → ℕ
align_offset location =
    let over = (location +ʷ header_bytes) % page_size in if over == 0 then 0 else page_size - over

-- `int holeSize` is compared with an `unsigned`, so the comparison is unsigned.
unfoldable pub fits : Mem → ℕ → Bool → ℕ → Bool
fits m size page_align header =
    if page_align
    then not (ltb (get_size m header -ʷ align_offset header) size)
    else leb size (get_size m header)

-- The loop of findSmallestHole at index `i`, with `left` rounds left; `none` is the -1.
unfoldable pub find_loop : ℕ → ℕ → Mem → Array ℕ → ℕ → Bool → Option ℕ
find_loop zero i m index size page_align = none
find_loop (suc left) i m index size page_align =
    let header = at_ordered index i in
    let rest = find_loop left (i + 1) m index size page_align in
    if is_hole m header && fits m size page_align header then some i else rest

unfoldable pub find_smallest_hole : KernelHeap → Mem → ℕ → Bool → Option ℕ
find_smallest_hole h m size page_align = find_loop h.index.size 0 m h.index size page_align

-- The hole of `rest` bytes behind an allocated block.
unfoldable pub place_hole : KernelHeap → Mem → ℕ → ℕ → KernelHeap × Mem
place_hole h m hole rest =
    let m1 = set_header hole true rest m in
    let footer = hole +ʷ get_size m1 hole -ʷ footer_bytes in
    let m2 = if ltb footer h.end_address then set_footer footer hole m1 else m1 in
    (record h { index = add_ordered h.index hole }, m2)

-- The end of `allocate`: the block, and the hole behind it if anything is left.
unfoldable pub place_block : KernelHeap → Mem → ℕ → ℕ → ℕ → ℕ → KernelHeap × Mem × ℕ
place_block h m addr hole_size size size_to_alloc =
    let footer = addr +ʷ header_bytes +ʷ size in
    let m1 = set_footer footer addr (set_header addr false size_to_alloc m) in
    if hole_size -ʷ size_to_alloc == 0
    then (h, m1, addr +ʷ header_bytes)
    else (let (h', m2) = place_hole h m1 (footer +ʷ footer_bytes) (hole_size -ʷ size_to_alloc) in
        (h', m2, addr +ʷ header_bytes))

-- `allocate` once a hole is found, at `position` of the index.
unfoldable pub allocate_at : KernelHeap → Mem → ℕ → Bool → ℕ → KernelHeap × Mem × ℕ
allocate_at h m asked page_align position =
    let wanted = asked +ʷ (header_bytes + footer_bytes) in
    let hole_addr = at_ordered h.index position in
    let hole_size = get_size m hole_addr in
    let whole = ltb (hole_size -ʷ wanted) (header_bytes + footer_bytes) in
    let size = if whole then asked +ʷ (hole_size -ʷ wanted) else asked in
    let size_to_alloc = if whole then hole_size else wanted in
    if page_align && not ((hole_addr +ʷ header_bytes) % page_size == 0)
    then (let new_location = hole_addr +ʷ page_size -ʷ hole_addr % page_size -ʷ header_bytes in
        let front = page_size -ʷ hole_addr % page_size -ʷ header_bytes in
        let m1 = set_header hole_addr true front m in
        let m2 = set_footer (new_location -ʷ footer_bytes) hole_addr m1 in
        place_block h m2 new_location (hole_size -ʷ get_size m2 hole_addr) size size_to_alloc)
    else place_block (record h { index = erase h.index position }) m hole_addr hole_size size
        size_to_alloc

unfoldable pub allocate : KernelHeap → Mem → ℕ → Bool → KernelHeap × Mem × ℕ
allocate h m size page_align =
    elim (find_smallest_hole h m (size +ʷ (header_bytes + footer_bytes)) page_align) [
      | none ↦ (h, m, 0)
      | some position ↦ allocate_at h m size page_align position
    ]

-- while (i < index_.size_ && index_[i] != header) i++;
unfoldable pub index_of_loop : ℕ → ℕ → Array ℕ → ℕ → Option ℕ
index_of_loop zero i index header = none
index_of_loop (suc left) i index header =
    let rest = index_of_loop left (i + 1) index header in
    if at_ordered index i == header then some i else rest

unfoldable pub index_of : Array ℕ → ℕ → Option ℕ
index_of index header = index_of_loop index.size 0 index header

unfoldable pub erase_if_there : Array ℕ → ℕ → Array ℕ
erase_if_there index header = elim (index_of index header) [ none ↦ index | some i ↦ erase index i ]

-- "Merge right", and the end of `free`. `add_hole` tells whether the header is to be indexed.
unfoldable pub merge_right : KernelHeap → Mem → ℕ → ℕ → Bool → Run (KernelHeap × Mem)
merge_right h m header footer add_hole =
    let test_header = footer +ʷ footer_bytes in
    let finish = λ (index : Array ℕ) (m' : Mem).
      let index' = erase_if_there index test_header in
      ok (record h { index = if add_hole then add_ordered index' header else index' }, m') in
    if get_magic m test_header == magic && is_hole m test_header
    then (let m' = write32 m (header + 8) (get_size m header +ʷ get_size m test_header) in
        elim (index_of h.index test_header) [ none ↦ hang | some i ↦ finish (erase h.index i) m' ])
    else finish h.index m

-- `free` behind its checks: the block becomes a hole, "Merge left", and the rest.
unfoldable pub release : KernelHeap → Mem → ℕ → ℕ → Run (KernelHeap × Mem)
release h m header footer =
    let m1 = store m (header + 4) 1 in
    let test_footer = header -ʷ footer_bytes in
    let left = get_header m1 test_footer in
    if get_magic m1 test_footer == magic && is_hole m1 left
    then (let cache_size = get_size m1 header in
        let m2 = write32 m1 (footer + 4) left in
        merge_right h (write32 m2 (left + 8) (get_size m2 left +ʷ cache_size)) left footer false)
    else merge_right h m1 header footer true

unfoldable pub free : KernelHeap → Mem → ℕ → Run (KernelHeap × Mem)
free h m ptr =
    if ptr == 0
    then ok (h, m)
    else (let header = ptr -ʷ header_bytes in
        let footer = header +ʷ get_size m header -ʷ footer_bytes in
        if not (get_magic m header == magic)
        then hang
        else if not (get_magic m footer == magic)
        then hang
        else release h m header footer)
