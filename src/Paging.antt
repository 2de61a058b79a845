-- ===== src/Paging.antt =====
-- source/paging_management.cpp and source/page.h: the frame bitmap, pages, and the functions that
-- give frames to pages.
pub mod Search
pub mod Alloc
pub mod Runs
pub mod Tests
use experimental_kernel.Common.{
  ℕ, zero, suc, ◌+◌, ◌*◌, ◌/◌, ◌%◌, ◌^◌, ◌-◌, ◌==◌, if◌then◌else◌, Option, none, some, Bool, true,
  false, not, bit_and, bit_or, u32,
}

-- The bit fields of a page table entry.
pub record Page : Type 0 where
  pub present : ℕ
  pub rw : ℕ
  pub user : ℕ
  pub accessed : ℕ
  pub dirty : ℕ
  pub unused : ℕ
  pub frame : ℕ

-- `frames_` and `frameNumber_`. The words of the bitmap are a function of the index, since the
-- search reads past the frameNumber_ / 32 words that belong to it.
pub record Paging : Type 0 where
  pub frames : ℕ → ℕ
  pub frame_number : ℕ

-- Bitset::set, clear and test, on the word `bitset_`.
unfoldable pub set_bit : ℕ → ℕ → ℕ
set_bit w offset = bit_or w (2 ^ offset)

unfoldable pub clear_bit : ℕ → ℕ → ℕ
clear_bit w offset = bit_and w (2 ^ 32 - 1 - 2 ^ offset)

unfoldable pub test_bit : ℕ → ℕ → Bool
test_bit w offset = not (bit_and w (2 ^ offset) == 0)

-- The loop over the 32 bits of a word, at bit `j`, with `left` rounds left.
unfoldable pub find_bit : ℕ → ℕ → ℕ → Option ℕ
find_bit zero j w = none
find_bit (suc left) j w =
    let rest = find_bit left (j + 1) w in if bit_and w (2 ^ j) == 0 then some j else rest

-- The loop over the words, at word `i`; `none` is the result -1.
unfoldable pub find_frame : ℕ → ℕ → (ℕ → ℕ) → Option ℕ
find_frame zero i frames = none
find_frame (suc left) i frames =
    let rest = find_frame left (i + 1) frames in
    if frames i == 0xFFFFFFFF
    then rest
    else elim (find_bit 32 0 (frames i)) [ none ↦ rest | some j ↦ some (i * 32 + j) ]

-- `for (int i = 0; i < frameNumber_; i++)`: as many words as there are frames.
unfoldable pub get_free_frame : Paging → Option ℕ
get_free_frame p = find_frame p.frame_number 0 p.frames

-- frames_[i].set(offset), with index = i * 32 + offset.
unfoldable pub mark_frame : (ℕ → ℕ) → ℕ → ℕ → ℕ
mark_frame frames index i = if i == index / 32 then set_bit (frames i) (index % 32) else frames i

-- The frame field has 20 bits.
unfoldable pub alloc_frame : Paging → Page → Bool → Bool → Paging × Page × Bool
alloc_frame p page is_kernel is_writeable =
    if page.frame == 0
    then elim (get_free_frame p) [
      | none ↦ (p, page, false)
      | some index ↦ (
        record p { frames = mark_frame p.frames index },
        record page {
          present = 1;
          rw = if is_writeable then 1 else 0;
          user = if is_kernel then 0 else 1;
          frame = index % 2 ^ 20;
        },
        true,
      )
    ]
    else (p, page, true)

-- The bitmap is left as it is.
unfoldable pub free_frame : Paging → Page → Paging × Page
free_frame p page = if page.frame == 0 then (p, page) else (p, record page { frame = 0 })
