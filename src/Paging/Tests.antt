-- ===== src/Paging/Tests.antt =====
-- A bitmap whose first word and two more bits are taken, and the theorems at it.
use experimental_kernel.Common.{
  ℕ, ◌==◌, ◌<◌, ◌≤◌, ◌≡◌, ◌≢◌, refl, arith, if◌then◌else◌, some, true, false, ◌/◌, ◌%◌, ◌*◌, Option,
}
use experimental_kernel.Paging.{
  Page, Paging, get_free_frame, find_frame, find_bit, alloc_frame, set_bit, test_bit, clear_bit,
}
use experimental_kernel.Paging.Search.{is_busy, full_word, FirstFree}
use experimental_kernel.Paging.Alloc.{Gives, alloc_frame-Gives, get_free_frame_beyond}
use experimental_kernel.Paging.Runs.{Frames, given_once, here}

abbrev bitmap : Paging
bitmap = record {
  frames = λ i. if i == 0 then 0xFFFFFFFF else if i == 1 then 5 else 0;
  frame_number = 64;
}

abbrev blank : Page
blank = record { present = 0; rw = 0; user = 0; accessed = 1; dirty = 0; unused = 3; frame = 0 }

found : get_free_frame bitmap ≡ some 33
unfolding get_free_frame find_frame find_bit
found = refl

bits : (set_bit 5 1 ≡ 7) × (clear_bit 7 1 ≡ 5) × (test_bit 5 2 ≡ true) × (test_bit 5 1 ≡ false)
unfolding set_bit clear_bit test_bit
bits = (refl, refl, refl, refl)

alloc_frame-Gives_example :
    (o : Option ℕ) × FirstFree bitmap.frames 0 (64 * 32) o
    × Gives bitmap blank false true (alloc_frame bitmap blank false true) o
alloc_frame-Gives_example = alloc_frame-Gives bitmap blank false true refl

-- 32 frames, all busy: the search goes on in the words behind the bitmap.
abbrev full : Paging
full = record bitmap { frame_number = 32 }

full_busy : (k : ℕ) → k < 32 → is_busy full.frames k ≡ true
full_busy k h = let word : k / 32 ≡ 0 = omega arith in rw (word, full_word (k % 32) (omega arith))

get_free_frame_beyond_example : (r : ℕ) × (get_free_frame full ≡ some r) × (full.frame_number ≤ r)
get_free_frame_beyond_example = get_free_frame_beyond full 40 full_busy (omega arith) refl

abbrev start : Frames
start = record { paging = bitmap; pages = λ i. blank }

-- Right after the frame 33 is given, it is not found again.
given_once_example :
    get_free_frame (alloc_frame start.paging (start.pages 7) false true).0 ≢ some 33
given_once_example = given_once start _ 7 33 false true refl found here
