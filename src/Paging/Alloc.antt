-- ===== src/Paging/Alloc.antt =====
-- allocFrame and freeFrame: what happens to the bitmap and the page.
use experimental_kernel.Common.{
  ℕ, ◌*◌, ◌/◌, ◌%◌, ◌^◌, ◌==◌, ◌<◌, ◌≤◌, ◌≡◌, ◌⊎◌, inl, inr, refl, arith, if◌then◌else◌, ◌||◌,
  Option, none, some, Bool, true, false, ltb, ltb→lt, ltb→le, Bool-cases, ==→eq, eq→==,
}
use experimental_kernel.Bits.{bit-bit_or_pow}
use experimental_kernel.Paging.{
  Page, Paging, set_bit, mark_frame, get_free_frame, alloc_frame, free_frame,
}
use experimental_kernel.Paging.Search.{is_busy, FirstFree, get_free_frame-FirstFree}

-- Marking a frame makes it busy, and changes no other frame.
pub is_busy-mark_frame :
    (frames : ℕ → ℕ) (n k : ℕ) → is_busy (mark_frame frames n) k ≡ (k == n || is_busy frames k)
unfolding mark_frame set_bit
is_busy-mark_frame frames n k = elim (Bool-cases (k / 32 == n / 32)) [
  | inl word ↦ rw (word, bit-bit_or_pow (k % 32) (n % 32) (frames (k / 32))) (ground arith)
  | inr other ↦ rw other (ground arith)
]

-- A page has got the frame `n`: the first free one, which is busy from then on.
pub record IsGiven (p : Paging) (page : Page) (is_kernel is_writeable : Bool) (n : ℕ)
    (r : Paging × Page × Bool) : Type 0 where
  pub success : r.2 ≡ true
  pub was_free : is_busy p.frames n ≡ false
  pub busy : (k : ℕ) → is_busy r.0.frames k ≡ (k == n || is_busy p.frames k)
  pub frame : r.1.frame ≡ n % 2 ^ 20
  pub flags :
      (r.1.present ≡ 1)
      × (r.1.rw ≡ (if is_writeable then 1 else 0))
      × (r.1.user ≡ (if is_kernel then 0 else 1))
  pub kept : (r.1.accessed ≡ page.accessed) × (r.1.dirty ≡ page.dirty) × (r.1.unused ≡ page.unused)

-- No frame leaves everything as it is and fails.
abbrev pub Gives : Paging → Page → Bool → Bool → Paging × Page × Bool → Option ℕ → Type 0
Gives p page is_kernel is_writeable r none = r ≡ (p, page, false)
Gives p page is_kernel is_writeable r (some n) = IsGiven p page is_kernel is_writeable n r

-- The same by what the search gives.
pub alloc_frame_found :
    (p : Paging) (page : Page) (is_kernel is_writeable : Bool)
    → page.frame ≡ 0
    → Gives p page is_kernel is_writeable
        (alloc_frame p page is_kernel is_writeable)
        (get_free_frame p)
unfolding alloc_frame
alloc_frame_found p page is_kernel is_writeable empty =
    rw (alloc_frame, eq→== _ _ empty) (given (get_free_frame p) (get_free_frame-FirstFree p))
  where
    given :
        (r : Option ℕ)
        → FirstFree p.frames 0 (p.frame_number * 32) r
        → Gives p page is_kernel is_writeable
            (elim r [
              | none ↦ (p, page, false)
              | some index ↦ (
                record p { frames = mark_frame p.frames index },
                record page {
                  present = 1;
                  rw = if is_writeable then 1 else 0;
                  user = if is_kernel then 0 else 1;
                  frame = index % 2 ^ 20;
                },
                true,
              )
            ])
            r
    given none first = refl
    given (some n) first = record {
      success = refl;
      was_free = first.2;
      busy = is_busy-mark_frame p.frames n;
      frame = refl;
      flags = (refl, refl, refl);
      kept = (refl, refl, refl);
    }

-- allocFrame on a page with no frame gives it the lowest frame whose bit is clear, among the
-- 32 * frameNumber_ bits that the search visits, with the flags asked for, and marks that frame and no
-- other. It fails with no change when all of these bits are set.
pub alloc_frame-Gives :
    (p : Paging) (page : Page) (is_kernel is_writeable : Bool)
    → page.frame ≡ 0
    → (o : Option ℕ) × FirstFree p.frames 0 (p.frame_number * 32) o
      × Gives p page is_kernel is_writeable (alloc_frame p page is_kernel is_writeable) o
alloc_frame-Gives p page is_kernel is_writeable empty = (
  get_free_frame p,
  get_free_frame-FirstFree p,
  alloc_frame_found p page is_kernel is_writeable empty,
)

false-true : (b : Bool) → b ≡ true → b ≡ false → ⊥
false-true b h k = cc

-- When every frame of the memory is busy, but a later bit that the search visits is clear, the frame
-- it gives lies past the frameNumber_ frames that there are.
pub get_free_frame_beyond :
    (p : Paging) (n : ℕ)
    → ((k : ℕ) → k < p.frame_number → is_busy p.frames k ≡ true)
    → n < p.frame_number * 32
    → is_busy p.frames n ≡ false
    → (r : ℕ) × (get_free_frame p ≡ some r) × (p.frame_number ≤ r)
get_free_frame_beyond p n full visited clear =
    beyond (get_free_frame p) refl (get_free_frame-FirstFree p)
  where
    beyond :
        (o : Option ℕ)
        → get_free_frame p ≡ o
        → FirstFree p.frames 0 (p.frame_number * 32) o
        → (r : ℕ) × (get_free_frame p ≡ some r) × (p.frame_number ≤ r)
    beyond none e all = absurd (false-true _ (all n (omega arith) visited) clear)
    beyond (some r) e first = (r, e, past (Bool-cases (ltb r p.frame_number)))
      where
        past : (ltb r p.frame_number ≡ true) ⊎ (ltb r p.frame_number ≡ false) → p.frame_number ≤ r
        past (inl below) = absurd (false-true _ (full r (ltb→lt _ _ below)) first.2)
        past (inr h) = ltb→le _ _ h

-- freeFrame leaves the bitmap as it is: the frame that the page gives up stays busy.
pub free_frame_busy :
    (p : Paging) (page : Page) (k : ℕ)
    → (is_busy (free_frame p page).0.frames k ≡ is_busy p.frames k)
      × ((free_frame p page).1.frame ≡ 0)
unfolding free_frame
free_frame_busy p page k = elim (Bool-cases (page.frame == 0)) [
  | inl none_held ↦ rw none_held (refl, ==→eq _ _ none_held)
  | inr held ↦ rw held (refl, refl)
]
