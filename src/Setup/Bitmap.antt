-- ===== src/Setup/Bitmap.antt =====
-- Which words of the bitmap, and of what stands behind it, are written while frames are given.
use experimental_kernel.Common.{
  ℕ, ◌+◌, ◌*◌, ◌/◌, ◌≤◌, ◌<◌, ◌≡◌, ◌∙◌, refl, sym, ap, inl, inr, true, false, Option, none, some,
  arith, ltb, ◌==◌, ltb→lt, ltb→le, ne→==, Bool-cases,
}
use mathlib.Core.Path.{subst}
use experimental_kernel.Paging.{Page, Paging, alloc_frame, get_free_frame, mark_frame}
use experimental_kernel.Paging.Search.{is_busy, FirstFree, get_free_frame-FirstFree}
use experimental_kernel.Paging.Alloc.{is_busy-mark_frame}
use experimental_kernel.Clone.Rounds.{alloc_frame_number}
use experimental_kernel.Setup.Grant.{frame_count}

-- The words in which the frames for the low 4 MB and the heap have their bits, and one more.
abbrev pub word_count : ℕ
word_count = 289

-- At most `n` frames have been given: they are the first ones, and no word behind theirs is written.
pub record GivenTo (frames : ℕ → ℕ) (n : ℕ) (p : Paging) : Type 0 where
  pub number : p.frame_number ≡ frame_count
  pub last : ℕ
  pub few : last ≤ n
  pub busy : (f : ℕ) → f < word_count * 32 → is_busy p.frames f ≡ ltb f last
  pub kept : (w : ℕ) → word_count ≤ w → p.frames w ≡ frames w

pub GivenTo-more :
    (frames : ℕ → ℕ) (n : ℕ) (p : Paging) → GivenTo frames n p → GivenTo frames (n + 1) p
GivenTo-more frames n p g = record {
  number = g.number;
  last = g.last;
  few = omega (arith, g.few);
  busy = g.busy;
  kept = g.kept;
}

alloc_frame_held :
    (p : Paging) (page : Page) → (page.frame == 0) ≡ false → (alloc_frame p page false true).0 ≡ p
unfolding alloc_frame
alloc_frame_held p page held = rw (alloc_frame, held) refl

alloc_frame_frames :
    (p : Paging) (page : Page) (n : ℕ)
    → (page.frame == 0) ≡ true
    → get_free_frame p ≡ some n
    → (alloc_frame p page false true).0.frames ≡ mark_frame p.frames n
unfolding alloc_frame
alloc_frame_frames p page n empty found = rw (alloc_frame, empty, found) refl

-- The search finds the frame behind those that are given.
free_frame_last :
    (p : Paging) (last : ℕ) (o : Option ℕ)
    → p.frame_number ≡ frame_count
    → last < word_count * 32
    → ((f : ℕ) → f < word_count * 32 → is_busy p.frames f ≡ ltb f last)
    → FirstFree p.frames 0 (p.frame_number * 32) o
    → o ≡ some last
free_frame_last p last none number lt busy all =
    absurd (ground (arith, busy last lt, all last (omega arith) (omega (arith, number, lt))))
free_frame_last p last (some r) number lt busy (_, _, free, first) =
    elim (Bool-cases (ltb last r)) [
      | inl before ↦
          absurd (ground (arith, busy last lt, first last (omega arith) (ltb→lt _ _ before)))
      | inr after ↦ elim (Bool-cases (ltb r last)) [
        | inl below ↦
            absurd (ground (arith, free, below, busy r (omega (arith, ltb→lt _ _ below, lt))))
        | inr above ↦ ap some (omega (arith, ltb→le _ _ after, ltb→le _ _ above))
      ]
    ]

mark_frame_other :
    (frames : ℕ → ℕ) (n w : ℕ)
    → n < word_count * 32
    → word_count ≤ w
    → mark_frame frames n w ≡ frames w
unfolding mark_frame
mark_frame_other frames n w lt behind =
    let other : (w == n / 32) ≡ false = ne→== _ _ (omega (arith, lt, behind)) in
    rw (mark_frame, other) refl

-- One more frame.
pub alloc_frame-GivenTo :
    (frames : ℕ → ℕ) (n : ℕ) (p : Paging) (page : Page)
    → n < word_count * 32
    → GivenTo frames n p
    → GivenTo frames (n + 1) (alloc_frame p page false true).0
alloc_frame-GivenTo frames n p page lt g = elim (Bool-cases (page.frame == 0)) [
  | inr held ↦
      subst (GivenTo frames (n + 1)) (sym (alloc_frame_held p page held))
        (GivenTo-more frames n p g)
  | inl empty ↦
      let inside : g.last < word_count * 32 = omega (arith, g.few, lt) in
      let found : get_free_frame p ≡ some g.last =
        free_frame_last p g.last (get_free_frame p) g.number inside g.busy
          (get_free_frame-FirstFree p) in
      let marked = alloc_frame_frames p page g.last empty found in
      record {
        number = alloc_frame_number p page false true ∙ g.number;
        last = g.last + 1;
        few = omega (arith, g.few);
        busy = λ f lt'.
            ap (λ t. is_busy t f) marked
            ∙ is_busy-mark_frame p.frames g.last f
            ∙ ground (arith, g.busy f lt');
        kept = λ w behind.
            ap (λ t. t w) marked
            ∙ mark_frame_other p.frames g.last w inside behind
            ∙ g.kept w behind;
      }
]
