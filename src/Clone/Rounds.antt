-- ===== src/Clone/Rounds.antt =====
-- One round of the loop of clonePageTable.
use experimental_kernel.Common.{
  ℕ, ◌+◌, ◌*◌, ◌^◌, ◌≤◌, ◌<◌, ◌≡◌, refl, sym, ap, ◌∙◌, ◌≢◌, ◌⊎◌, inl, inr, Bool, true, false, ◌||◌,
  Option, none, some, arith, ◌==◌, ==→eq, ==→ne, eq→==, ne→==, Bool-cases, Option-cases,
}
use mathlib.Core.Path.{subst}
use mathlib.Core.Bool.{true≢false}
use experimental_kernel.Paging.{Page, Paging, alloc_frame, get_free_frame}
use experimental_kernel.Paging.Search.{is_busy, FirstFree, get_free_frame-FirstFree}
use experimental_kernel.Paging.Alloc.{Gives, alloc_frame_found}
use experimental_kernel.Kmalloc.{put_at}
use experimental_kernel.Clone.{Copy, clone_page}

-- All frames that the search visits are busy.
abbrev pub Full : Copy → Type 0
Full s = (f : ℕ) → f < s.paging.frame_number * 32 → is_busy s.paging.frames f ≡ true

abbrev pub SameFields : Page → Page → Type 0
SameFields src page =
    (page.present ≡ src.present)
    × (page.rw ≡ src.rw)
    × (page.user ≡ src.user)
    × (page.accessed ≡ src.accessed)
    × (page.dirty ≡ src.dirty)
    × (page.unused ≡ src.unused)

-- The frame `n` was free, is busy now, and holds what the source's frame held.
pub record Fresh (src : Page) (n : ℕ) (s s' : Copy) : Type 0 where
  pub was_free : is_busy s.paging.frames n ≡ false
  pub busy : is_busy s'.paging.frames n ≡ true
  pub content : s'.physical n ≡ s.physical src.frame

-- An entry without a frame is left alone; another has the fields of its source, and a fresh frame
-- unless the frames ran out.
abbrev pub Entry : Page → ℕ → Copy → Copy → Type 0
Entry src k s s' =
    ((src.frame ≡ 0) × (s'.pages k ≡ s.pages k))
    ⊎ ((src.frame ≢ 0)
        × SameFields src (s'.pages k)
        × (Fresh src (s'.pages k).frame s s' ⊎ Full s'))

-- What the loop does to the entries from `i` up to `i + n`.
pub record Clones (src : ℕ → Page) (i n : ℕ) (s s' : Copy) : Type 0 where
  pub frame_number : s'.paging.frame_number ≡ s.paging.frame_number
  pub busy : (f : ℕ) → is_busy s.paging.frames f ≡ true → is_busy s'.paging.frames f ≡ true
  pub contents : (f : ℕ) → f ≢ 0 → is_busy s.paging.frames f ≡ true → s'.physical f ≡ s.physical f
  pub entries : (k : ℕ) → i ≤ k → k < i + n → Entry (src k) k s s'
  pub others : (k : ℕ) → (k < i) ⊎ (i + n ≤ k) → s'.pages k ≡ s.pages k
  pub distinct :
      (j k : ℕ)
      → i ≤ j
      → j < k
      → k < i + n
      → (src j).frame ≢ 0
      → (src k).frame ≢ 0
      → ((s'.pages j).frame ≢ (s'.pages k).frame) ⊎ Full s'

pub alloc_frame_number :
    (p : Paging) (page : Page) (is_kernel is_writeable : Bool)
    → (alloc_frame p page is_kernel is_writeable).0.frame_number ≡ p.frame_number
unfolding alloc_frame
alloc_frame_number p page is_kernel is_writeable = ground (arith, Option-cases (get_free_frame p))

-- One round.
pub record Round (src : Page) (i : ℕ) (s s' : Copy) : Type 0 where
  pub frame_number : s'.paging.frame_number ≡ s.paging.frame_number
  pub busy : (f : ℕ) → is_busy s.paging.frames f ≡ true → is_busy s'.paging.frames f ≡ true
  pub contents : (f : ℕ) → f ≢ 0 → is_busy s.paging.frames f ≡ true → s'.physical f ≡ s.physical f
  pub entry : Entry src i s s'
  pub others : (k : ℕ) → k ≢ i → s'.pages k ≡ s.pages k

-- The state with entry `i` filled.
abbrev copied : Page → ℕ → Copy → Paging → ℕ → Copy
copied src i s p frame = record {
  paging = p;
  pages = put_at s.pages i (record src { frame = frame });
  physical = put_at s.physical frame (s.physical src.frame);
}

clone_page-copied :
    (src : Page) (i : ℕ) (s : Copy) (r : Paging × Page × Bool)
    → src.frame ≢ 0
    → alloc_frame s.paging (s.pages i) false true ≡ r
    → clone_page src i s ≡ copied src i s r.0 r.1.frame
unfolding clone_page
clone_page-copied src i s r used e =
    let test : (src.frame == 0) ≡ false = ne→== _ _ used in rw (clone_page, test, e) refl

copied_fields :
    (src : Page) (i : ℕ) (s : Copy) (p : Paging) (frame : ℕ)
    → (copied src i s p frame).pages i ≡ record src { frame = frame }
copied_fields src i s p frame = let self : (i == i) ≡ true = eq→== _ _ refl in rw self refl

copied_others :
    (src : Page) (i : ℕ) (s : Copy) (p : Paging) (frame k : ℕ)
    → k ≢ i
    → (copied src i s p frame).pages k ≡ s.pages k
copied_others src i s p frame k ne = (let other : (k == i) ≡ false = ne→== _ _ ne in rw other refl)

copied_contents :
    (src : Page) (i : ℕ) (s : Copy) (p : Paging) (frame f : ℕ)
    → f ≢ frame
    → (copied src i s p frame).physical f ≡ s.physical f
copied_contents src i s p frame f ne =
    let other : (f == frame) ≡ false = ne→== _ _ ne in rw other refl

SameFields-copied :
    (src : Page) (i : ℕ) (s : Copy) (p : Paging) (frame : ℕ)
    → SameFields src ((copied src i s p frame).pages i)
SameFields-copied src i s p frame =
    subst (SameFields src) (sym (copied_fields src i s p frame))
      (refl, refl, refl, refl, refl, refl)

-- A round that finds the frame `n`.
copied-Round :
    (src : Page) (i n : ℕ) (s : Copy) (p : Paging)
    → src.frame ≢ 0
    → p.frame_number ≡ s.paging.frame_number
    → is_busy s.paging.frames n ≡ false
    → ((k : ℕ) → is_busy p.frames k ≡ (k == n || is_busy s.paging.frames k))
    → Round src i s (copied src i s p n)
copied-Round src i n s p used number free busy = record {
  frame_number = number;
  busy = λ f held. busy f ∙ ground (arith, held);
  contents = λ f _ held.
      copied_contents src i s p n f
        (λ e. true≢false (sym held ∙ ap (is_busy s.paging.frames) e ∙ free));
  entry = inr (
    used,
    SameFields-copied src i s p n,
    inl (
        subst (λ k. Fresh src k s (copied src i s p n))
          (sym (ap Page.frame (copied_fields src i s p n)))
          (record {
            was_free = free;
            busy = busy n ∙ ground arith;
            content = (let self : (n == n) ≡ true = eq→== _ _ refl in rw self refl);
          })),
  );
  others = λ k ne. copied_others src i s p n k ne;
}

-- A round that finds none.
copied-Full :
    (src : Page) (i : ℕ) (s : Copy)
    → src.frame ≢ 0
    → Full s
    → Round src i s (copied src i s s.paging 0)
copied-Full src i s used full = record {
  frame_number = refl;
  busy = λ f held. held;
  contents = λ f ne held. copied_contents src i s s.paging 0 f ne;
  entry = inr (used, SameFields-copied src i s s.paging 0, inr full);
  others = λ k ne. copied_others src i s s.paging 0 k ne;
}

clone_page-skip : (src : Page) (i : ℕ) (s : Copy) → src.frame ≡ 0 → clone_page src i s ≡ s
unfolding clone_page
clone_page-skip src i s unused =
    let test : (src.frame == 0) ≡ true = eq→== _ _ unused in rw (clone_page, test) refl

pub clone_page-Round :
    (src : Page) (i : ℕ) (s : Copy)
    → (s.pages i).frame ≡ 0
    → s.paging.frame_number * 32 ≤ 2 ^ 20
    → Round src i s (clone_page src i s)
clone_page-Round src i s empty small = elim (Bool-cases (src.frame == 0)) [
  | inl unused ↦ subst (Round src i s) (sym (clone_page-skip src i s (==→eq _ _ unused))) (record {
    frame_number = refl;
    busy = λ f held. held;
    contents = λ f _ held. refl;
    entry = inl (==→eq _ _ unused, refl);
    others = λ k ne. refl;
  })
  | inr used ↦
      found (get_free_frame s.paging) (get_free_frame-FirstFree s.paging)
        (alloc_frame_found s.paging (s.pages i) false true empty) (==→ne _ _ used)
]
  where
    found :
        (o : Option ℕ)
        → FirstFree s.paging.frames 0 (s.paging.frame_number * 32) o
        → Gives s.paging (s.pages i) false true (alloc_frame s.paging (s.pages i) false true) o
        → src.frame ≢ 0
        → Round src i s (clone_page src i s)
    found none full same used =
        subst (Round src i s)
          (sym (clone_page-copied src i s _ used same ∙ ap (copied src i s s.paging) empty))
          (copied-Full src i s used (λ f lt. full f (omega arith) lt))
    found (some n) (_, lt, free, _) g used =
        let r = alloc_frame s.paging (s.pages i) false true in
        let frame : r.1.frame ≡ n = g.frame ∙ omega (arith, lt, small) in
        subst (Round src i s)
          (sym (clone_page-copied src i s r used refl ∙ ap (copied src i s r.0) frame))
          (copied-Round src i n s r.0 used (alloc_frame_number s.paging (s.pages i) false true) free
            g.busy)
