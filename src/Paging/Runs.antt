-- ===== src/Paging/Runs.antt =====
-- Any run of allocFrame and freeFrame over the pages of the kernel.
use experimental_kernel.Common.{
  ℕ, ◌*◌, ◌==◌, ◌≡◌, ◌≢◌, inl, inr, arith, if◌then◌else◌, Option, none, some, Bool, true,
  Bool-cases, ==→eq, ap, ◌∙◌, sym,
}
use mathlib.Core.Path.{subst}
use experimental_kernel.Paging.{Page, Paging, get_free_frame, alloc_frame, free_frame}
use experimental_kernel.Paging.Search.{is_busy, FirstFree, get_free_frame-FirstFree}
use experimental_kernel.Paging.Alloc.{IsGiven, Gives, alloc_frame_found, free_frame_busy}

-- The bitmap and all pages, each by a number.
pub record Frames : Type 0 where
  pub paging : Paging
  pub pages : ℕ → Page

abbrev pub replace : (ℕ → Page) → ℕ → Page → ℕ → Page
replace pages i page = λ j. if j == i then page else pages j

-- One call, on the page with the number `i`.
pub data Step : Frames → Frames → Type 0 where
  allocates :
      (s : Frames) (i : ℕ) (is_kernel is_writeable : Bool)
      → Step s (
          let r = alloc_frame s.paging (s.pages i) is_kernel is_writeable in
          record { paging = r.0; pages = replace s.pages i r.1 })
  frees :
      (s : Frames) (i : ℕ)
      → Step s (
          let r = free_frame s.paging (s.pages i) in
          record { paging = r.0; pages = replace s.pages i r.1 })

pub data Reach (s : Frames) : Frames → Type 0 where
  here : Reach s s
  next : {t u : Frames} → Reach s t → Step t u → Reach s u

alloc_frame_busy :
    (p : Paging) (page : Page) (is_kernel is_writeable : Bool) (k : ℕ)
    → is_busy p.frames k ≡ true
    → is_busy (alloc_frame p page is_kernel is_writeable).0.frames k ≡ true
unfolding alloc_frame
alloc_frame_busy p page is_kernel is_writeable k busy = elim (Bool-cases (page.frame == 0)) [
  | inl empty ↦
      given (get_free_frame p) (alloc_frame_found p page is_kernel is_writeable (==→eq _ _ empty))
  | inr held ↦ rw (alloc_frame, held) busy
]
  where
    given :
        (o : Option ℕ)
        → Gives p page is_kernel is_writeable (alloc_frame p page is_kernel is_writeable) o
        → is_busy (alloc_frame p page is_kernel is_writeable).0.frames k ≡ true
    given none same = ap (λ r. is_busy r.0.frames k) same ∙ busy
    given (some n) g = g.busy k ∙ ground (arith, busy)

Step-busy :
    {s t : Frames} (k : ℕ)
    → Step s t
    → is_busy s.paging.frames k ≡ true
    → is_busy t.paging.frames k ≡ true
Step-busy k (allocates s i a b) busy = alloc_frame_busy s.paging (s.pages i) a b k busy
Step-busy k (frees s i) busy = (free_frame_busy s.paging (s.pages i) k).0 ∙ busy

-- A busy frame stays busy, whatever calls of allocFrame and freeFrame follow.
pub Reach-busy :
    {s t : Frames} (k : ℕ)
    → Reach s t
    → is_busy s.paging.frames k ≡ true
    → is_busy t.paging.frames k ≡ true
Reach-busy k here busy = busy
Reach-busy k (next r st) busy = Step-busy k st (Reach-busy k r busy)

-- A frame that allocFrame gave to a page without one is never found again as free, whatever run of
-- allocFrame and freeFrame follows, the freeing of its own page included.
pub given_once :
    (s t : Frames) (i n : ℕ) (is_kernel is_writeable : Bool)
    → (s.pages i).frame ≡ 0
    → get_free_frame s.paging ≡ some n
    → (let r = alloc_frame s.paging (s.pages i) is_kernel is_writeable in
        Reach (record { paging = r.0; pages = replace s.pages i r.1 }) t)
    → get_free_frame t.paging ≢ some n
given_once s t i n a b empty found run again =
    let given : IsGiven s.paging (s.pages i) a b n (alloc_frame s.paging (s.pages i) a b) =
      subst (Gives s.paging (s.pages i) a b (alloc_frame s.paging (s.pages i) a b)) found
        (alloc_frame_found s.paging (s.pages i) a b empty) in
    let first : FirstFree t.paging.frames 0 (t.paging.frame_number * 32) (some n) =
      subst (FirstFree t.paging.frames 0 (t.paging.frame_number * 32)) again
        (get_free_frame-FirstFree t.paging) in
    let busy : is_busy t.paging.frames n ≡ true = Reach-busy n run (given.busy n ∙ ground arith) in
    cc (sym busy ∙ first.2)
