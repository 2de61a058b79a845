-- ===== src/Stack/Frames.antt =====
-- The frames that allocFrame gives to the pages of the new stack.
use experimental_kernel.Clone.Rounds.{alloc_frame_number}
use experimental_kernel.Common.{
  ◌%◌, ◌^◌, ℕ, ◌*◌, ◌<◌, ◌≡◌, ◌∙◌, ◌⊎◌, sym, ap, inl, inr, true, false, Option, none, some, arith,
}
use mathlib.Core.Path.{subst}
use experimental_kernel.Paging.{Page, Paging, alloc_frame}
use experimental_kernel.Paging.Search.{is_busy, FirstFree}
use experimental_kernel.Paging.Alloc.{Gives, alloc_frame-Gives}

-- No bit is clear among those that the search visits.
abbrev pub AllBusy : Paging → Type 0
AllBusy p = (f : ℕ) → f < p.frame_number * 32 → is_busy p.frames f ≡ true

-- A page that the user may write, with a frame that is marked.
pub record IsGranted (p : Paging) (page : Page) : Type 0 where
  pub present : page.present ≡ 1
  pub rw_ : page.rw ≡ 1
  pub user : page.user ≡ 1
  pub number : ℕ
  pub frame : page.frame ≡ number % 2 ^ 20
  pub busy : is_busy p.frames number ≡ true

-- A frame that is marked stays so.
abbrev pub StaysBusy : Paging → Paging → Type 0
StaysBusy p p' =
    (p'.frame_number ≡ p.frame_number)
    × ((f : ℕ) → is_busy p.frames f ≡ true → is_busy p'.frames f ≡ true)

pub AllBusy-stays : (p p' : Paging) → StaysBusy p p' → AllBusy p → AllBusy p'
AllBusy-stays p p' (number, stays) all f lt = stays f (all f (omega (arith, number, lt)))

pub IsGranted-stays :
    (p p' : Paging) (page : Page) → StaysBusy p p' → IsGranted p page → IsGranted p' page
IsGranted-stays p p' page (_, stays) g = record {
  present = g.present;
  rw_ = g.rw_;
  user = g.user;
  number = g.number;
  frame = g.frame;
  busy = stays g.number g.busy;
}

pub alloc_frame-IsGranted :
    (p : Paging) (page : Page)
    → page.frame ≡ 0
    → (let r = alloc_frame p page false true in (IsGranted r.0 r.1 ⊎ AllBusy r.0) × StaysBusy p r.0)
alloc_frame-IsGranted p page empty =
    let (o, first, g) = alloc_frame-Gives p page false true empty in found o first g
  where
    number : (alloc_frame p page false true).0.frame_number ≡ p.frame_number
    number = alloc_frame_number p page false true

    found :
        (o : Option ℕ)
        → FirstFree p.frames 0 (p.frame_number * 32) o
        → Gives p page false true (alloc_frame p page false true) o
        → (let r = alloc_frame p page false true in
            (IsGranted r.0 r.1 ⊎ AllBusy r.0) × StaysBusy p r.0)
    found none all same = (
      inr (subst AllBusy (sym (ap (λ r. r.0) same)) (λ f lt. all f (omega arith) lt)),
      (number, λ f h. ap (λ r. is_busy r.0.frames f) same ∙ h),
    )
    found (some n) _ g = (
      inl (record {
        present = g.flags.0;
        rw_ = g.flags.1;
        user = g.flags.2;
        number = n;
        frame = g.frame;
        busy = g.busy n ∙ ground arith;
      }),
      (number, λ f h. g.busy f ∙ ground (arith, h)),
    )
