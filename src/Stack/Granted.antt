-- ===== src/Stack/Granted.antt =====
-- The pages of the new stack, whose tables kmalloc gives where they are missing.
use mathlib.Core.Path.{subst}
use experimental_kernel.Common.{
  ℕ, zero, suc, ◌+◌, ◌-◌, ◌*◌, ◌/◌, ◌^◌, ◌<◌, ◌≤◌, ◌≡◌, ◌≢◌, ◌⊎◌, refl, sym, ap, ◌∙◌, arith, leb,
  true, false, inl, inr, Bool, Bool-cases, ◌==◌, ==→eq, ==→ne, ◌-ʷ◌,
}
use experimental_kernel.Heap.{ok, page_size}
use experimental_kernel.Paging.{alloc_frame}
use experimental_kernel.Kmalloc.{Kernel, table_index, entry_index}
use experimental_kernel.Clone.{Machine}
use experimental_kernel.Setup.{alloc_page}
use experimental_kernel.Setup.Pages.{page_at, Apart}
use experimental_kernel.Setup.Grant.{
  placed_page, alloc_page_lem, placed_page_self, placed_page_others,
}
use experimental_kernel.Stack.{grant_pages}
use experimental_kernel.Stack.Supply.{IsBytes, Supplies, get_page-Got}
use experimental_kernel.Stack.Frames.{
  AllBusy, IsGranted, StaysBusy, AllBusy-stays, IsGranted-stays, alloc_frame-IsGranted,
}

-- What does not change from a machine to a later one: the bytes that are kept, and the marks of frames.
pub record Follows (Ready : Kernel → Type 0) (kept : ℕ → Bool) (m m' : Machine) : Type 0 where
  pub ready : Ready m'.kernel
  pub apart : Apart m'.kernel
  pub same_mem : (b : ℕ) → kept b ≡ true → m'.kernel.mem b ≡ m.kernel.mem b
  pub bytes : IsBytes m.kernel.mem → IsBytes m'.kernel.mem
  pub stays : StaysBusy m.paging m'.paging

Follows-trans :
    (Ready : Kernel → Type 0) (kept : ℕ → Bool) (a b c : Machine)
    → Follows Ready kept a b
    → Follows Ready kept b c
    → Follows Ready kept a c
Follows-trans Ready kept a b c p q = record {
  ready = q.ready;
  apart = q.apart;
  same_mem = λ x h. q.same_mem x h ∙ p.same_mem x h;
  bytes = λ h. q.bytes (p.bytes h);
  stays = (q.stays.0 ∙ p.stays.0, λ f h. q.stays.1 f (p.stays.1 f h));
}

-- The page of an address has a frame and is the user's to write, or there is no free frame.
abbrev pub Granted : Machine → ℕ → Type 0
Granted m a = IsGranted m.paging (page_at m.kernel a) ⊎ AllBusy m.paging

-- The pages from `low` to an address.
pub record AllGranted (Ready : Kernel → Type 0) (kept : ℕ → Bool) (low : ℕ) (m : Machine)
    (address : ℕ) (m' : Machine) : Type 0 where
  pub follows : Follows Ready kept m m'
  pub pages : (j : ℕ) → low + 4096 * j ≤ address → Granted m' (address - 4096 * j)
  pub others : (b : ℕ) → address / 4096 < b / 4096 → page_at m'.kernel b ≡ page_at m.kernel b

AllGranted-nil :
    (Ready : Kernel → Type 0) (kept : ℕ → Bool) (low address : ℕ) (m : Machine)
    → address < low
    → Ready m.kernel
    → Apart m.kernel
    → AllGranted Ready kept low m address m
AllGranted-nil Ready kept low address m past ready apart = record {
  follows = record {
    ready = ready;
    apart = apart;
    same_mem = λ b h. refl;
    bytes = λ h. h;
    stays = (refl, λ f h. h);
  };
  pages = λ j le. absurd (omega (arith, past, le));
  others = λ b lt. refl;
}

Granted-stays :
    (m1 m' : Machine) (a : ℕ)
    → StaysBusy m1.paging m'.paging
    → page_at m'.kernel a ≡ page_at m1.kernel a
    → Granted m1 a
    → Granted m' a
Granted-stays m1 m' a stays same (inl g) = inl (
    subst (IsGranted m'.paging) (sym same)
      (IsGranted-stays m1.paging m'.paging (page_at m1.kernel a) stays g))
Granted-stays m1 m' a stays same (inr busy) = inr (AllBusy-stays m1.paging m'.paging stays busy)

-- The page of the address, and then those below it.
AllGranted-cons :
    (Ready : Kernel → Type 0) (kept : ℕ → Bool) (low address : ℕ) (m m1 m' : Machine)
    → low ≤ address
    → 4096 ≤ low
    → Follows Ready kept m m1
    → Granted m1 address
    → ((b : ℕ) → b / 4096 ≢ address / 4096 → page_at m1.kernel b ≡ page_at m.kernel b)
    → AllGranted Ready kept low m1 (address - 4096) m'
    → AllGranted Ready kept low m address m'
AllGranted-cons Ready kept low address m m1 m' inside above f granted others g = record {
  follows = Follows-trans Ready kept m m1 m' f g.follows;
  pages = λ j le. elim (Bool-cases (j == 0)) [
    | inl first ↦
        let same : address ≡ address - 4096 * j = omega (arith, ==→eq _ _ first) in
        subst (Granted m') same (
          Granted-stays m1 m' address g.follows.stays
            (g.others address (omega (arith, inside, above))) granted)
    | inr later ↦
        let same : address - 4096 - 4096 * (j - 1) ≡ address - 4096 * j =
          omega (arith, ==→ne _ _ later) in
        subst (Granted m') same
          (g.pages (j - 1) (omega (arith, le, ==→ne _ _ later, inside, above)))
  ];
  others = λ b lt. g.others b (omega (arith, lt)) ∙ others b (omega (arith, lt));
}

-- The pages below have no frames yet.
empty_below :
    (low address : ℕ) (m m1 : Machine)
    → low ≤ address
    → 4096 ≤ low
    → ((b : ℕ) → b / 4096 ≢ address / 4096 → page_at m1.kernel b ≡ page_at m.kernel b)
    → ((j : ℕ) → low + 4096 * j ≤ address → (page_at m.kernel (address - 4096 * j)).frame ≡ 0)
    → (j : ℕ) → low + 4096 * j ≤ address - 4096
    → (page_at m1.kernel (address - 4096 - 4096 * j)).frame ≡ 0
empty_below low address m m1 inside above others empty j le =
    let further : address - 4096 - 4096 * j ≡ address - 4096 * suc j = omega arith in
    ap (λ p. p.frame) (others (address - 4096 - 4096 * j) (omega (arith, le, inside, above)))
    ∙ ap (λ a. (page_at m.kernel a).frame) further
    ∙ empty (suc j) (omega (arith, le, inside, above))

module _ (Ready : Kernel → Type 0) (kept : ℕ → Bool) (low high : ℕ)
    (s : Supplies Ready kept low high) where
  alloc_page-Granted :
      (m : Machine) (a : ℕ)
      → low ≤ a
      → a ≤ high
      → Ready m.kernel
      → Apart m.kernel
      → (page_at m.kernel a).frame ≡ 0
      → (m' : Machine) × (alloc_page a m ≡ ok m')
        × Follows Ready kept m m'
        × Granted m' a
        × ((b : ℕ) → b / 4096 ≢ a / 4096 → page_at m'.kernel b ≡ page_at m.kernel b)
  alloc_page-Granted m a lo hi ready apart empty =
      let (k, g) = get_page-Got Ready kept low high m.kernel a s lo hi ready apart in
      let t = k.directory.page_tables (table_index a) in
      let r = alloc_frame m.paging (page_at m.kernel a) false true in
      let m' = placed_page m k t (entry_index a) r in
      let there : page_at k a ≡ k.tables t (entry_index a) = (rw g.there refl) in
      let old : k.tables t (entry_index a) ≡ page_at m.kernel a = sym there ∙ g.view a in
      let (granted, stays) = alloc_frame-IsGranted m.paging (page_at m.kernel a) empty in
      (
        m',
        alloc_page_lem m a t (entry_index a) k (page_at m.kernel a) g.returns old,
        record {
          ready = s.places k a r.1 lo hi g.ready g.there;
          apart = g.apart;
          same_mem = g.same_mem;
          bytes = g.bytes;
          stays = stays;
        },
        subst (λ p. IsGranted r.0 p ⊎ AllBusy r.0) (sym (placed_page_self m k a r g.there)) granted,
        λ b ne. placed_page_others m k a b r g.apart g.there ne ∙ g.view b,
      )

  grant_pages-stop :
      (fuel address bottom : ℕ) (m : Machine)
      → leb bottom address ≡ false
      → grant_pages (suc fuel) address bottom m ≡ ok m
  unfolding grant_pages
  grant_pages-stop fuel address bottom m e = rw (grant_pages, e) refl

  grant_pages-next :
      (fuel address bottom : ℕ) (m m1 : Machine)
      → leb bottom address ≡ true
      → alloc_page address m ≡ ok m1
      → grant_pages (suc fuel) address bottom m ≡ grant_pages fuel (address -ʷ page_size) bottom m1
  unfolding grant_pages
  grant_pages-next fuel address bottom m m1 e done = rw (grant_pages, e, done) refl

  -- The loop ends, and each of its pages is granted.
  pub grant_pages-AllGranted :
      (left address : ℕ) (m : Machine)
      → address < low + 4096 * left
      → 4096 ≤ low
      → address ≤ high
      → address < 2 ^ 32
      → Ready m.kernel
      → Apart m.kernel
      → ((j : ℕ) → low + 4096 * j ≤ address → (page_at m.kernel (address - 4096 * j)).frame ≡ 0)
      → (m' : Machine) × (grant_pages (suc left) address low m ≡ ok m')
        × AllGranted Ready kept low m address m'
  grant_pages-AllGranted zero address m short above hi word ready apart empty = (
    m,
    grant_pages-stop 0 address low m (ground (arith, short)),
    AllGranted-nil Ready kept low address m (omega (arith, short)) ready apart,
  )
  grant_pages-AllGranted (suc left) address m short above hi word ready apart empty =
      elim (Bool-cases (leb low address)) [
        | inr stop ↦ (
          m,
          grant_pages-stop (suc left) address low m stop,
          AllGranted-nil Ready kept low address m (ground (arith, stop)) ready apart,
        )
        | inl go ↦
            let inside : low ≤ address = ground (arith, go) in
            let here : address - 4096 * 0 ≡ address = omega arith in
            let (m1, done, f, granted, others) =
              alloc_page-Granted m address inside hi ready apart (
                subst (λ a. (page_at m.kernel a).frame ≡ 0) here
                  (empty 0 (omega (arith, inside)))) in
            let back : address -ʷ page_size ≡ address - 4096 =
              ground (arith, inside, above, word) in
            let (m', rest, g) =
              grant_pages-AllGranted left (address - 4096) m1 (omega (arith, short, inside, above))
                above (omega (arith, hi)) (omega (arith, word)) f.ready f.apart
                (empty_below low address m m1 inside above others empty) in
            (
              m',
              grant_pages-next (suc left) address low m m1 go done
                  ∙ ap (λ a. grant_pages (suc left) a low m1) back
                  ∙ rest,
              AllGranted-cons Ready kept low address m m1 m' inside above f granted others g,
            )
      ]
