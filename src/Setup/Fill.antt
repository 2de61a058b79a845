-- ===== src/Setup/Fill.antt =====
-- Frames for pages that follow one another.
use experimental_kernel.Common.{
  ℕ, zero, suc, ◌+◌, ◌-◌, ◌*◌, ◌/◌, ◌^◌, ◌≤◌, ◌<◌, ◌≡◌, refl, sym, ap, ◌∙◌, ◌⊎◌, inl, inr, true,
  arith, ◌==◌, ==→eq, ==→ne, Bool-cases,
}
use mathlib.Core.Path.{subst}
use experimental_kernel.Heap.{ok, page_size}
use experimental_kernel.Kmalloc.{Kernel, table_index}
use experimental_kernel.Clone.{Machine}
use experimental_kernel.Setup.{alloc_page, alloc_pages}
use experimental_kernel.Setup.Pages.{has_table, page_at, IsEarly}
use experimental_kernel.Setup.Grant.{BusyTo, Given, Grants, alloc_page-Grants}

-- The pages from number `q` on, `l` of them, have the frames from `n` on, in order.
pub record Filled (m : Machine) (q l n : ℕ) (m' : Machine) : Type 0 where
  pub is_early : IsEarly m'.kernel
  pub busy : BusyTo m'.paging (n + l)
  pub given : (j : ℕ) → j < l → Given (n + j) (page_at m'.kernel (4096 * (q + j)))
  pub others :
      (b : ℕ) → (b / 4096 < q) ⊎ (q + l ≤ b / 4096) → page_at m'.kernel b ≡ page_at m.kernel b

-- The tables and the placement address are as they were.
pub record SameTables (k k' : Kernel) : Type 0 where
  pub tables : (i : ℕ) → has_table k' i ≡ has_table k i
  pub placement : k'.placement_address ≡ k.placement_address

pub Filled-nil : (m : Machine) (q n : ℕ) → IsEarly m.kernel → BusyTo m.paging n → Filled m q 0 n m
Filled-nil m q n e b = record {
  is_early = e;
  busy = subst (BusyTo m.paging) (omega arith) b;
  given = λ j lt. absurd (omega arith);
  others = λ b out. refl;
}

-- One page, and then the others.
pub Filled-cons :
    (m m1 m' : Machine) (q l n : ℕ)
    → Grants m (4096 * q) n m1
    → Filled m1 (q + 1) l (n + 1) m'
    → Filled m q (suc l) n m'
Filled-cons m m1 m' q l n g f = record {
  is_early = f.is_early;
  busy = subst (BusyTo m'.paging) (omega arith) f.busy;
  given = λ j lt. elim (Bool-cases (j == 0)) [
    | inl first ↦
        let zero_ : j ≡ 0 = ==→eq _ _ first in
        let a : n ≡ n + j = omega (arith, zero_) in
        let b : q ≡ q + j = omega (arith, zero_) in
        subst (λ i. Given i (page_at m'.kernel (4096 * (q + j)))) a
          (subst (λ i. Given n (page_at m'.kernel (4096 * i))) b
            (subst (Given n) (sym (f.others (4096 * q) (omega arith))) g.given))
    | inr later ↦
        let a : n + 1 + (j - 1) ≡ n + j = omega (arith, ==→ne _ _ later) in
        let b : q + 1 + (j - 1) ≡ q + j = omega (arith, ==→ne _ _ later) in
        subst (λ i. Given i (page_at m'.kernel (4096 * (q + j)))) a
          (subst (λ i. Given (n + 1 + (j - 1)) (page_at m'.kernel (4096 * i))) b
            (f.given (j - 1) (omega (arith, ==→ne _ _ later))))
  ];
  others = λ b out. f.others b (omega (arith, out)) ∙ g.others b (omega (arith, out));
}

-- A page whose table is there moves nothing.
pub Grants-SameTables :
    (m m' : Machine) (a n : ℕ)
    → has_table m.kernel (table_index a) ≡ true
    → Grants m a n m'
    → SameTables m.kernel m'.kernel
Grants-SameTables m m' a n has g = record {
  tables = λ i. elim (Bool-cases (i == table_index a)) [
    | inl here ↦ g.tables i ∙ (rw here (sym (ap (has_table m.kernel) (==→eq _ _ here) ∙ has)))
    | inr other ↦ g.tables i ∙ (rw other refl)
  ];
  placement = g.placement ∙ (rw has refl);
}

pub SameTables-trans : (a b c : Kernel) → SameTables a b → SameTables b c → SameTables a c
SameTables-trans a b c p q = record {
  tables = λ i. q.tables i ∙ p.tables i;
  placement = q.placement ∙ p.placement;
}

alloc_pages-next :
    (left address : ℕ) (m m1 : Machine)
    → alloc_page address m ≡ ok m1
    → alloc_pages (suc left) address m ≡ alloc_pages left (address + page_size) m1
unfolding alloc_pages
alloc_pages-next left address m m1 e = rw (alloc_pages, e) refl

-- The tables of the pages from number `q` on, `l` of them, are there, and the pages have no frames.
pub record IsBlank (k : Kernel) (q l : ℕ) : Type 0 where
  pub tabled : (j : ℕ) → j < l → has_table k (table_index (4096 * (q + j))) ≡ true
  pub empty : (j : ℕ) → j < l → (page_at k (4096 * (q + j))).frame ≡ 0

-- A frame for the first of them leaves the others.
pub alloc_page-IsBlank :
    (l q n : ℕ) (m : Machine)
    → IsEarly m.kernel
    → m.kernel.placement_address + 8192 < 2 ^ 32
    → BusyTo m.paging n
    → IsBlank m.kernel q (suc l)
    → (m1 : Machine) × (alloc_page (4096 * q) m ≡ ok m1)
      × Grants m (4096 * q) n m1
      × SameTables m.kernel m1.kernel
      × IsBlank m1.kernel (q + 1) l
alloc_page-IsBlank l q n m e room b blank =
    let here : q + 0 ≡ q = omega arith in
    let (m1, done, g) =
      alloc_page-Grants m (4096 * q) n e room b
        (subst (λ i. (page_at m.kernel (4096 * i)).frame ≡ 0) here (blank.empty 0 (omega arith))) in
    let same =
      Grants-SameTables m m1 (4096 * q) n
        (subst (λ i. has_table m.kernel (table_index (4096 * i)) ≡ true) here
          (blank.tabled 0 (omega arith)))
        g in
    let step : (j : ℕ) → q + 1 + j ≡ q + suc j = λ j. omega arith in
    (
      m1,
      done,
      g,
      same,
      record {
        tabled = λ j lt.
            subst (λ i. has_table m1.kernel (table_index (4096 * i)) ≡ true) (sym (step j))
              (same.tables (table_index (4096 * (q + suc j))) ∙ blank.tabled (suc j) (omega arith));
        empty = λ j lt.
            ap (λ p. p.frame) (g.others (4096 * (q + 1 + j)) (omega arith))
            ∙ subst (λ i. (page_at m.kernel (4096 * i)).frame ≡ 0) (sym (step j))
                (blank.empty (suc j) (omega arith));
      },
    )

-- The loop over such pages.
pub alloc_pages-Filled :
    (l q n : ℕ) (m : Machine)
    → IsEarly m.kernel
    → m.kernel.placement_address + 8192 < 2 ^ 32
    → BusyTo m.paging n
    → IsBlank m.kernel q l
    → (m' : Machine) × (alloc_pages l (4096 * q) m ≡ ok m')
      × Filled m q l n m'
      × SameTables m.kernel m'.kernel
alloc_pages-Filled zero q n m e room b blank = (
  m,
  (unfold alloc_pages in refl),
  Filled-nil m q n e b,
  record { tables = λ i. refl; placement = refl },
)
alloc_pages-Filled (suc l) q n m e room b blank =
    let (m1, done, g, same, blank') = alloc_page-IsBlank l q n m e room b blank in
    let (m', rest, f, same') =
      alloc_pages-Filled l (q + 1) (n + 1) m1 g.is_early (omega (arith, room, same.placement))
        g.busy blank' in
    let next : 4096 * q + page_size ≡ 4096 * (q + 1) = omega arith in
    (
      m',
      alloc_pages-next l (4096 * q) m m1 done ∙ ap (λ a. alloc_pages l a m1) next ∙ rest,
      Filled-cons m m1 m' q l n g f,
      SameTables-trans m.kernel m1.kernel m'.kernel same same',
    )
