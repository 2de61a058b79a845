-- ===== src/Setup/Grant.antt =====
-- A frame for the page of an address, in the order of the frames.
use experimental_kernel.Common.{
  ℕ, ◌+◌, ◌*◌, ◌/◌, ◌^◌, ◌≤◌, ◌<◌, ◌≡◌, refl, sym, ap, ◌∙◌, ◌≢◌, ◌⊎◌, inl, inr, Bool, true, false,
  ◌||◌, Option, none, some, arith, ltb, ◌==◌, ltb→lt, ltb→le, ==→eq, ==→ne, eq→==, ne→==,
  Bool-cases,
}
use mathlib.Core.Path.{subst}
use experimental_kernel.Heap.{ok}
use experimental_kernel.Paging.{Page, Paging, alloc_frame, get_free_frame}
use experimental_kernel.Paging.Search.{is_busy, FirstFree, get_free_frame-FirstFree}
use experimental_kernel.Paging.Alloc.{Gives, alloc_frame_found}
use experimental_kernel.Kmalloc.{Kernel, get_page, table_index, entry_index, put_at}
use experimental_kernel.Clone.{Machine}
use experimental_kernel.Clone.Rounds.{alloc_frame_number}
use experimental_kernel.Setup.{alloc_page}
use experimental_kernel.Setup.Pages.{has_table, page_at, Apart, IsEarly, placed, get_page-Gets}

-- The number of the frames of the main memory.
abbrev pub frame_count : ℕ
frame_count = 4096

-- Of the frames of the main memory, those below `n` are busy.
pub record BusyTo (p : Paging) (n : ℕ) : Type 0 where
  pub number : p.frame_number ≡ frame_count
  pub busy : (f : ℕ) → f < frame_count → is_busy p.frames f ≡ ltb f n

-- A present, writeable page of the user with this frame.
pub record Mapped (n : ℕ) (page : Page) : Type 0 where
  pub frame : page.frame ≡ n
  pub present : page.present ≡ 1
  pub rw_ : page.rw ≡ 1
  pub user : page.user ≡ 1

-- The page that is given a frame when those below `n` are busy: the frame `n`, or, when the main memory
-- has no more, none or one behind its end.
abbrev pub Given : ℕ → Page → Type 0
Given n page =
    ((n < frame_count) × Mapped n page)
    ⊎ ((frame_count ≤ n) × ((page.frame ≡ 0) ⊎ (frame_count ≤ page.frame)))

alloc_frame-Given :
    (p : Paging) (page : Page) (n : ℕ)
    → BusyTo p n
    → page.frame ≡ 0
    → (let r = alloc_frame p page false true in Given n r.1 × BusyTo r.0 (n + 1))
alloc_frame-Given p page n b empty =
    found (get_free_frame p) (get_free_frame-FirstFree p)
      (alloc_frame_found p page false true empty)
  where
    found :
        (o : Option ℕ)
        → FirstFree p.frames 0 (p.frame_number * 32) o
        → Gives p page false true (alloc_frame p page false true) o
        → (let r = alloc_frame p page false true in Given n r.1 × BusyTo r.0 (n + 1))
    found none full same =
        let past : frame_count ≤ n = elim (Bool-cases (ltb n frame_count)) [
          | inl inside ↦ absurd (
              ground (
                arith,
                b.number,
                b.busy n (ltb→lt _ _ inside),
                full n (omega arith) (omega (arith, b.number, ltb→lt _ _ inside)),
              ))
          | inr past ↦ ltb→le _ _ past
        ] in
        (
          inr (past, inl (ap (λ r. r.1.frame) same ∙ empty)),
          record {
            number = ap (λ r. r.0.frame_number) same ∙ b.number;
            busy = λ f lt.
                ap (λ r. is_busy r.0.frames f) same ∙ b.busy f lt ∙ ground (arith, past, lt);
          },
        )
    found (some r) (_, lt, free, first) g =
        let frame : (alloc_frame p page false true).1.frame ≡ r =
          g.frame ∙ omega (arith, lt, b.number) in
        let number = alloc_frame_number p page false true ∙ b.number in
        elim (Bool-cases (ltb n frame_count)) [
          | inl inside ↦
              let n_free : is_busy p.frames n ≡ false =
                b.busy n (ltb→lt _ _ inside) ∙ ground arith in
              let same : r ≡ n = elim (Bool-cases (ltb n r)) [
                | inl before ↦
                    absurd (ground (arith, n_free, first n (omega arith) (ltb→lt _ _ before)))
                | inr after ↦ elim (Bool-cases (ltb r n)) [
                  | inl below ↦ absurd (
                      ground (
                        arith,
                        free,
                        b.busy r (omega (arith, ltb→lt _ _ below, ltb→lt _ _ inside)),
                        below,
                      ))
                  | inr above ↦ omega (arith, ltb→le _ _ after, ltb→le _ _ above)
                ]
              ] in
              (
                inl (
                  ltb→lt _ _ inside,
                  record {
                    frame = frame ∙ same;
                    present = g.flags.0;
                    rw_ = g.flags.1;
                    user = g.flags.2;
                  },
                ),
                record {
                  number = number;
                  busy = λ f lt'. g.busy f ∙ ground (arith, same, b.busy f lt');
                },
              )
          | inr past ↦
              let beyond : frame_count ≤ r = elim (Bool-cases (ltb r frame_count)) [
                | inl inside ↦
                    absurd (ground (arith, free, past, inside, b.busy r (ltb→lt _ _ inside)))
                | inr above ↦ ltb→le _ _ above
              ] in
              (
                inr (ltb→le _ _ past, inr (omega (arith, frame, beyond))),
                record {
                  number = number;
                  busy = λ f lt'.
                      g.busy f ∙ ground (arith, beyond, lt', b.busy f lt', ltb→le _ _ past);
                },
              )
        ]

-- What one call of allocFrame for the page of an address leaves.
pub record Grants (m : Machine) (a n : ℕ) (m' : Machine) : Type 0 where
  pub is_early : IsEarly m'.kernel
  pub tables : (i : ℕ) → has_table m'.kernel i ≡ (i == table_index a || has_table m.kernel i)
  pub placement : m'.kernel.placement_address ≡ placed m.kernel a
  pub given : Given n (page_at m'.kernel a)
  pub busy : BusyTo m'.paging (n + 1)
  pub others : (b : ℕ) → b / 4096 ≢ a / 4096 → page_at m'.kernel b ≡ page_at m.kernel b

-- The machine with the page at a place of a table.
abbrev pub placed_page : Machine → Kernel → ℕ → ℕ → Paging × Page × Bool → Machine
placed_page m k table entry r = record m {
  kernel = record k { tables = put_at k.tables table (put_at (k.tables table) entry r.1) };
  paging = r.0;
}

pub alloc_page_lem :
    (m : Machine) (a table entry : ℕ) (k : Kernel) (page : Page)
    → get_page m.kernel a true ≡ ok (k, (table, entry))
    → k.tables table entry ≡ page
    → alloc_page a m ≡ ok (placed_page m k table entry (alloc_frame m.paging page false true))
unfolding alloc_page
alloc_page_lem m a table entry k page e1 e2 = rw (← e2, alloc_page, e1) refl

pub placed_page_self :
    (m : Machine) (k : Kernel) (a : ℕ) (r : Paging × Page × Bool)
    → has_table k (table_index a) ≡ true
    → page_at (placed_page m k (k.directory.page_tables (table_index a)) (entry_index a) r).kernel a
      ≡ r.1
placed_page_self m k a r has =
    let table : (k.directory.page_tables (table_index a) == k.directory.page_tables (table_index a))
        ≡ true =
      eq→== _ _ refl in
    let entry : (entry_index a == entry_index a) ≡ true = eq→== _ _ refl in
    rw (has, table, entry) refl

put_at_others :
    (tables : ℕ → ℕ → Page) (table entry t n : ℕ) (page : Page)
    → (t ≢ table) ⊎ (n ≢ entry)
    → put_at tables table (put_at (tables table) entry page) t n ≡ tables t n
put_at_others tables table entry t n page (inl ne) =
    let other : (t == table) ≡ false = ne→== _ _ ne in rw other refl
put_at_others tables table entry t n page (inr ne) =
    let other : (n == entry) ≡ false = ne→== _ _ ne in
    elim (Bool-cases (t == table)) [
      | inl here ↦ rw (here, other) (ap (λ z. tables z n) (sym (==→eq _ _ here)))
      | inr away ↦ rw away refl
    ]

pub placed_page_others :
    (m : Machine) (k : Kernel) (a b : ℕ) (r : Paging × Page × Bool)
    → Apart k
    → has_table k (table_index a) ≡ true
    → b / 4096 ≢ a / 4096
    → page_at (placed_page m k (k.directory.page_tables (table_index a)) (entry_index a) r).kernel b
      ≡ page_at k b
placed_page_others m k a b r e has ne = elim (Bool-cases (has_table k (table_index b))) [
  | inr missing ↦ rw missing refl
  | inl there ↦
      let differ : (k.directory.page_tables (table_index b)
            ≢ k.directory.page_tables (table_index a))
          ⊎ (entry_index b ≢ entry_index a) =
        elim (Bool-cases (entry_index b == entry_index a)) [
          | inr other ↦ inr (==→ne _ _ other)
          | inl same ↦ inl (λ t. ne (
              omega (
                arith,
                ==→eq _ _ same,
                e (table_index b) (table_index a) (ground (arith, there)) t,
              )))
        ] in
      rw there (
        put_at_others k.tables (k.directory.page_tables (table_index a)) (entry_index a)
          (k.directory.page_tables (table_index b)) (entry_index b) r.1 differ)
]

-- allocFrame for the page of an address that has no frame, before the heap is enabled.
pub alloc_page-Grants :
    (m : Machine) (a n : ℕ)
    → IsEarly m.kernel
    → m.kernel.placement_address + 8192 < 2 ^ 32
    → BusyTo m.paging n
    → (page_at m.kernel a).frame ≡ 0
    → (m' : Machine) × (alloc_page a m ≡ ok m') × Grants m a n m'
alloc_page-Grants m a n e room busy empty =
    let (k, (table, entry), got, g) = get_page-Gets m.kernel a e room in
    let r = alloc_frame m.paging (page_at m.kernel a) false true in
    let given = alloc_frame-Given m.paging (page_at m.kernel a) n busy empty in
    let has : has_table k (table_index a) ≡ true = g.tables (table_index a) ∙ ground arith in
    let t = k.directory.page_tables (table_index a) in
    let m' = placed_page m k t (entry_index a) r in
    let old : k.tables t (entry_index a) ≡ page_at m.kernel a =
      (let there : page_at k a ≡ k.tables t (entry_index a) = (rw has refl) in
        sym there ∙ g.view a) in
    (
      m',
      alloc_page_lem m a t (entry_index a) k (page_at m.kernel a) (got ∙ ap (λ p. ok (k, p)) g.at)
          old,
      record {
        is_early = record {
          early = g.is_early.early;
          below = g.is_early.below;
          apart = g.is_early.apart;
        };
        tables = g.tables;
        placement = g.placement;
        given = subst (Given n) (sym (placed_page_self m k a r has)) given.0;
        busy = given.1;
        others = λ b ne. placed_page_others m k a b r g.is_early.apart has ne ∙ g.view b;
      },
    )
