-- ===== src/Setup/Pages.antt =====
-- The pages of the current directory as one map, and what getPage does to it before the heap is enabled.
use experimental_kernel.Common.{
  ℕ, ◌+◌, ◌^◌, ◌≤◌, ◌<◌, ◌≡◌, refl, sym, ap, ◌∙◌, ◌≢◌, inl, inr, Bool, true, false, not, ◌||◌,
  arith, ◌==◌, if◌then◌else◌, ==→eq, ==→ne, eq→==, ne→==, Bool-cases,
}
use mathlib.Core.Path.{subst}
use experimental_kernel.Heap.{ok}
use experimental_kernel.Paging.{Page}
use experimental_kernel.Kmalloc.{
  Kernel, PagePtr, kmalloc, kmalloc_early, get_page, present_page, enter_table, table_index,
  entry_index, round_up, zero_page, table_bytes, put_at,
}

-- Whether there is a table for the index.
abbrev pub has_table : Kernel → ℕ → Bool
has_table k i = not (k.directory.page_tables i == 0)

-- The page of an address; where the table is missing, an empty one.
abbrev pub page_at : Kernel → ℕ → Page
page_at k a =
    if has_table k (table_index a)
    then k.tables (k.directory.page_tables (table_index a)) (entry_index a)
    else zero_page

-- Each table is for one index.
abbrev pub Apart : Kernel → Type 0
Apart k =
    (i j : ℕ)
    → k.directory.page_tables i ≢ 0
    → k.directory.page_tables i ≡ k.directory.page_tables j
    → i ≡ j

-- A kernel without the heap, whose tables stand below `placement_address`, each for one index.
pub record IsEarly (k : Kernel) : Type 0 where
  pub early : k.heap.enabled ≡ false
  pub below : (i : ℕ) → k.directory.page_tables i < k.placement_address
  pub apart : Apart k

-- Where `placement_address` is after getPage of an address.
abbrev pub placed : Kernel → ℕ → ℕ
placed k a =
    if has_table k (table_index a)
    then k.placement_address
    else round_up true k.placement_address + table_bytes

-- What getPage leaves: the same map, with a table for the address.
pub record Gets (k : Kernel) (a : ℕ) (k' : Kernel) (place : PagePtr) : Type 0 where
  pub is_early : IsEarly k'
  pub at : place ≡ (k'.directory.page_tables (table_index a), entry_index a)
  pub tables : (i : ℕ) → has_table k' i ≡ (i == table_index a || has_table k i)
  pub view : (b : ℕ) → page_at k' b ≡ page_at k b
  pub placement : k'.placement_address ≡ placed k a

pub get_page_there :
    (k : Kernel) (a : ℕ)
    → has_table k (table_index a) ≡ true
    → get_page k a true ≡ ok (present_page k a)
unfolding get_page
get_page_there k a there =
    let test : (k.directory.page_tables (table_index a) == 0) ≡ false = ground (arith, there) in
    rw (get_page, test) refl

pub get_page_missing :
    (k : Kernel) (a : ℕ)
    → k.heap.enabled ≡ false
    → has_table k (table_index a) ≡ false
    → (let (k', place) = kmalloc_early k table_bytes true in
        get_page k a true ≡ ok (enter_table k' a place place))
unfolding get_page kmalloc kmalloc_early
get_page_missing k a early missing =
    let test : (k.directory.page_tables (table_index a) == 0) ≡ true = ground (arith, missing) in
    rw (get_page, test, kmalloc, early) refl

present_page-Gets :
    (k : Kernel) (a : ℕ)
    → IsEarly k
    → has_table k (table_index a) ≡ true
    → Gets k a (present_page k a).0 (present_page k a).1
unfolding present_page
present_page-Gets k a e there = record {
  is_early = record { early = e.early; below = e.below; apart = e.apart };
  at = refl;
  tables = λ i. elim (Bool-cases (i == table_index a)) [
    | inl here ↦ rw here (ap (has_table k) (==→eq _ _ here) ∙ there)
    | inr other ↦ rw other refl
  ];
  view = λ b. refl;
  placement = rw there refl;
}

-- The kernel with the new table.
abbrev pub with_table : Kernel → ℕ → Kernel
with_table k a =
    (enter_table (kmalloc_early k table_bytes true).0 a (round_up true k.placement_address)
      (round_up true k.placement_address)).0

with_table-fields :
    (k : Kernel) (a : ℕ)
    → k.placement_address + 8192 < 2 ^ 32
    → ((with_table k a).placement_address ≡ round_up true k.placement_address + table_bytes)
      × ((with_table k a).directory.page_tables
          ≡ put_at k.directory.page_tables (table_index a) (round_up true k.placement_address))
      × ((with_table k a).tables
          ≡ put_at k.tables (round_up true k.placement_address) (λ entry. zero_page))
      × ((with_table k a).heap ≡ k.heap)
unfolding enter_table kmalloc_early
with_table-fields k a room = (ground arith, refl, refl, refl)

round_up_bounds : (p : ℕ) → p + 8192 < 2 ^ 32 → (p ≤ round_up true p) × (round_up true p < p + 4096)
round_up_bounds p room = ground arith

module _ (k k' : Kernel) (a new : ℕ) (e : IsEarly k) (missing : has_table k (table_index a) ≡ false)
    (above : k.placement_address ≤ new) (placement : k'.placement_address ≡ new + table_bytes)
    (tables : k'.directory.page_tables ≡ put_at k.directory.page_tables (table_index a) new)
    (contents : k'.tables ≡ put_at k.tables new (λ entry. zero_page))
    (heap : k'.heap ≡ k.heap) where
  table_here : k'.directory.page_tables (table_index a) ≡ new
  table_here =
      let self : (table_index a == table_index a) ≡ true = eq→== _ _ refl in
      ap (λ t. t (table_index a)) tables ∙ (rw self refl)

  table_other : (i : ℕ) → i ≢ table_index a → k'.directory.page_tables i ≡ k.directory.page_tables i
  table_other i ne =
      let other : (i == table_index a) ≡ false = ne→== _ _ ne in
      ap (λ t. t i) tables ∙ (rw other refl)

  has_here : has_table k' (table_index a) ≡ true
  has_here = ground (arith, table_here, e.below 0)

  new_table_below : (i : ℕ) → k'.directory.page_tables i < k'.placement_address
  new_table_below i = elim (Bool-cases (i == table_index a)) [
    | inl here ↦ omega (
      arith,
      placement,
      subst (λ j. k'.directory.page_tables j ≡ new) (sym (==→eq _ _ here)) table_here,
    )
    | inr other ↦ omega (arith, placement, above, table_other i (==→ne _ _ other), e.below i)
  ]

  new_table_apart :
      (i j : ℕ)
      → k'.directory.page_tables i ≢ 0
      → k'.directory.page_tables i ≡ k'.directory.page_tables j
      → i ≡ j
  new_table_apart i j real same = elim (Bool-cases (i == table_index a)) [
    | inl here ↦ elim (Bool-cases (j == table_index a)) [
      | inl here' ↦ ==→eq _ _ here ∙ sym (==→eq _ _ here')
      | inr other ↦ absurd (
          omega (
            arith,
            above,
            subst (λ z. k'.directory.page_tables z ≡ new) (sym (==→eq _ _ here)) table_here,
            table_other j (==→ne _ _ other),
            e.below j,
          ))
    ]
    | inr other ↦ elim (Bool-cases (j == table_index a)) [
      | inl here ↦ absurd (
          omega (
            arith,
            above,
            subst (λ z. k'.directory.page_tables z ≡ new) (sym (==→eq _ _ here)) table_here,
            table_other i (==→ne _ _ other),
            e.below i,
          ))
      | inr other' ↦
          let f = table_other i (==→ne _ _ other) in
          let g = table_other j (==→ne _ _ other') in
          e.apart i j (λ z. real (f ∙ z)) (sym f ∙ same ∙ g)
    ]
  ]

  new_table_view : (b : ℕ) → page_at k' b ≡ page_at k b
  new_table_view b = elim (Bool-cases (table_index b == table_index a)) [
    | inl here ↦
        let index : table_index b ≡ table_index a = ==→eq _ _ here in
        let self : (new == new) ≡ true = eq→== _ _ refl in
        let empty : k'.tables (k'.directory.page_tables (table_index b)) (entry_index b)
            ≡ zero_page =
          ap (λ i. k'.tables (k'.directory.page_tables i) (entry_index b)) index
          ∙ ap (λ t. k'.tables t (entry_index b)) table_here
          ∙ ap (λ t. t new (entry_index b)) contents
          ∙ (rw self refl) in
        let had : has_table k (table_index b) ≡ false = ap (has_table k) index ∙ missing in
        let has : has_table k' (table_index b) ≡ true = ap (has_table k') index ∙ has_here in
        rw (had, has) empty
    | inr other ↦ old (table_index b) (entry_index b) (==→ne _ _ other)
  ]
    where
      old :
          (i n : ℕ)
          → i ≢ table_index a
          → (if has_table k' i then k'.tables (k'.directory.page_tables i) n else zero_page)
            ≡ (if has_table k i then k.tables (k.directory.page_tables i) n else zero_page)
      old i n ne =
          let differs : (k.directory.page_tables i == new) ≡ false =
            ne→== _ _ (omega (arith, above, e.below i)) in
          rw (table_other i ne) (
            ap (λ t. if has_table k i then t (k.directory.page_tables i) n else zero_page) contents
            ∙ (rw differs refl))

  new_table-Gets : placed k a ≡ new + table_bytes → Gets k a k' (new, entry_index a)
  new_table-Gets there = record {
    is_early = record {
      early = ap (λ h. h.enabled) heap ∙ e.early;
      below = new_table_below;
      apart = new_table_apart;
    };
    at = ap (λ t. (t, entry_index a)) (sym table_here);
    tables = λ i. elim (Bool-cases (i == table_index a)) [
      | inl here ↦ rw here (ap (has_table k') (==→eq _ _ here) ∙ has_here)
      | inr other ↦ rw other (ap (λ t. not (t == 0)) (table_other i (==→ne _ _ other)))
    ];
    view = new_table_view;
    placement = placement ∙ sym there;
  }

-- getPage before the heap is enabled, with room for a table, finds the page of the address in a
-- directory that has a table for it. No page changes, where a missing table counts as empty pages.
pub get_page-Gets :
    (k : Kernel) (a : ℕ)
    → IsEarly k
    → k.placement_address + 8192 < 2 ^ 32
    → (k' : Kernel) × (place : PagePtr) × (get_page k a true ≡ ok (k', place)) × Gets k a k' place
get_page-Gets k a e room = elim (Bool-cases (has_table k (table_index a))) [
  | inl there ↦ (
    (present_page k a).0,
    (present_page k a).1,
    get_page_there k a there,
    present_page-Gets k a e there,
  )
  | inr missing ↦
      let new = round_up true k.placement_address in
      let f = with_table-fields k a room in
      (
        with_table k a,
        (new, entry_index a),
        get_page_missing k a e.early missing ∙ (unfold enter_table kmalloc_early in refl),
        new_table-Gets k (with_table k a) a new e missing
            ((round_up_bounds k.placement_address room).0) f.0 f.1 f.2 f.3 (rw missing refl),
      )
]
