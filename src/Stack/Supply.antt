-- ===== src/Stack/Supply.antt =====
-- The page tables of the new stack: getPage makes one with kmalloc where it is missing.
use experimental_kernel.Common.{
  ℕ, ◌<◌, ◌≤◌, ◌≡◌, ◌≢◌, ◌∙◌, refl, sym, ap, inl, inr, Bool, true, false, arith, not, ◌==◌,
  if◌then◌else◌, ==→eq, ==→ne, eq→==, ne→==, Bool-cases,
}
use experimental_kernel.Memory.{Mem}
use experimental_kernel.Heap.{ok}
use experimental_kernel.Paging.{Page}
use experimental_kernel.Kmalloc.{
  Kernel, kmalloc, get_page, enter_table, present_page, table_index, entry_index, table_bytes,
  zero_page, put_at,
}
use experimental_kernel.Setup.Pages.{has_table, page_at, Apart, get_page_there}

abbrev pub IsBytes : Mem → Type 0
IsBytes mem = (a : ℕ) → mem a < 256

-- What kmalloc gives for the page table of an address: a place that no other table has. It changes only
-- bytes that are not `kept`, and leaves all tables as they are.
pub record GivesTable (kept : ℕ → Bool) (k : Kernel) : Type 0 where
  pub after : Kernel
  pub table : ℕ
  pub physical : ℕ
  pub returns : kmalloc k table_bytes true true ≡ ok (after, table, physical)
  pub real : table ≢ 0
  pub fresh : (i : ℕ) → k.directory.page_tables i ≢ table
  pub same_directory : after.directory.page_tables ≡ k.directory.page_tables
  pub same_tables : after.tables ≡ k.tables
  pub same_mem : (a : ℕ) → kept a ≡ true → after.mem a ≡ k.mem a
  pub bytes : IsBytes k.mem → IsBytes after.mem

-- Whenever a table is missing between two addresses, kmalloc gives one, in all the kernels that come up on
-- the way.
pub record Supplies (Ready : Kernel → Type 0) (kept : ℕ → Bool) (low high : ℕ) : Type 0 where
  pub gives :
      (k : Kernel) (a : ℕ)
      → low ≤ a
      → a ≤ high
      → Ready k
      → has_table k (table_index a) ≡ false
      → (g : GivesTable kept k) × Ready (enter_table g.after a g.table g.physical).0
  pub finds : (k : Kernel) (a : ℕ) → low ≤ a → a ≤ high → Ready k → Ready (present_page k a).0
  pub places :
      (k : Kernel) (a : ℕ) (page : Page)
      → low ≤ a
      → a ≤ high
      → Ready k
      → has_table k (table_index a) ≡ true
      → Ready (record k {
        tables =
            put_at k.tables
              (k.directory.page_tables (table_index a))
              (put_at (k.tables (k.directory.page_tables (table_index a))) (entry_index a) page);
      })

-- The kernel once the table is there.
pub record Got (Ready : Kernel → Type 0) (kept : ℕ → Bool) (k : Kernel) (a : ℕ) (k' : Kernel)
    : Type 0 where
  pub ready : Ready k'
  pub returns :
      get_page k a true ≡ ok (k', (k'.directory.page_tables (table_index a), entry_index a))
  pub there : has_table k' (table_index a) ≡ true
  pub apart : Apart k'
  pub view : (b : ℕ) → page_at k' b ≡ page_at k b
  pub same_mem : (b : ℕ) → kept b ≡ true → k'.mem b ≡ k.mem b
  pub bytes : IsBytes k.mem → IsBytes k'.mem

module _ (k : Kernel) (a : ℕ) (kept : ℕ → Bool) (missing : has_table k (table_index a) ≡ false)
    (g : GivesTable kept k) where
  abbrev entered : Kernel
  entered = (enter_table g.after a g.table g.physical).0

  entered_tables :
      entered.directory.page_tables ≡ put_at k.directory.page_tables (table_index a) g.table
  unfolding enter_table
  entered_tables = ap (λ t. put_at t (table_index a) g.table) g.same_directory

  entered_contents : entered.tables ≡ put_at k.tables g.table (λ entry. zero_page)
  unfolding enter_table
  entered_contents = ap (λ t. put_at t g.table (λ entry. zero_page)) g.same_tables

  entered_here : entered.directory.page_tables (table_index a) ≡ g.table
  entered_here =
      let self : (table_index a == table_index a) ≡ true = eq→== _ _ refl in
      ap (λ t. t (table_index a)) entered_tables ∙ (rw self refl)

  entered_other :
      (i : ℕ) → i ≢ table_index a → entered.directory.page_tables i ≡ k.directory.page_tables i
  entered_other i ne =
      let other : (i == table_index a) ≡ false = ne→== _ _ ne in
      ap (λ t. t i) entered_tables ∙ (rw other refl)

  entered-Apart : Apart k → Apart entered
  entered-Apart apart i j real same = elim (Bool-cases (i == table_index a)) [
    | inl here ↦ elim (Bool-cases (j == table_index a)) [
      | inl here' ↦ ==→eq _ _ here ∙ sym (==→eq _ _ here')
      | inr other ↦ absurd (
          g.fresh j (
            sym (entered_other j (==→ne _ _ other))
            ∙ sym same
            ∙ ap entered.directory.page_tables (==→eq _ _ here)
            ∙ entered_here))
    ]
    | inr other ↦ elim (Bool-cases (j == table_index a)) [
      | inl here ↦ absurd (
          g.fresh i (
            sym (entered_other i (==→ne _ _ other))
            ∙ same
            ∙ ap entered.directory.page_tables (==→eq _ _ here)
            ∙ entered_here))
      | inr other' ↦
          let e = entered_other i (==→ne _ _ other) in
          apart i j (λ z. real (e ∙ z)) (sym e ∙ same ∙ entered_other j (==→ne _ _ other'))
    ]
  ]

  entered_there : has_table entered (table_index a) ≡ true
  entered_there =
      let some_ : (g.table == 0) ≡ false = ne→== _ _ g.real in
      ap (λ t. not (t == 0)) entered_here ∙ (rw some_ refl)

  entered_page :
      (i n : ℕ)
      → (if has_table entered i
          then entered.tables (entered.directory.page_tables i) n
          else zero_page)
        ≡ (if has_table k i then k.tables (k.directory.page_tables i) n else zero_page)
  entered_page i n = elim (Bool-cases (i == table_index a)) [
    | inl here ↦
        let index : i ≡ table_index a = ==→eq _ _ here in
        let self : (g.table == g.table) ≡ true = eq→== _ _ refl in
        let had : has_table k i ≡ false = ap (has_table k) index ∙ missing in
        let has : has_table entered i ≡ true = ap (has_table entered) index ∙ entered_there in
        let empty : entered.tables (entered.directory.page_tables i) n ≡ zero_page =
          ap (λ j. entered.tables (entered.directory.page_tables j) n) index
          ∙ ap (λ t. entered.tables t n) entered_here
          ∙ ap (λ t. t g.table n) entered_contents
          ∙ (rw self refl) in
        rw (has, had) empty
    | inr other ↦
        let differs : (k.directory.page_tables i == g.table) ≡ false = ne→== _ _ (g.fresh i) in
        rw (entered_other i (==→ne _ _ other)) (
          ap (λ t. if has_table k i then t (k.directory.page_tables i) n else zero_page)
            entered_contents
          ∙ (rw differs refl))
  ]

  entered_returns : get_page k a true ≡ ok (entered, (g.table, entry_index a))
  unfolding get_page enter_table
  entered_returns =
      let test : (k.directory.page_tables (table_index a) == 0) ≡ true = ground (arith, missing) in
      rw (get_page, test, g.returns) refl

  entered-Got : {Ready : Kernel → Type 0} → Ready entered → Apart k → Got Ready kept k a entered
  entered-Got ready apart = record {
    ready = ready;
    returns = entered_returns ∙ ap (λ t. ok (entered, (t, entry_index a))) (sym entered_here);
    there = entered_there;
    apart = entered-Apart apart;
    view = λ b. entered_page (table_index b) (entry_index b);
    same_mem = (unfold enter_table in g.same_mem);
    bytes = (unfold enter_table in g.bytes);
  }

present-Got :
    (Ready : Kernel → Type 0) (kept : ℕ → Bool) (k : Kernel) (a : ℕ)
    → Ready (present_page k a).0
    → Apart k
    → has_table k (table_index a) ≡ true
    → Got Ready kept k a (present_page k a).0
unfolding present_page
present-Got Ready kept k a ready apart there = record {
  ready = ready;
  returns = get_page_there k a there;
  there = there;
  apart = apart;
  view = λ b. refl;
  same_mem = λ b h. refl;
  bytes = λ h. h;
}

pub get_page-Got :
    (Ready : Kernel → Type 0) (kept : ℕ → Bool) (low high : ℕ) (k : Kernel) (a : ℕ)
    → Supplies Ready kept low high
    → low ≤ a
    → a ≤ high
    → Ready k
    → Apart k
    → (k' : Kernel) × Got Ready kept k a k'
get_page-Got Ready kept low high k a s lo hi ready apart =
    elim (Bool-cases (has_table k (table_index a))) [
      | inl there ↦
          ((present_page k a).0, present-Got Ready kept k a (s.finds k a lo hi ready) apart there)
      | inr missing ↦
          let (g, ready') = s.gives k a lo hi ready missing in
          (entered k a kept missing g, entered-Got k a kept missing g ready' apart)
    ]
