-- ===== src/Clone/Tables.antt =====
-- clonePageTable with its table, and clonePageDirectory of a directory of shared tables.
use experimental_kernel.Common.{
  ℕ, zero, suc, ◌+◌, ◌*◌, ◌^◌, ◌≤◌, ◌<◌, ◌≡◌, refl, sym, ap, ◌∙◌, ◌≢◌, ◌⊎◌, inl, inr, true, false,
  arith, ◌==◌, if◌then◌else◌, ==→eq, ==→ne, eq→==, ne→==, Bool-cases,
}
use mathlib.Core.Path.{subst}
use experimental_kernel.Heap.{ok}
use experimental_kernel.Paging.{Page}
use experimental_kernel.Paging.Search.{is_busy}
use experimental_kernel.Kmalloc.{Kernel, PageDirectory, put_at, kmalloc, zero_page, table_bytes}
use experimental_kernel.Clone.{
  Copy, Machine, clone_pages, clone_page_table, clone_tables, clone_page_directory, zero_directory,
  directory_bytes,
}
use experimental_kernel.Clone.Pages.{clone_pages-Clones}
use experimental_kernel.Clone.Rounds.{Clones}

-- An empty table, before the loop.
abbrev pub start : Machine → Copy
start m = record { paging = m.paging; pages = λ entry. zero_page; physical = m.physical }

-- The machine after the loop.
abbrev finished : Machine → Kernel → ℕ → Copy → Machine
finished m k table copy = record {
  kernel = record k {
    tables = put_at (put_at k.tables table (λ entry. zero_page)) table copy.pages;
  };
  paging = copy.paging;
  physical = copy.physical;
}

clone_page_table_lem :
    (m : Machine) (src table physical : ℕ) (k : Kernel) (pages empty : ℕ → Page)
    → kmalloc m.kernel table_bytes true true ≡ ok (k, table, physical)
    → put_at k.tables table (λ entry. zero_page) src ≡ pages
    → put_at k.tables table (λ entry. zero_page) table ≡ empty
    → clone_page_table m src
      ≡ ok (
        finished m k table (
            clone_pages 1024 0 pages
              (record { paging = m.paging; pages = empty; physical = m.physical })),
        table,
        physical,
      )
unfolding clone_page_table
clone_page_table_lem m src table physical k pages empty e1 e2 e3 =
    rw (← e2, ← e3, clone_page_table, e1) refl

-- The table and the other tables after clonePageTable.
pub record Cloned (m m' : Machine) (k : Kernel) (src table : ℕ) : Type 0 where
  pub entries :
      Clones
        (k.tables src)
        0
        1024
        (start m)
        (record { paging = m'.paging; pages = m'.kernel.tables table; physical = m'.physical })
  pub others : (t : ℕ) → t ≢ table → m'.kernel.tables t ≡ k.tables t

-- clonePageTable, once kmalloc gives it a table that is not the source, ends with that table and with
-- the clone of each entry in it, and leaves the other tables as they are. Frame 0 and the frames of the
-- source are busy, and the frames fit an entry.
pub clone_page_table-Cloned :
    (m : Machine) (src table physical : ℕ) (k : Kernel)
    → kmalloc m.kernel table_bytes true true ≡ ok (k, table, physical)
    → src ≢ table
    → is_busy m.paging.frames 0 ≡ true
    → ((e : ℕ) → (k.tables src e).frame ≢ 0 → is_busy m.paging.frames (k.tables src e).frame ≡ true)
    → m.paging.frame_number * 32 ≤ 2 ^ 20
    → (m' : Machine) × (clone_page_table m src ≡ ok (m', table, physical)) × Cloned m m' k src table
clone_page_table-Cloned m src table physical k made apart zero_busy held small =
    let tables = put_at k.tables table (λ entry. zero_page) in
    let source : tables src ≡ k.tables src =
      (let other : (src == table) ≡ false = ne→== _ _ apart in rw other refl) in
    let empty : tables table ≡ (λ entry. zero_page) =
      (let self : (table == table) ≡ true = eq→== _ _ refl in rw self refl) in
    let copy = clone_pages 1024 0 (k.tables src) (start m) in
    let kept : put_at tables table copy.pages table ≡ copy.pages =
      (let self : (table == table) ≡ true = eq→== _ _ refl in rw self refl) in
    (
      finished m k table copy,
      clone_page_table_lem m src table physical k (k.tables src) (λ entry. zero_page) made source
          empty,
      record {
        entries =
            subst
              (λ pages.
                Clones (k.tables src) 0 1024 (start m)
                  (record { paging = copy.paging; pages = pages; physical = copy.physical }))
              (sym kept)
              (clone_pages-Clones 1024 0 (k.tables src) (start m) zero_busy held (λ e lo. refl)
                small);
        others = λ t ne. (let other : (t == table) ≡ false = ne→== _ _ ne in rw other refl);
      },
    )

-- The new directory has the shared tables of the indices from `i` up to `i + n`.
pub record Links (src : PageDirectory) (i n : ℕ) (d d' : PageDirectory) : Type 0 where
  pub address : d'.physical_address ≡ d.physical_address
  pub tables :
      (j : ℕ)
      → i ≤ j
      → j < i + n
      → d'.page_tables j ≡ (if src.page_tables j == 0 then d.page_tables j else src.page_tables j)
  pub physical :
      (j : ℕ)
      → i ≤ j
      → j < i + n
      → d'.tables_physical j
        ≡ (if src.page_tables j == 0 then d.tables_physical j else src.tables_physical j)
  pub others :
      (j : ℕ)
      → j < i
      → (d'.page_tables j ≡ d.page_tables j) × (d'.tables_physical j ≡ d.tables_physical j)

-- The directory with the table of index `i`, if there is one.
abbrev linked : PageDirectory → ℕ → PageDirectory → PageDirectory
linked src i d = if src.page_tables i == 0 then d else record d {
  tables_physical = put_at d.tables_physical i (src.tables_physical i);
  page_tables = put_at d.page_tables i (src.page_tables i);
}

-- Each table of the directory is a shared one.
abbrev pub AllShared : (ℕ → ℕ) → PageDirectory → Type 0
AllShared shared src = (i : ℕ) → (src.page_tables i ≡ 0) ⊎ (src.page_tables i ≡ shared i)

clone_tables-linked :
    (left i : ℕ) (shared : ℕ → ℕ) (d : PageDirectory) (m : Machine)
    → AllShared shared m.kernel.directory
    → clone_tables (suc left) i shared d m
      ≡ clone_tables left (i + 1) shared (linked m.kernel.directory i d) m
unfolding clone_tables
clone_tables-linked left i shared d m all =
    elim (Bool-cases (m.kernel.directory.page_tables i == 0)) [
      | inl none_ ↦ rw (clone_tables, none_) refl
      | inr there ↦
          let same : (m.kernel.directory.page_tables i == shared i) ≡ true =
            eq→== _ _ (omega (arith, all i, ==→ne _ _ there)) in
          rw (clone_tables, there, same) refl
    ]

linked_here :
    (src : PageDirectory) (i : ℕ) (d : PageDirectory)
    → ((linked src i d).physical_address ≡ d.physical_address)
      × ((linked src i d).page_tables i
          ≡ (if src.page_tables i == 0 then d.page_tables i else src.page_tables i))
      × ((linked src i d).tables_physical i
          ≡ (if src.page_tables i == 0 then d.tables_physical i else src.tables_physical i))
linked_here src i d = elim (Bool-cases (src.page_tables i == 0)) [
  | inl none_ ↦ rw none_ (refl, refl, refl)
  | inr there ↦ let self : (i == i) ≡ true = eq→== _ _ refl in rw (there, self) (refl, refl, refl)
]

linked_others :
    (src : PageDirectory) (i j : ℕ) (d : PageDirectory)
    → j ≢ i
    → ((linked src i d).page_tables j ≡ d.page_tables j)
      × ((linked src i d).tables_physical j ≡ d.tables_physical j)
linked_others src i j d ne = elim (Bool-cases (src.page_tables i == 0)) [
  | inl none_ ↦ rw none_ (refl, refl)
  | inr there ↦ let other : (j == i) ≡ false = ne→== _ _ ne in rw (there, other) (refl, refl)
]

Links-cons :
    (src : PageDirectory) (i n : ℕ) (d d' : PageDirectory)
    → Links src (i + 1) n (linked src i d) d'
    → Links src i (suc n) d d'
Links-cons src i n d d' l =
    let here = linked_here src i d in
    record {
      address = l.address ∙ here.0;
      tables = λ j lo hi. elim (Bool-cases (i == j)) [
        | inl same ↦
            subst
              (λ j.
                d'.page_tables j
                ≡ (if src.page_tables j == 0 then d.page_tables j else src.page_tables j))
              (==→eq _ _ same) ((l.others i (omega arith)).0 ∙ here.1)
        | inr later ↦
            l.tables j (omega (arith, ==→ne _ _ later)) (omega arith)
            ∙ ap (λ t. if src.page_tables j == 0 then t else src.page_tables j)
                ((linked_others src i j d (λ e. ==→ne _ _ later (sym e))).0)
      ];
      physical = λ j lo hi. elim (Bool-cases (i == j)) [
        | inl same ↦
            subst
              (λ j.
                d'.tables_physical j
                ≡ (if src.page_tables j == 0 then d.tables_physical j else src.tables_physical j))
              (==→eq _ _ same) ((l.others i (omega arith)).1 ∙ here.2)
        | inr later ↦
            l.physical j (omega (arith, ==→ne _ _ later)) (omega arith)
            ∙ ap (λ t. if src.page_tables j == 0 then t else src.tables_physical j)
                ((linked_others src i j d (λ e. ==→ne _ _ later (sym e))).1)
      ];
      others = λ j lt.
          let kept = l.others j (omega arith) in
          let same = linked_others src i j d (omega arith) in (kept.0 ∙ same.0, kept.1 ∙ same.1);
    }

clone_tables-Links :
    (n i : ℕ) (shared : ℕ → ℕ) (d : PageDirectory) (m : Machine)
    → AllShared shared m.kernel.directory
    → (d' : PageDirectory) × (clone_tables n i shared d m ≡ ok (m, d'))
      × Links m.kernel.directory i n d d'
unfolding clone_tables
clone_tables-Links zero i shared d m all = (
  d,
  refl,
  record {
    address = refl;
    tables = λ j lo hi. absurd (omega arith);
    physical = λ j lo hi. absurd (omega arith);
    others = λ j lt. (refl, refl);
  },
)
clone_tables-Links (suc n) i shared d m all =
    let (d', done, l) = clone_tables-Links n (i + 1) shared (linked m.kernel.directory i d) m all in
    (d', clone_tables-linked n i shared d m all ∙ done, Links-cons m.kernel.directory i n d d' l)

-- clonePageDirectory of a directory whose tables are all shared with the kernel's own directory, once
-- kmalloc gives the new one, ends with a directory of the same tables, present where the source has
-- one and zero elsewhere, and changes nothing besides.
pub clone_page_directory-Links :
    (shared : ℕ → ℕ) (m : Machine) (k : Kernel) (address physical : ℕ)
    → kmalloc m.kernel directory_bytes true true ≡ ok (k, address, physical)
    → AllShared shared k.directory
    → (d : PageDirectory) × (clone_page_directory shared m
        ≡ ok (record m { kernel = k }, address, d))
      × Links k.directory 0 1024 (zero_directory physical) d
unfolding clone_page_directory
clone_page_directory-Links shared m k address physical made all =
    let (d, done, l) =
      clone_tables-Links 1024 0 shared (zero_directory physical) (record m { kernel = k }) all in
    (d, rw (clone_page_directory, made, done) refl, l)
