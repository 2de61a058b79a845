-- ===== src/Clone.antt =====
-- clonePageTable and clonePageDirectory of source/paging_management.cpp. Physical memory is a function
-- of the frame and the offset in it; copy_page_physical, assembly, copies one frame over another.
pub mod Rounds
pub mod Pages
pub mod Tables
pub mod Tests
use experimental_kernel.Common.{
  ℕ, zero, suc, ◌+◌, ◌-◌, ◌*◌, ◌/◌, ◌%◌, ◌^◌, ◌≤◌, ◌<◌, min, max, bit_and, bit_or, ◌≡◌, refl, sym,
  ap, ◌∙◌, fun_ext, ◌≢◌, ◌↔◌, ◌⊎◌, inl, inr, Bool, true, false, not, ◌&&◌, ◌||◌, Option, none, some,
  List, [], ◌∷◌, ◌++◌, map, arith, ltb, leb, ◌==◌, if◌then◌else◌, lt→ltb, le→ltb, ltb→lt, ltb→le,
  ==→eq, ==→ne, eq→==, ne→==, Bool-cases, Option-cases, u32, u16, u8, ◌+ʷ◌, ◌-ʷ◌, length, get_elem?,
  get_or, set, replicate, length-append,
}
use experimental_kernel.Heap.{Run, ok, hang}
use experimental_kernel.Paging.{Page, Paging, alloc_frame}
use experimental_kernel.Kmalloc.{Kernel, PageDirectory, put_at, kmalloc, zero_page, table_bytes}

-- The bitmap, the entries of the new table, and the frames of physical memory.
pub record Copy : Type 0 where
  pub paging : Paging
  pub pages : ℕ → Page
  pub physical : ℕ → ℕ → ℕ

-- One entry: a frame of its own, the fields of the source, and the bytes of its frame.
unfoldable pub clone_page : Page → ℕ → Copy → Copy
clone_page src i s =
    if src.frame == 0
    then s
    else (let r = alloc_frame s.paging (s.pages i) false true in
        let page : Page = record src { frame = r.1.frame } in
        record {
          paging = r.0;
          pages = put_at s.pages i page;
          physical = put_at s.physical page.frame (s.physical src.frame);
        })

-- The loop of clonePageTable from entry `i`, with `left` rounds left.
unfoldable pub clone_pages : ℕ → ℕ → (ℕ → Page) → Copy → Copy
clone_pages zero i src s = s
clone_pages (suc left) i src s = clone_pages left (i + 1) src (clone_page (src i) i s)

-- The kernel, with the bitmap and physical memory.
pub record Machine : Type 0 where
  pub kernel : Kernel
  pub paging : Paging
  pub physical : ℕ → ℕ → ℕ

-- clonePageTable of the table at `src`: the machine, the new table and its physical address.
unfoldable pub clone_page_table : Machine → ℕ → Run (Machine × ℕ × ℕ)
clone_page_table m src = elim (kmalloc m.kernel table_bytes true true) [
  | hang ↦ hang
  | ok (k, table, physical) ↦
      let tables = put_at k.tables table (λ entry. zero_page) in
      let copy =
        clone_pages 1024 0 (tables src)
          (record { paging = m.paging; pages = tables table; physical = m.physical }) in
      ok (
        record {
          kernel = record k { tables = put_at tables table copy.pages };
          paging = copy.paging;
          physical = copy.physical;
        },
        table,
        physical,
      )
]

-- sizeof(PageDirectory): twice 1024 words, and the physical address.
abbrev pub directory_bytes : ℕ
directory_bytes = 8196

abbrev pub zero_directory : ℕ → PageDirectory
zero_directory physical = record {
  tables_physical = λ i. 0;
  page_tables = λ i. 0;
  physical_address = physical;
}

-- The loop of clonePageDirectory over the current directory, from index `i` with `left` rounds left.
-- `shared` are the tables of `pageDirectory_`, and `d` is the new directory.
unfoldable pub clone_tables :
    ℕ → ℕ → (ℕ → ℕ) → PageDirectory → Machine → Run (Machine × PageDirectory)
clone_tables zero i shared d m = ok (m, d)
clone_tables (suc left) i shared d m =
    let src = m.kernel.directory in
    elim (src.page_tables i == 0) [
      | true ↦ clone_tables left (i + 1) shared d m
      | false ↦ elim (src.page_tables i == shared i) [
        | true ↦
            clone_tables left (i + 1) shared
              (record d {
                tables_physical = put_at d.tables_physical i (src.tables_physical i);
                page_tables = put_at d.page_tables i (src.page_tables i);
              })
              m
        | false ↦
            let marked = record src {
              tables_physical = put_at src.tables_physical i (bit_or (src.tables_physical i) 7);
            } in
            elim (clone_page_table (record m { kernel = record (m.kernel) { directory = marked } })
              (src.page_tables i)) [
                | hang ↦ hang
                | ok (m', table, physical) ↦
                    clone_tables left (i + 1) shared
                      (record d {
                        tables_physical = put_at d.tables_physical i (bit_or physical 7);
                        page_tables = put_at d.page_tables i table;
                      })
                      m'
              ]
      ]
    ]

-- clonePageDirectory of the current directory: the machine, the address of the new directory, and the
-- directory.
unfoldable pub clone_page_directory : (ℕ → ℕ) → Machine → Run (Machine × ℕ × PageDirectory)
clone_page_directory shared m = elim (kmalloc m.kernel directory_bytes true true) [
  | hang ↦ hang
  | ok (k, address, physical) ↦
      elim (clone_tables 1024 0 shared (zero_directory physical) (record m { kernel = k })) [
        | hang ↦ hang
        | ok (m', d) ↦ ok (m', address, d)
      ]
]
