-- ===== src/Kmalloc/Lookup.antt =====
-- getPage: the table and entry that an address leads to.
use experimental_kernel.Common.{
  ℕ, ◌/◌, ◌≡◌, ◌≢◌, refl, arith, Bool, true, false, ◌==◌, bit_or, ne→==, eq→==, ◌↔◌,
}
use experimental_kernel.Heap.{ok, hang, page_size}
use experimental_kernel.Kmalloc.{
  Kernel, get_page, kmalloc, enter_table, present_page, table_index, entry_index, zero_page,
  table_bytes,
}

-- Two addresses have the same table and entry exactly when they are in the same page.
page_place_iff :
    (a b : ℕ)
    → ((table_index a ≡ table_index b) × (entry_index a ≡ entry_index b))
      ↔ (a / page_size ≡ b / page_size)
page_place_iff a b = (λ h. omega (arith, h), λ h. (omega arith, omega arith))

-- Where the table is missing, getPage makes one with kmalloc: all its entries are zero, it is entered
-- for the address as present, and the address's page is found in it from then on, with or without
-- leave to make a table.
pub get_page_made :
    (k k' : Kernel) (address table physical : ℕ) (make : Bool)
    → k.directory.page_tables (table_index address) ≡ 0
    → kmalloc k table_bytes true true ≡ ok (k', table, physical)
    → table ≢ 0
    → (k'' : Kernel) × (get_page k address true ≡ ok (k'', (table, entry_index address)))
      × ((entry : ℕ) → k''.tables table entry ≡ zero_page)
      × (k''.directory.tables_physical (table_index address) ≡ bit_or physical 7)
      × (k''' : Kernel) × (get_page k'' address make ≡ ok (k''', (table, entry_index address)))
      × ((t entry : ℕ) → k'''.tables t entry ≡ k''.tables t entry)
unfolding get_page enter_table present_page
get_page_made k k' address table physical make missing made real =
    let self : (table_index address == table_index address) ≡ true = eq→== _ _ refl in
    (
      (enter_table k' address table physical).0,
      rw (get_page, eq→== _ _ missing, made) refl,
      λ entry. rw (eq→== table table refl),
      rw self,
      (present_page (enter_table k' address table physical).0 address).0,
      rw (get_page, self, ne→== table 0 real) refl,
      λ t entry. refl,
    )

-- Without a table and without leave to make one, getPage hangs.
pub get_page-hang :
    (k : Kernel) (address : ℕ)
    → k.directory.page_tables (table_index address) ≡ 0
    → get_page k address false ≡ hang
unfolding get_page
get_page-hang k address missing = rw (get_page, eq→== _ _ missing)
