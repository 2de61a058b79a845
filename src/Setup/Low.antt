-- ===== src/Setup/Low.antt =====
-- The loop over the low memory.
use experimental_kernel.Common.{
  ℕ, zero, suc, ◌+◌, ◌-◌, ◌*◌, ◌/◌, ◌%◌, ◌^◌, ◌≤◌, ◌<◌, ◌≡◌, refl, ap, ◌∙◌, true, false, ◌||◌,
  arith, ltb, ◌==◌, lt→ltb, ◌+ʷ◌,
}
use mathlib.Core.Path.{subst}
use experimental_kernel.Heap.{ok, page_size}
use experimental_kernel.Kmalloc.{table_index, round_up}
use experimental_kernel.Clone.{Machine}
use experimental_kernel.Setup.{alloc_page, map_low}
use experimental_kernel.Setup.Pages.{has_table, page_at, IsEarly}
use experimental_kernel.Setup.Grant.{BusyTo, Grants, alloc_page-Grants}
use experimental_kernel.Setup.Fill.{
  Filled, Filled-nil, Filled-cons, SameTables, SameTables-trans, IsBlank, alloc_page-IsBlank,
}

-- The number of pages up to the placement address, and one more.
abbrev pub low_pages : ℕ → ℕ
low_pages placement = placement / 4096 + 1

map_low-next :
    (fuel address : ℕ) (m m1 : Machine)
    → address < m.kernel.placement_address + page_size
    → m.kernel.placement_address + page_size < 2 ^ 32
    → alloc_page address m ≡ ok m1
    → map_low (suc fuel) address m ≡ map_low fuel (address + page_size) m1
unfolding map_low
map_low-next fuel address m m1 inside small e =
    let go : ltb address (m.kernel.placement_address +ʷ page_size) ≡ true =
      lt→ltb _ _ (omega (arith, inside, small)) in
    rw (map_low, go, e) refl

map_low-end :
    (fuel address : ℕ) (m : Machine)
    → m.kernel.placement_address + page_size ≤ address
    → m.kernel.placement_address + page_size < 2 ^ 32
    → map_low (suc fuel) address m ≡ ok m
unfolding map_low
map_low-end fuel address m past small =
    let stop : ltb address (m.kernel.placement_address +ʷ page_size) ≡ false =
      ground (arith, past, small) in
    rw (map_low, stop) refl

-- The pages from number `q` on, once their table is there.
map_low-rest :
    (fuel l q n : ℕ) (m : Machine)
    → l < fuel
    → q + l ≡ low_pages m.kernel.placement_address
    → m.kernel.placement_address % 4096 ≡ 0
    → IsEarly m.kernel
    → m.kernel.placement_address + 8192 < 2 ^ 32
    → BusyTo m.paging n
    → IsBlank m.kernel q l
    → (m' : Machine) × (map_low fuel (4096 * q) m ≡ ok m')
      × Filled m q l n m'
      × SameTables m.kernel m'.kernel
map_low-rest zero l q n m more count whole e room b blank = absurd (omega arith)
map_low-rest (suc fuel) zero q n m more count whole e room b blank = (
  m,
  map_low-end fuel (4096 * q) m (omega (arith, count, whole)) (omega (arith, room)),
  Filled-nil m q n e b,
  record { tables = λ i. refl; placement = refl },
)
map_low-rest (suc fuel) (suc l) q n m more count whole e room b blank =
    let (m1, done, g, same, blank') = alloc_page-IsBlank l q n m e room b blank in
    let (m', rest, f, same') =
      map_low-rest fuel l (q + 1) (n + 1) m1 (omega arith)
        (omega (arith, count, ap low_pages same.placement))
        (ap (λ t. t % 4096) same.placement ∙ whole) g.is_early (omega (arith, room, same.placement))
        g.busy blank' in
    let next : 4096 * q + page_size ≡ 4096 * (q + 1) = omega arith in
    (
      m',
      map_low-next fuel (4096 * q) m m1 (omega (arith, count, whole)) (omega (arith, room)) done
          ∙ ap (λ a. map_low fuel a m1) next
          ∙ rest,
      Filled-cons m m1 m' q l n g f,
      SameTables-trans m.kernel m1.kernel m'.kernel same same',
    )

-- The loop once the page of address 0 has made the first table.
map_low-first :
    (fuel : ℕ) (m m1 : Machine)
    → 1023 < fuel
    → Grants m 0 0 m1
    → m1.kernel.placement_address % 4096 ≡ 0
    → m1.kernel.placement_address + 4096 < 0x400000
    → ((b : ℕ) → (page_at m.kernel b).frame ≡ 0)
    → (m' : Machine) × (map_low fuel 4096 m1 ≡ ok m')
      × Filled m 0 (low_pages m'.kernel.placement_address) 0 m'
      × SameTables m1.kernel m'.kernel
map_low-first fuel m m1 more g whole bound empty =
    let l = low_pages m1.kernel.placement_address - 1 in
    let (m', rest, f, same) =
      map_low-rest fuel l 1 1 m1 (omega (arith, more, bound)) (omega arith) whole g.is_early
        (omega (arith, bound)) g.busy
        (record {
          tabled = λ j lt.
              let index : table_index (4096 * (1 + j)) ≡ 0 = omega (arith, lt, bound) in
              ap (has_table m1.kernel) index ∙ g.tables 0;
          empty = λ j lt.
              ap (λ p. p.frame) (g.others (4096 * (1 + j)) (omega arith)) ∙ empty (4096 * (1 + j));
        }) in
    let count : suc l ≡ low_pages m'.kernel.placement_address =
      omega (arith, ap low_pages same.placement) in
    (m', rest, subst (λ k. Filled m 0 k 0 m') count (Filled-cons m m1 m' 0 l 0 g f), same)

-- The loop from address 0 on, where the first table is still missing and the tables fit below 4 MB.
pub map_low-Filled :
    (fuel : ℕ) (m : Machine)
    → 1024 < fuel
    → IsEarly m.kernel
    → m.kernel.placement_address + 12288 < 0x400000
    → has_table m.kernel 0 ≡ false
    → BusyTo m.paging 0
    → ((b : ℕ) → (page_at m.kernel b).frame ≡ 0)
    → (m' : Machine) × (map_low fuel 0 m ≡ ok m')
      × Filled m 0 (low_pages m'.kernel.placement_address) 0 m'
      × (m'.kernel.placement_address ≡ round_up true m.kernel.placement_address + 4096)
      × ((i : ℕ) → has_table m'.kernel i ≡ (i == 0 || has_table m.kernel i))
map_low-Filled zero m more e room missing b empty = absurd (omega arith)
map_low-Filled (suc fuel) m more e room missing b empty =
    let (m1, done, g) = alloc_page-Grants m 0 0 e (omega (arith, room)) b (empty 0) in
    let p1 : m1.kernel.placement_address ≡ round_up true m.kernel.placement_address + 4096 =
      g.placement ∙ (rw missing refl) in
    let (m', rest, f, same) =
      map_low-first fuel m m1 (omega (arith, more)) g (ground (arith, p1, room))
        (ground (arith, p1, room)) empty in
    (
      m',
      map_low-next fuel 0 m m1 (omega arith) (omega (arith, room)) done ∙ rest,
      f,
      same.placement ∙ p1,
      λ i. same.tables i ∙ g.tables i,
    )
