-- ===== src/Setup/Rounds.antt =====
-- What each getPage and each allocFrame keeps, the loops of initialisePaging keep.
use experimental_kernel.Common.{
  ℕ, zero, suc, ◌+◌, ◌/◌, ◌≤◌, ◌≡◌, refl, inl, inr, true, arith, ltb, Bool-cases, ◌+ʷ◌,
}
use mathlib.Core.Path.{subst}
use experimental_kernel.Heap.{Run, ok, hang, page_size}
use experimental_kernel.Kmalloc.{Kernel, PagePtr, get_page}
use experimental_kernel.Clone.{Machine}
use experimental_kernel.Setup.{
  alloc_page, alloc_pages, touch_pages, map_low, map_kernel, prepare, heap_start, initial_size,
}

-- A property of the machine, where there is no hang.
abbrev pub Holds : (Machine → Type 0) → Run Machine → Type 0
Holds P hang = Unit
Holds P (ok m) = P m

-- A property with a bound on the calls of allocFrame, which each of them moves up by one.
module _ (P : ℕ → Machine → Type 0) (more : (n : ℕ) (m : Machine) → P n m → P (n + 1) m)
    (touch : (n a : ℕ) (m : Machine)
      → P n m
      → (k : Kernel) × (place : PagePtr) × (get_page m.kernel a true ≡ ok (k, place))
        × P n (record m { kernel = k }))
    (alloc : (n a : ℕ) (m : Machine)
      → P n m
      → (m' : Machine) × (alloc_page a m ≡ ok m') × P (n + 1) m') where
  touch_pages-keeps :
      (left a n : ℕ) (m : Machine)
      → P n m
      → (m' : Machine) × (touch_pages left a m ≡ ok m') × P n m'
  unfolding touch_pages
  touch_pages-keeps zero a n m p = (m, refl, p)
  touch_pages-keeps (suc left) a n m p =
      let (k, place, got, p1) = touch n a m p in
      let (m', rest, p') = touch_pages-keeps left (a + page_size) n (record m { kernel = k }) p1 in
      (m', (rw (touch_pages, got) rest), p')

  alloc_pages-keeps :
      (left a n : ℕ) (m : Machine)
      → P n m
      → (m' : Machine) × (alloc_pages left a m ≡ ok m') × P (n + left) m'
  unfolding alloc_pages
  alloc_pages-keeps zero a n m p = (m, refl, subst (λ i. P i m) (omega arith) p)
  alloc_pages-keeps (suc left) a n m p =
      let (m1, done, p1) = alloc n a m p in
      let (m', rest, p') = alloc_pages-keeps left (a + page_size) (n + 1) m1 p1 in
      (m', (rw (alloc_pages, done) rest), subst (λ i. P i m') (omega arith) p')

  more_of : (d n : ℕ) (m : Machine) → P n m → P (n + d) m
  more_of zero n m p = subst (λ i. P i m) (omega arith) p
  more_of (suc d) n m p = subst (λ i. P i m) (omega arith) (more_of d (n + 1) m (more n m p))

  map_low-keeps : (fuel a n : ℕ) (m : Machine) → P n m → Holds (P (n + fuel)) (map_low fuel a m)
  unfolding map_low
  map_low-keeps zero a n m p = tt
  map_low-keeps (suc fuel) a n m p =
      elim (Bool-cases (ltb a (m.kernel.placement_address +ʷ page_size))) [
        | inr stop ↦ rw (map_low, stop) (more_of (suc fuel) n m p)
        | inl go ↦
            let (m1, done, p1) = alloc n a m p in
            let rest : Holds (P (n + 1 + fuel)) (map_low fuel (a + page_size) m1) =
              map_low-keeps fuel (a + page_size) (n + 1) m1 p1 in
            rw (map_low, go, done)
              (subst (λ i. Holds (P i) (map_low fuel (a + page_size) m1)) (omega arith) rest)
      ]

  -- All loops, from what the bitmap and the directory are prepared to.
  pub map_kernel-keeps :
      (fuel : ℕ) (m m1 : Machine)
      → prepare m ≡ ok m1
      → P 0 m1
      → Holds (P (fuel + initial_size / page_size)) (map_kernel fuel m)
  unfolding map_kernel
  map_kernel-keeps fuel m m1 e p =
      let (m2, touched, p2) = touch_pages-keeps (initial_size / page_size) heap_start 0 m1 p in
      rw (map_kernel, e, touched) (after (map_low fuel 0 m2) (map_low-keeps fuel 0 0 m2 p2))
    where
      after :
          (r : Run Machine)
          → Holds (P (0 + fuel)) r
          → Holds (P (fuel + initial_size / page_size)) (elim r [
            | hang ↦ hang
            | ok m3 ↦ alloc_pages (initial_size / page_size) heap_start m3
          ])
      after hang h = tt
      after (ok m3) h =
          let (m', done, p') =
            alloc_pages-keeps (initial_size / page_size) heap_start (0 + fuel) m3 h in
          rw done (subst (λ i. P i m') (omega arith) p')

map_low-more :
    (fuel fuel' a : ℕ) (m m' : Machine)
    → fuel ≤ fuel'
    → map_low fuel a m ≡ ok m'
    → map_low fuel' a m ≡ ok m'
unfolding map_low
map_low-more zero fuel' a m m' le e = absurd (cc)
map_low-more (suc fuel) zero a m m' le e = absurd (omega arith)
map_low-more (suc fuel) (suc fuel') a m m' le e =
    elim (Bool-cases (ltb a (m.kernel.placement_address +ʷ page_size))) [
      | inr stop ↦ rw (map_low, stop) (rw (map_low, stop) at e)
      | inl go ↦
          rw (map_low, go)
            (next (λ m1. map_low-more fuel fuel' (a + page_size) m1 m' (omega (arith, le)))
              (alloc_page a m) (rw (map_low, go) at e))
    ]
  where
    next :
        ((m1 : Machine)
          → map_low fuel (a + page_size) m1 ≡ ok m'
          → map_low fuel' (a + page_size) m1 ≡ ok m')
        → (r : Run Machine)
        → (elim r [ hang ↦ hang | ok m1 ↦ map_low fuel (a + page_size) m1 ]) ≡ ok m'
        → (elim r [ hang ↦ hang | ok m1 ↦ map_low fuel' (a + page_size) m1 ]) ≡ ok m'
    next later hang h = h
    next later (ok m1) h = later m1 h

-- More fuel changes no result.
pub map_kernel-more :
    (fuel fuel' : ℕ) (m m' : Machine)
    → fuel ≤ fuel'
    → map_kernel fuel m ≡ ok m'
    → map_kernel fuel' m ≡ ok m'
unfolding map_kernel
map_kernel-more fuel fuel' m m' le e = prepared_ (prepare m) e
  where
    mapped_ :
        (m2 : Machine) (r r' : Run Machine)
        → ((m3 : Machine) → r ≡ ok m3 → r' ≡ ok m3)
        → (elim r [ hang ↦ hang | ok m3 ↦ alloc_pages (initial_size / page_size) heap_start m3 ])
          ≡ ok m'
        → (elim r' [ hang ↦ hang | ok m3 ↦ alloc_pages (initial_size / page_size) heap_start m3 ])
          ≡ ok m'
    mapped_ m2 hang r' same h = absurd (cc)
    mapped_ m2 (ok m3) r' same h = rw (same m3 refl) h

    touched_ :
        (r : Run Machine)
        → (elim r [
          | hang ↦ hang
          | ok m2 ↦ elim (map_low fuel 0 m2) [
            | hang ↦ hang
            | ok m3 ↦ alloc_pages (initial_size / page_size) heap_start m3
          ]
        ])
          ≡ ok m'
        → (elim r [
          | hang ↦ hang
          | ok m2 ↦ elim (map_low fuel' 0 m2) [
            | hang ↦ hang
            | ok m3 ↦ alloc_pages (initial_size / page_size) heap_start m3
          ]
        ])
          ≡ ok m'
    touched_ hang h = h
    touched_ (ok m2) h =
        mapped_ m2 (map_low fuel 0 m2) (map_low fuel' 0 m2)
          (λ m3. map_low-more fuel fuel' 0 m2 m3 le) h

    prepared_ :
        (r : Run Machine)
        → (elim r [
          | hang ↦ hang
          | ok m1 ↦ elim (touch_pages (initial_size / page_size) heap_start m1) [
            | hang ↦ hang
            | ok m2 ↦ elim (map_low fuel 0 m2) [
              | hang ↦ hang
              | ok m3 ↦ alloc_pages (initial_size / page_size) heap_start m3
            ]
          ]
        ])
          ≡ ok m'
        → (elim r [
          | hang ↦ hang
          | ok m1 ↦ elim (touch_pages (initial_size / page_size) heap_start m1) [
            | hang ↦ hang
            | ok m2 ↦ elim (map_low fuel' 0 m2) [
              | hang ↦ hang
              | ok m3 ↦ alloc_pages (initial_size / page_size) heap_start m3
            ]
          ]
        ])
          ≡ ok m'
    prepared_ hang h = h
    prepared_ (ok m1) h = touched_ (touch_pages (initial_size / page_size) heap_start m1) h
