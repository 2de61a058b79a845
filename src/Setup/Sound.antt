-- ===== src/Setup/Sound.antt =====
-- The directory that initialisePaging leaves, as the processor walks it, and the bitmap in front of it.
use experimental_kernel.Common.{
  ℕ, ◌+◌, ◌*◌, ◌/◌, ◌%◌, ◌^◌, ◌≤◌, ◌<◌, ◌≡◌, refl, false, true, arith, ltb, Bool-cases, inl, inr,
}
use native.Mathlib.Nat.{zero-div}
use experimental_kernel.Heap.{ok, page_size}
use experimental_kernel.Paging.{alloc_frame}
use experimental_kernel.Kmalloc.{Kernel, PagePtr, get_page}
use experimental_kernel.Clone.{Machine}
use experimental_kernel.Setup.{alloc_page, map_kernel, bitmap_bytes, initial_size}
use experimental_kernel.Setup.Grant.{placed_page, alloc_page_lem}
use experimental_kernel.Setup.Touch.{prepared, prepare_lem}
use experimental_kernel.Setup.Walk.{Walks, get_page-Walks}
use experimental_kernel.Setup.Bitmap.{GivenTo, GivenTo-more, alloc_frame-GivenTo, word_count}
use experimental_kernel.Setup.Rounds.{Holds, map_kernel-keeps}

-- The processor reaches the tables, and, up to the frames that have words of their own, at most `n` frames
-- have been given.
pub record Sound (frames : ℕ → ℕ) (n : ℕ) (m : Machine) : Type 0 where
  pub walks : Walks m.kernel
  pub given : n ≤ word_count * 32 → GivenTo frames n m.paging

Sound-more : (frames : ℕ → ℕ) (n : ℕ) (m : Machine) → Sound frames n m → Sound frames (n + 1) m
Sound-more frames n m s = record {
  walks = s.walks;
  given = λ le. GivenTo-more frames n m.paging (s.given (omega (arith, le)));
}

get_page-Sound :
    (frames : ℕ → ℕ) (n a : ℕ) (m : Machine)
    → Sound frames n m
    → (k : Kernel) × (place : PagePtr) × (get_page m.kernel a true ≡ ok (k, place))
      × Sound frames n (record m { kernel = k })
get_page-Sound frames n a m s =
    let (k, place, got, w) = get_page-Walks m.kernel a s.walks in
    (k, place, got, record { walks = w; given = s.given })

alloc_page-Sound :
    (frames : ℕ → ℕ) (n a : ℕ) (m : Machine)
    → Sound frames n m
    → (m' : Machine) × (alloc_page a m ≡ ok m') × Sound frames (n + 1) m'
alloc_page-Sound frames n a m s =
    let (k, (table, entry), got, w) = get_page-Walks m.kernel a s.walks in
    let page = k.tables table entry in
    (
      placed_page m k table entry (alloc_frame m.paging page false true),
      alloc_page_lem m a table entry k page got refl,
      record {
        walks = record { early = w.early; whole = w.whole; word = w.word };
        given = λ le.
            alloc_frame-GivenTo frames n m.paging page (omega (arith, le))
              (s.given (omega (arith, le)));
      },
    )

prepared-Sound :
    (m : Machine)
    → m.kernel.heap.enabled ≡ false
    → ((w : ℕ) → bitmap_bytes / 4 ≤ w → w < word_count → m.paging.frames w ≡ 0)
    → Sound m.paging.frames 0 (prepared m)
prepared-Sound m early clear = record {
  walks = record { early = early; whole = λ i. refl; word = λ i real. absurd (real refl) };
  given = λ le. record {
    number = refl;
    last = 0;
    few = omega arith;
    busy = λ f lt.
        let empty : 0 / 2 ^ (f % 32) ≡ 0 = zero-div (2 ^ (f % 32)) in
        elim (Bool-cases (ltb (f / 32) (bitmap_bytes / 4))) [
          | inl inside ↦ rw inside (ground (arith, empty))
          | inr behind ↦
              let word : m.paging.frames (f / 32) ≡ 0 =
                clear (f / 32) (ground (arith, behind)) (omega (arith, lt)) in
              rw (behind, word) (ground (arith, empty))
        ];
    kept = λ w behind.
        let past : ltb w (bitmap_bytes / 4) ≡ false = ground (arith, behind) in rw past refl;
  };
}

-- All of initialisePaging up to the switch, with the words behind the bitmap clear.
pub map_kernel-Sound :
    (fuel : ℕ) (m : Machine)
    → m.kernel.heap.enabled ≡ false
    → m.kernel.placement_address + 65536 < 2 ^ 32
    → ((w : ℕ) → bitmap_bytes / 4 ≤ w → w < word_count → m.paging.frames w ≡ 0)
    → Holds (Sound m.paging.frames (fuel + initial_size / page_size)) (map_kernel fuel m)
map_kernel-Sound fuel m early room clear =
    map_kernel-keeps (Sound m.paging.frames) (Sound-more m.paging.frames)
      (get_page-Sound m.paging.frames) (alloc_page-Sound m.paging.frames) fuel m (prepared m)
      (prepare_lem m early room) (prepared-Sound m early clear)
