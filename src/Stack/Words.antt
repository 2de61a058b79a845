-- ===== src/Stack/Words.antt =====
-- The words that changeStack copies, once the pages of the new stack are there.
use experimental_kernel.Common.{
  ℕ, ◌+◌, ◌-◌, ◌*◌, ◌/◌, ◌%◌, ◌^◌, ◌<◌, ◌≤◌, ◌≡◌, ◌⊎◌, inr, refl, sym, ap, ◌∙◌, arith, true, false,
  if◌then◌else◌, ◌+ʷ◌, ◌-ʷ◌,
}
use experimental_kernel.Memory.{Mem, read32, memcpy}
use experimental_kernel.Memory.Bytes.{within, memcpy-within}
use experimental_kernel.Heap.{ok}
use experimental_kernel.Clone.{Machine}
use experimental_kernel.Stack.{grant_pages, rebase, change_stack}
use experimental_kernel.Stack.Supply.{IsBytes}
use experimental_kernel.Stack.Rebase.{moved, change, Rebased, rebase-Rebased}

-- The old stack is between `old_esp` and `initial_esp`, below the new one, which has room for it and ends
-- inside the address space.
pub record CanMove (old_esp old_ebp initial_esp start size : ℕ) : Type 0 where
  pub esp : old_esp ≤ old_ebp
  pub ebp : old_ebp ≤ initial_esp
  pub room : initial_esp - old_esp < size
  pub whole : size % 4 ≡ 0
  pub apart : initial_esp + size ≤ start
  pub low : 4096 + size ≤ start
  pub high : start + 4 < 2 ^ 32

-- The words of the old stack stand at the same distance from the new start, and those that point into the
-- old stack point into the new one. Outside the new stack and the word at its start no byte changes.
pub record Moves (mem : Mem) (old_esp initial_esp start size : ℕ) (mem' : Mem) : Type 0 where
  pub words :
      (j : ℕ)
      → 0 < j
      → 4 * j ≤ initial_esp - old_esp
      → read32 mem' (start - 4 * j)
        ≡ moved old_esp initial_esp start (read32 mem (initial_esp - 4 * j))
  pub others : (a : ℕ) → (a < start - size) ⊎ (start + 4 ≤ a) → mem' a ≡ mem a

module _ (mem0 : Mem) (old_esp old_ebp initial_esp start size : ℕ) (bytes : IsBytes mem0)
    (c : CanMove old_esp old_ebp initial_esp start size) where
  abbrev copied : Mem → Mem
  copied mem = memcpy (start +ʷ (old_esp -ʷ initial_esp)) old_esp (initial_esp -ʷ old_esp) mem

  pub new_address :
      (a : ℕ) → a ≤ initial_esp → start +ʷ (a -ʷ initial_esp) ≡ start - (initial_esp - a)
  new_address a le = ground (arith, le, c.apart, c.high)

  copied_place :
      (mem : Mem)
      → copied mem ≡ memcpy (start - (initial_esp - old_esp)) old_esp (initial_esp - old_esp) mem
  copied_place mem =
      let le : old_esp ≤ initial_esp = omega (arith, c.esp, c.ebp) in
      let count : initial_esp -ʷ old_esp ≡ initial_esp - old_esp =
        ground (arith, le, c.apart, c.high) in
      ap (λ d. memcpy d old_esp (initial_esp -ʷ old_esp) mem) (new_address old_esp le)
      ∙ ap (λ n. memcpy (start - (initial_esp - old_esp)) old_esp n mem) count

  copied_byte :
      (x : ℕ)
      → copied mem0 x ≡ (
          if within (start - (initial_esp - old_esp)) (initial_esp - old_esp) x
          then mem0 (old_esp + (x - (start - (initial_esp - old_esp))))
          else mem0 x)
  copied_byte x =
      ap (λ t. t x) (copied_place mem0)
      ∙ memcpy-within (start - (initial_esp - old_esp)) old_esp (initial_esp - old_esp) mem0 bytes
          (omega (arith, c.apart, c.high)) (omega (arith, c.apart, c.high, c.esp, c.ebp))
          (inr (omega (arith, c.apart, c.esp, c.ebp, c.room))) x

  copied_inside :
      (x : ℕ)
      → start - (initial_esp - old_esp) ≤ x
      → x < start
      → copied mem0 x ≡ mem0 (initial_esp - (start - x))
  copied_inside x lo hi =
      let inside : within (start - (initial_esp - old_esp)) (initial_esp - old_esp) x ≡ true =
        ground (arith, lo, hi, c.apart, c.esp, c.ebp) in
      let place : old_esp + (x - (start - (initial_esp - old_esp))) ≡ initial_esp - (start - x) =
        omega (arith, lo, hi, c.apart, c.esp, c.ebp) in
      copied_byte x ∙ (rw (inside, place) refl)

  copied_other : (x : ℕ) → (x < start - size) ⊎ (start ≤ x) → copied mem0 x ≡ mem0 x
  copied_other x out =
      let outside : within (start - (initial_esp - old_esp)) (initial_esp - old_esp) x ≡ false =
        ground (arith, out, c.apart, c.esp, c.ebp, c.room, c.low) in
      copied_byte x ∙ (rw outside refl)

  copied_word :
      (j : ℕ)
      → 0 < j
      → 4 * j ≤ initial_esp - old_esp
      → read32 (copied mem0) (start - 4 * j) ≡ read32 mem0 (initial_esp - 4 * j)
  unfolding read32
  copied_word j some_ le =
      omega (arith, first, at 1 (omega arith), at 2 (omega arith), at 3 (omega arith))
    where
      first : copied mem0 (start - 4 * j) ≡ mem0 (initial_esp - 4 * j)
      first =
          copied_inside (start - 4 * j) (omega (arith, le, c.apart))
            (omega (arith, le, c.apart, some_, c.room, c.low))
          ∙ ap mem0 (omega (arith, le, c.apart, some_, c.room, c.low))

      at : (i : ℕ) → i < 4 → copied mem0 (start - 4 * j + i) ≡ mem0 (initial_esp - 4 * j + i)
      at i lt =
          copied_inside (start - 4 * j + i) (omega (arith, le, c.apart))
            (omega (arith, le, c.apart, some_, c.room, c.low))
          ∙ ap mem0 (omega (arith, le, c.apart, some_, c.room, c.low))

  Rebased-Moves :
      (mem' : Mem)
      → Rebased old_esp initial_esp start (start - size) (size / 4) (copied mem0) mem'
      → Moves mem0 old_esp initial_esp start size mem'
  Rebased-Moves mem' r = record {
    words = λ j some_ le.
        let place : start - size + 4 * (size / 4 - j) ≡ start - 4 * j =
          omega (arith, c.whole, c.low, c.room, le) in
        ap (read32 mem') (sym place)
        ∙ r.words (size / 4 - j) (omega (arith, le, c.room, c.whole)) (omega arith)
        ∙ ap (λ a. moved old_esp initial_esp start (read32 (copied mem0) a)) place
        ∙ ap (moved old_esp initial_esp start) (copied_word j some_ le);
    others = λ a out.
        r.others a (omega (arith, out, c.whole, c.low)) ∙ copied_other a (omega (arith, out));
  }

  pub change_stack_lem :
      (fuel : ℕ) (m m1 : Machine) (mem' : Mem)
      → grant_pages fuel start (start -ʷ size) m ≡ ok m1
      → mem0 ≡ m1.kernel.mem
      → rebase fuel start (start -ʷ size) (change old_esp initial_esp start) (copied mem0) ≡ ok mem'
      → change_stack fuel m old_esp old_ebp initial_esp start size
        ≡ ok (
          record m1 { kernel = record (m1.kernel) { mem = mem' } },
          start +ʷ (old_esp -ʷ initial_esp),
          start +ʷ (old_ebp -ʷ initial_esp),
        )
  unfolding change_stack
  change_stack_lem fuel m m1 mem' e1 same e2 =
      let e3 : rebase fuel start (start -ʷ size) (change old_esp initial_esp start)
            (copied m1.kernel.mem)
          ≡ ok mem' =
        ap (λ t. rebase fuel start (start -ʷ size) (change old_esp initial_esp start) (copied t))
          (sym same)
        ∙ e2 in
      rw (change_stack, e1, e3) refl

  -- Once the pages are granted, the loop over the words ends.
  pub rebased :
      (fuel : ℕ)
      → size + 1 < fuel
      → (mem' : Mem) × (rebase fuel start
            (start -ʷ size)
            (change old_esp initial_esp start)
            (copied mem0)
          ≡ ok mem')
        × Moves mem0 old_esp initial_esp start size mem'
  rebased fuel more =
      let bottom : start -ʷ size ≡ start - size = ground (arith, c.low, c.high) in
      let top : start - size + 4 * (size / 4) ≡ start = omega (arith, c.low, c.whole) in
      let (mem', moved_, r) =
        rebase-Rebased old_esp initial_esp start fuel (size / 4) (start - size) (copied mem0)
          (omega (arith, more)) (omega (arith, c.apart)) (omega (arith, c.high))
          (omega (arith, top, c.high)) in
      (
        mem',
        ap (λ b. rebase fuel start b (change old_esp initial_esp start) (copied mem0)) bottom
            ∙ ap
                (λ i. rebase fuel i (start - size) (change old_esp initial_esp start) (copied mem0))
                (sym top)
            ∙ moved_,
        Rebased-Moves mem' r,
      )
