-- ===== src/Stack/Rebase.antt =====
-- The loop over the words of the new stack.
use mathlib.Core.Path.{subst}
use experimental_kernel.Common.{
  ℕ, zero, suc, ◌+◌, ◌-◌, ◌*◌, ◌^◌, ◌<◌, ◌≤◌, ◌≡◌, ◌⊎◌, inl, inr, refl, sym, ap, ◌∙◌, arith, ltb,
  true, false, ◌&&◌, if◌then◌else◌, Bool-cases, ◌==◌, ==→eq, ==→ne, ◌+ʷ◌, ◌-ʷ◌, lt→ltb,
}
use experimental_kernel.Memory.{Mem, read32}
use experimental_kernel.Memory.Words.{read32-write32_self, write32_other}
use experimental_kernel.Heap.{ok}
use experimental_kernel.Stack.{rebase, rebase_word}

-- Where a word goes: an address inside the old stack keeps its distance from the start.
abbrev pub moved : ℕ → ℕ → ℕ → ℕ → ℕ
moved old_esp initial_esp start word =
    if ltb old_esp word && ltb word initial_esp then start - (initial_esp - word) else word

module _ (old_esp initial_esp start : ℕ) where
  abbrev pub change : Mem → ℕ → Mem
  change mem i = rebase_word old_esp initial_esp (start -ʷ initial_esp) i mem

  change_here :
      (mem : Mem) (i : ℕ)
      → initial_esp ≤ start
      → start < 2 ^ 32
      → read32 (change mem i) i ≡ moved old_esp initial_esp start (read32 mem i)
  unfolding rebase_word
  change_here mem i above word =
      elim (Bool-cases (ltb old_esp (read32 mem i) && ltb (read32 mem i) initial_esp)) [
        | inl inside ↦
            let sum : read32 mem i +ʷ (start -ʷ initial_esp)
                ≡ start - (initial_esp - read32 mem i) =
              ground (arith, inside, above, word) in
            rw (inside, sum)
              (read32-write32_self mem i (start - (initial_esp - read32 mem i))
                (omega (arith, word)))
        | inr outside ↦ rw outside refl
      ]

  change_other : (mem : Mem) (i a : ℕ) → (a < i) ⊎ (i + 4 ≤ a) → change mem i a ≡ mem a
  unfolding rebase_word
  change_other mem i a away =
      elim (Bool-cases (ltb old_esp (read32 mem i) && ltb (read32 mem i) initial_esp)) [
        | inl inside ↦ rw inside (write32_other mem i _ a (omega (arith, away)))
        | inr outside ↦ rw outside refl
      ]

  -- The `n` words above `bottom` are moved, and no other byte changes.
  pub record Rebased (bottom n : ℕ) (mem mem' : Mem) : Type 0 where
    pub words :
        (j : ℕ)
        → 0 < j
        → j ≤ n
        → read32 mem' (bottom + 4 * j)
          ≡ moved old_esp initial_esp start (read32 mem (bottom + 4 * j))
    pub others : (a : ℕ) → (a < bottom + 4) ⊎ (bottom + 4 * n + 4 ≤ a) → mem' a ≡ mem a

  rebase-stop :
      (fuel i bottom : ℕ) (mem : Mem) → i ≤ bottom → rebase (suc fuel) i bottom change mem ≡ ok mem
  unfolding rebase
  rebase-stop fuel i bottom mem le =
      (let e : ltb bottom i ≡ false = ground (arith, le) in rw (rebase, e) refl)

  rebase-next :
      (fuel i bottom : ℕ) (mem : Mem)
      → bottom < i
      → rebase (suc fuel) i bottom change mem ≡ rebase fuel (i -ʷ 4) bottom change (change mem i)
  unfolding rebase
  rebase-next fuel i bottom mem lt =
      (let e : ltb bottom i ≡ true = lt→ltb _ _ lt in rw (rebase, e) refl)

  read32_same :
      (mem mem' : Mem) (a : ℕ)
      → ((b : ℕ) → a ≤ b → b < a + 4 → mem' b ≡ mem b)
      → read32 mem' a ≡ read32 mem a
  unfolding read32
  read32_same mem mem' a same = omega (
    arith,
    same a (omega arith) (omega arith),
    same (a + 1) (omega arith) (omega arith),
    same (a + 2) (omega arith) (omega arith),
    same (a + 3) (omega arith) (omega arith),
  )

  Rebased-cons :
      (bottom n : ℕ) (mem mem' : Mem)
      → initial_esp ≤ start
      → start < 2 ^ 32
      → Rebased bottom n (change mem (bottom + 4 * suc n)) mem'
      → Rebased bottom (suc n) mem mem'
  Rebased-cons bottom n mem mem' above word r = record {
    words = λ j some_ le. elim (Bool-cases (j == suc n)) [
      | inl top ↦
          subst
            (λ i.
              read32 mem' (bottom + 4 * i)
              ≡ moved old_esp initial_esp start (read32 mem (bottom + 4 * i)))
            (sym (==→eq _ _ top))
            (read32_same (change mem (bottom + 4 * suc n)) mem' (bottom + 4 * suc n)
                (λ b lo hi. r.others b (omega (arith, lo)))
              ∙ change_here mem (bottom + 4 * suc n) above word)
      | inr below ↦
          let lower : j ≤ n = omega (arith, ==→ne _ _ below, le) in
          r.words j some_ lower
          ∙ ap (moved old_esp initial_esp start) (
              read32_same mem (change mem (bottom + 4 * suc n)) (bottom + 4 * j)
                (λ b lo hi. change_other mem (bottom + 4 * suc n) b (omega (arith, lower, hi))))
    ];
    others = λ a away.
        r.others a (omega (arith, away))
        ∙ change_other mem (bottom + 4 * suc n) a (omega (arith, away));
  }

  -- The loop from the word that starts at `bottom + 4 * n`.
  pub rebase-Rebased :
      (fuel n bottom : ℕ) (mem : Mem)
      → n < fuel
      → initial_esp ≤ start
      → start < 2 ^ 32
      → bottom + 4 * n < 2 ^ 32
      → (mem' : Mem) × (rebase fuel (bottom + 4 * n) bottom change mem ≡ ok mem')
        × Rebased bottom n mem mem'
  rebase-Rebased zero n bottom mem more above word fits = absurd (omega arith)
  rebase-Rebased (suc fuel) zero bottom mem more above word fits = (
    mem,
    rebase-stop fuel (bottom + 4 * 0) bottom mem (omega arith),
    record { words = λ j some_ le. absurd (omega arith); others = λ a away. refl },
  )
  rebase-Rebased (suc fuel) (suc n) bottom mem more above word fits =
      let next = change mem (bottom + 4 * suc n) in
      let back : (bottom + 4 * suc n) -ʷ 4 ≡ bottom + 4 * n = ground (arith, fits) in
      let (mem', rest, r) =
        rebase-Rebased fuel n bottom next (omega arith) above word (omega (arith, fits)) in
      (
        mem',
        rebase-next fuel (bottom + 4 * suc n) bottom mem (omega arith)
            ∙ ap (λ i. rebase fuel i bottom change next) back
            ∙ rest,
        Rebased-cons bottom n mem mem' above word r,
      )
