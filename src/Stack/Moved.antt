-- ===== src/Stack/Moved.antt =====
-- What changeStack leaves.
use experimental_kernel.Common.{
  ℕ, zero, suc, ◌+◌, ◌-◌, ◌*◌, ◌<◌, ◌≤◌, ◌≡◌, ◌⊎◌, refl, ap, ◌∙◌, arith, Bool, true, ◌+ʷ◌, ◌-ʷ◌,
}
use experimental_kernel.Memory.{Mem, read32}
use experimental_kernel.Heap.{ok}
use experimental_kernel.Kmalloc.{Kernel}
use mathlib.Core.Path.{subst}
use experimental_kernel.Clone.{Machine}
use experimental_kernel.Setup.Pages.{page_at, Apart}
use experimental_kernel.Stack.{grant_pages, change_stack}
use experimental_kernel.Stack.Granted.{Granted, grant_pages-AllGranted}
use experimental_kernel.Stack.Words.{CanMove, Moves, new_address, change_stack_lem, rebased}
use experimental_kernel.Stack.Supply.{IsBytes, Supplies}
use experimental_kernel.Stack.Rebase.{moved}

-- What changeStack leaves, where kmalloc keeps some bytes: besides the words, each page of the new stack
-- has a frame and is the user's to write, or there is no free frame.
pub record Moved (kept : ℕ → Bool) (m : Machine) (old_esp initial_esp start size : ℕ) (m' : Machine)
    : Type 0 where
  pub words :
      (j : ℕ)
      → 0 < j
      → 4 * j ≤ initial_esp - old_esp
      → read32 m'.kernel.mem (start - 4 * j)
        ≡ moved old_esp initial_esp start (read32 m.kernel.mem (initial_esp - 4 * j))
  pub others :
      (a : ℕ)
      → (a < start - size) ⊎ (start + 4 ≤ a)
      → kept a ≡ true
      → m'.kernel.mem a ≡ m.kernel.mem a
  pub pages : (j : ℕ) → start - size + 4096 * j ≤ start → Granted m' (start - 4096 * j)

read32-same :
    (mem mem' : Mem) (a : ℕ)
    → ((i : ℕ) → i < 4 → mem' (a + i) ≡ mem (a + i))
    → read32 mem' a ≡ read32 mem a
unfolding read32
read32-same mem mem' a same =
    let first : mem' a ≡ mem a = subst (λ x. mem' x ≡ mem x) (omega arith) (same 0 (omega arith)) in
    omega (arith, first, same 1 (omega arith), same 2 (omega arith), same 3 (omega arith))

Moves-Moved :
    (kept : ℕ → Bool) (m m1 : Machine) (old_esp initial_esp start size : ℕ) (mem' : Mem)
    → old_esp ≤ initial_esp
    → ((a : ℕ) → kept a ≡ true → m1.kernel.mem a ≡ m.kernel.mem a)
    → ((a : ℕ) → old_esp ≤ a → a < initial_esp → kept a ≡ true)
    → ((j : ℕ) → start - size + 4096 * j ≤ start → Granted m1 (start - 4096 * j))
    → Moves m1.kernel.mem old_esp initial_esp start size mem'
    → Moved kept m old_esp initial_esp start size
        (record m1 { kernel = record (m1.kernel) { mem = mem' } })
Moves-Moved kept m m1 old_esp initial_esp start size mem' le same stack pages v = record {
  words = λ j some_ fits.
      v.words j some_ fits
      ∙ ap (moved old_esp initial_esp start) (
          read32-same m.kernel.mem m1.kernel.mem (initial_esp - 4 * j) (λ i lt.
            same (initial_esp - 4 * j + i) (
              stack (initial_esp - 4 * j + i) (omega (arith, fits, lt, le))
                (omega (arith, some_, fits, lt)))));
  others = λ a out h. v.others a out ∙ same a h;
  pages = pages;
}

-- `change_stack` from a stack below the new one, which has room for it, where kmalloc gives the page
-- tables that are missing and keeps the bytes of the old stack, and the pages of the new stack have no
-- frames: it ends (fuel above the size and one more is enough), with esp and ebp at the same distance from
-- the new start as they were from `initial_esp`. Each page of the new stack is present, the user's to
-- write, and has a frame that is marked, unless there is no free frame left. The words of the old stack
-- stand at the same distance from the new start as before; a word that points into the old stack above esp
-- points to the same place of the new one. Outside the new stack and the word at its start no byte changes
-- that kmalloc keeps.
pub change_stack-Moved :
    (Ready : Kernel → Type 0) (kept : ℕ → Bool) (fuel : ℕ) (m : Machine)
    (old_esp old_ebp initial_esp start size : ℕ)
    → size + 1 < fuel
    → CanMove old_esp old_ebp initial_esp start size
    → IsBytes m.kernel.mem
    → Supplies Ready kept (start - size) start
    → Ready m.kernel
    → Apart m.kernel
    → ((a : ℕ) → old_esp ≤ a → a < initial_esp → kept a ≡ true)
    → ((j : ℕ) → start - size + 4096 * j ≤ start → (page_at m.kernel (start - 4096 * j)).frame ≡ 0)
    → (m' : Machine) × (change_stack fuel m old_esp old_ebp initial_esp start size
        ≡ ok (m', start - (initial_esp - old_esp), start - (initial_esp - old_ebp)))
      × Moved kept m old_esp initial_esp start size m'
change_stack-Moved Ready kept zero m old_esp old_ebp initial_esp start size more c bytes supplies
      ready apart stack empty =
    absurd (omega arith)
change_stack-Moved Ready kept (suc fuel) m old_esp old_ebp initial_esp start size more c bytes
      supplies ready apart stack empty =
    let bottom : start -ʷ size ≡ start - size = ground (arith, c.low, c.high) in
    let (m1, granted, g) =
      grant_pages-AllGranted Ready kept (start - size) start supplies fuel start m
        (omega (arith, more)) (omega (arith, c.low)) (omega arith) (omega (arith, c.high)) ready
        apart empty in
    let (mem', loop, v) =
      rebased m1.kernel.mem old_esp old_ebp initial_esp start size (g.follows.bytes bytes) c
        (suc fuel) more in
    let esp =
      new_address m1.kernel.mem old_esp old_ebp initial_esp start size (g.follows.bytes bytes) c in
    let m' : Machine = record m1 { kernel = record (m1.kernel) { mem = mem' } } in
    (
      m',
      change_stack_lem m1.kernel.mem old_esp old_ebp initial_esp start size (g.follows.bytes bytes)
            c (suc fuel) m m1 mem' (ap (λ b. grant_pages (suc fuel) start b m) bottom ∙ granted)
            refl loop
          ∙ ap (λ a. ok (m', a, start +ʷ (old_ebp -ʷ initial_esp)))
              (esp old_esp (omega (arith, c.esp, c.ebp)))
          ∙ ap (λ a. ok (m', start - (initial_esp - old_esp), a)) (esp old_ebp c.ebp),
      Moves-Moved kept m m1 old_esp initial_esp start size mem' (omega (arith, c.esp, c.ebp))
          g.follows.same_mem stack g.pages v,
    )
