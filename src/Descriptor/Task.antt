-- ===== src/Descriptor/Task.antt =====
-- source/tss_entry.h, source/tss_entry.cpp, GdtDescriptor::setTss of source/gdt_entry.cpp, and
-- SystemCallManagement::switchToUserMode of source/system_calls.cpp: the task state segment in memory.
use experimental_kernel.Common.{
  ℕ, ◌+◌, ◌*◌, ◌%◌, ◌^◌, ◌<◌, ◌≡◌, inl, inr, refl, ap, sym, ◌∙◌, arith, ◌==◌, leb, ltb, ◌&&◌,
  if◌then◌else◌, ◌+ʷ◌, bit_or, true, Bool-cases, ==→eq, ==→ne,
}
use mathlib.Core.Path.{subst}
use experimental_kernel.Memory.{Mem, read32, write32, memset}
use experimental_kernel.Memory.Bytes.{within, memset-within}
use experimental_kernel.Memory.Words.{read32-write32_self, read32-write32_other}
use experimental_kernel.Descriptor.{Descriptor, tss_descriptor, tss_bytes}
use experimental_kernel.Descriptor.Decode.{IsSegment, tss_descriptor-IsSegment}

-- setTss: the descriptor, and ss0, esp0, cs, ss, ds, es, fs and gs of the entry.
unfoldable pub set_tss : ℕ → ℕ → ℕ → Mem → Descriptor × Mem
set_tss t ss0 esp0 m =
    let m0 = memset t 0 tss_bytes m in
    let m1 = write32 m0 (t + 4 * 2) ss0 in
    let m2 = write32 m1 (t + 4 * 1) esp0 in
    let m3 = write32 m2 (t + 4 * 19) 0x0B in
    let m4 = write32 m3 (t + 4 * 20) 0x13 in
    let m5 = write32 m4 (t + 4 * 21) 0x13 in
    let m6 = write32 m5 (t + 4 * 18) 0x13 in
    let m7 = write32 m6 (t + 4 * 22) 0x13 in (tss_descriptor t, write32 m7 (t + 4 * 23) 0x13)

-- TssEntry::setKernelStack.
unfoldable pub set_kernel_stack : ℕ → ℕ → Mem → Mem
set_kernel_stack t kernel_esp m = write32 m (t + 4) kernel_esp

-- What iret takes from the stack.
pub record IretFrame : Type 0 where
  pub eip : ℕ
  pub cs : ℕ
  pub eflags : ℕ
  pub esp : ℕ
  pub ss : ℕ

-- switchToUserMode, with esp, eflags and the address behind the iret.
unfoldable pub switch_to_user_mode : ℕ → ℕ → ℕ → ℕ → Mem → Mem × IretFrame
switch_to_user_mode t esp eflags eip m = (
  set_kernel_stack t (read32 m (t + 4) +ʷ 2048) m,
  record { eip = eip; cs = 0x1B; eflags = bit_or eflags 0x200; esp = esp; ss = 0x23 },
)

-- The words of a task state segment for a switch to the kernel with this stack.
abbrev pub task_word : ℕ → ℕ → ℕ → ℕ
task_word ss0 esp0 i =
    if i == 1
    then esp0
    else if i == 2
    then ss0
    else if i == 19
    then 0x0B
    else if leb 18 i && ltb i 24
    then 0x13
    else 0

pub write_word :
    (m : Mem) (t i j v : ℕ)
    → v < 2 ^ 32
    → read32 (write32 m (t + 4 * j) v) (t + 4 * i) ≡ (if i == j then v else read32 m (t + 4 * i))
write_word m t i j v word = elim (Bool-cases (i == j)) [
  | inl same ↦ rw same (
      subst (λ k. read32 (write32 m (t + 4 * j) v) (t + 4 * k) ≡ v) (sym (==→eq _ _ same))
        (read32-write32_self m (t + 4 * j) v word))
  | inr other ↦
      rw other (read32-write32_other m (t + 4 * j) (t + 4 * i) v (omega (arith, ==→ne _ _ other)))
]

zero_word :
    (m : Mem) (t i : ℕ)
    → t + tss_bytes < 2 ^ 32
    → i < 26
    → read32 (memset t 0 tss_bytes m) (t + 4 * i) ≡ 0
unfolding read32
zero_word m t i fits lt =
    omega (arith, first, at 1 (omega arith), at 2 (omega arith), at 3 (omega arith))
  where
    at : (b : ℕ) → b < 4 → memset t 0 tss_bytes m (t + 4 * i + b) ≡ 0
    at b small =
        let inside : within t tss_bytes (t + 4 * i + b) ≡ true = ground (arith, lt, small) in
        memset-within t 0 tss_bytes m fits (t + 4 * i + b) ∙ (rw inside refl)

    first : memset t 0 tss_bytes m (t + 4 * i) ≡ 0
    first = ap (memset t 0 tss_bytes m) (omega arith) ∙ at 0 (omega arith)

-- The words that the assignments leave, in their order.
words_in_order :
    (i ss0 esp0 w0 w1 w2 w3 w4 w5 w6 w7 w8 : ℕ)
    → w0 ≡ 0
    → w1 ≡ (if i == 2 then ss0 else w0)
    → w2 ≡ (if i == 1 then esp0 else w1)
    → w3 ≡ (if i == 19 then 0x0B else w2)
    → w4 ≡ (if i == 20 then 0x13 else w3)
    → w5 ≡ (if i == 21 then 0x13 else w4)
    → w6 ≡ (if i == 18 then 0x13 else w5)
    → w7 ≡ (if i == 22 then 0x13 else w6)
    → w8 ≡ (if i == 23 then 0x13 else w7)
    → w8 ≡ task_word ss0 esp0 i
words_in_order i ss0 esp0 w0 w1 w2 w3 w4 w5 w6 w7 w8 e0 e1 e2 e3 e4 e5 e6 e7 e8 =
    ground (arith, e0, e1, e2, e3, e4, e5, e6, e7, e8)

-- setTss of an entry that ends inside the address space: the processor reads from the descriptor the
-- address of the entry as its base, and the low 20 bits of the address behind it as the limit. The entry
-- has the stack of the kernel and the segments with privilege 3, and its other words are zero.
pub set_tss_lem :
    (t ss0 esp0 : ℕ) (m : Mem)
    → t + tss_bytes < 2 ^ 32
    → ss0 < 2 ^ 16
    → esp0 < 2 ^ 32
    → IsSegment (set_tss t ss0 esp0 m).0 t ((t + tss_bytes) % 2 ^ 20) 0xE9 0
      × ((i : ℕ) → i < 26 → read32 (set_tss t ss0 esp0 m).1 (t + 4 * i) ≡ task_word ss0 esp0 i)
unfolding set_tss
set_tss_lem t ss0 esp0 m fits selector word = (
  tss_descriptor-IsSegment t fits,
  λ i lt.
      words_in_order i ss0 esp0 _ _ _ _ _ _ _ _ _ (zero_word m t i fits lt)
        (write_word _ t i 2 ss0 (omega arith)) (write_word _ t i 1 esp0 word)
        (write_word _ t i 19 0x0B (omega arith)) (write_word _ t i 20 0x13 (omega arith))
        (write_word _ t i 21 0x13 (omega arith)) (write_word _ t i 18 0x13 (omega arith))
        (write_word _ t i 22 0x13 (omega arith)) (write_word _ t i 23 0x13 (omega arith)),
)
