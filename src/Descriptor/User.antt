-- ===== src/Descriptor/User.antt =====
-- From the task state segment to user mode.
use experimental_kernel.Common.{
  ℕ, ◌+◌, ◌*◌, ◌/◌, ◌%◌, ◌^◌, ◌<◌, ◌≡◌, refl, arith, ◌==◌, if◌then◌else◌, ◌+ʷ◌,
}
use experimental_kernel.Bits.{bit, bit-bit_or_pow}
use experimental_kernel.Memory.{Mem, read32}
use experimental_kernel.Descriptor.{tss_bytes, gdt_install, gdt_set}
use experimental_kernel.Descriptor.Decode.{IsSegment}
use experimental_kernel.Descriptor.Task.{
  set_tss, set_tss_lem, set_kernel_stack, switch_to_user_mode, IretFrame, task_word, write_word,
}

-- A program with this frame runs with privilege 3, in segments of that privilege over the whole address
-- space, with its own stack and with interrupts on.
pub record IsUserFrame (tss esp eip : ℕ) (f : IretFrame) : Type 0 where
  pub same_eip : f.eip ≡ eip
  pub same_esp : f.esp ≡ esp
  pub code_privilege : f.cs % 4 ≡ 3
  pub stack_privilege : f.ss % 4 ≡ 3
  pub code : IsSegment (gdt_install tss (f.cs / 8)) 0 0xFFFFF 0xFA 0xC
  pub data_ : IsSegment (gdt_install tss (f.ss / 8)) 0 0xFFFFF 0xF2 0xC
  pub interrupts : bit f.eflags 9 ≡ 1

switch_to_user_mode-IsUserFrame :
    (tss esp eflags eip : ℕ) (m : Mem)
    → IsUserFrame tss esp eip (switch_to_user_mode tss esp eflags eip m).1
unfolding switch_to_user_mode gdt_install gdt_set
switch_to_user_mode-IsUserFrame tss esp eflags eip m = record {
  same_eip = refl;
  same_esp = refl;
  code_privilege = refl;
  stack_privilege = refl;
  code = record { base_read = refl; limit_read = refl; access_read = refl; flags_read = refl };
  data_ = record { base_read = refl; limit_read = refl; access_read = refl; flags_read = refl };
  interrupts = bit-bit_or_pow 9 9 eflags;
}

switch_to_user_mode_word :
    (tss esp eflags eip i : ℕ) (m : Mem)
    → read32 (switch_to_user_mode tss esp eflags eip m).0 (tss + 4 * i)
      ≡ (if i == 1 then read32 m (tss + 4 * 1) +ʷ 2048 else read32 m (tss + 4 * i))
unfolding switch_to_user_mode set_kernel_stack
switch_to_user_mode_word tss esp eflags eip i m =
    write_word m tss i 1 (read32 m (tss + 4 * 1) +ʷ 2048) (omega arith)

-- setTss of an entry that ends inside the address space, and then switchToUserMode: the processor reads
-- from the descriptor the address of the entry as its base, and the low 20 bits of the address behind it
-- as the limit. For interrupts the entry has the stack of the kernel, 2048 bytes further up, and the
-- segments with privilege 3; its other words are zero. The iret goes to the given address and stack with
-- privilege 3, in the user's segments of gdt_install, with interrupts on.
pub switch_to_user_mode-EntersUser :
    (tss ss0 esp0 esp eflags eip : ℕ) (m : Mem)
    → tss + tss_bytes < 2 ^ 32
    → ss0 < 2 ^ 16
    → esp0 < 2 ^ 32
    → (let (descriptor, m') = set_tss tss ss0 esp0 m in
        let (m'', frame) = switch_to_user_mode tss esp eflags eip m' in
        IsSegment descriptor tss ((tss + tss_bytes) % 2 ^ 20) 0xE9 0
        × ((i : ℕ) → i < 26 → read32 m'' (tss + 4 * i) ≡ task_word ss0 (esp0 +ʷ 2048) i)
        × IsUserFrame tss esp eip frame)
switch_to_user_mode-EntersUser tss ss0 esp0 esp eflags eip m fits selector word =
    let (segment, words) = set_tss_lem tss ss0 esp0 m fits selector word in
    let m' = (set_tss tss ss0 esp0 m).1 in
    (
      segment,
      λ i lt. ground (
        arith,
        switch_to_user_mode_word tss esp eflags eip i m',
        words i lt,
        words 1 (omega arith),
      ),
      switch_to_user_mode-IsUserFrame tss esp eflags eip m',
    )
