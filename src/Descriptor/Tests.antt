-- ===== src/Descriptor/Tests.antt =====
-- A code segment, the task state segment, and the interrupt table.
use experimental_kernel.Common.{
  ℕ, ◌+◌, ◌+ʷ◌, ◌*◌, ◌/◌, ◌%◌, ◌<◌, ◌^◌, ◌≡◌, refl, arith, true, false,
}
use experimental_kernel.Descriptor.{
  Descriptor, descriptor, gdt_descriptor, gdt_set, gdt_install, tss_bytes, idt_set, idt_install,
}
use experimental_kernel.Memory.{read32}
use experimental_kernel.Descriptor.Task.{set_tss, switch_to_user_mode, task_word}
use experimental_kernel.Descriptor.User.{IsUserFrame, switch_to_user_mode-EntersUser}
use experimental_kernel.Descriptor.Decode.{
  IsSegment, IsGate, installed, handler_of, flags_of, gdt_set-IsSegment, idt_set-IsGate,
  idt_install-IsGate,
}

-- The user's code segment covers the whole address space, in pages.
user_code : IsSegment (gdt_install 0x5000 3) 0 0xFFFFF 0xFA 0xC
unfolding gdt_install gdt_set
user_code = record { base_read = refl; limit_read = refl; access_read = refl; flags_read = refl }

-- The constructor swaps base and limit.
swapped : IsSegment (gdt_descriptor 0x1000 0xFFFF 0x9A 0xCF) 0xFFFF 0x1000 0x9A 0xC
unfolding gdt_descriptor descriptor
swapped = record { base_read = refl; limit_read = refl; access_read = refl; flags_read = refl }

gdt_set-IsSegment_example :
    IsSegment
      (gdt_set 0x12345678 0x9ABCDEF 0x92 0xCF)
      0x12345678
      (0x9ABCDEF % 2 ^ 20)
      0x92
      (0xCF / 16)
gdt_set-IsSegment_example =
    gdt_set-IsSegment 0x12345678 0x9ABCDEF 0x92 0xCF (omega arith) (omega arith)

idt_set-IsGate_example : IsGate (idt_set 0xC0101234 0x08 0x8E) 0xC0101234 0x08 0x8E
idt_set-IsGate_example = idt_set-IsGate 0xC0101234 0x08 0x8E (omega arith)

switch_to_user_mode-EntersUser_example :
    (let (descriptor, m') = set_tss 0x105000 0x10 0 (λ a. 7) in
      let (m'', frame) = switch_to_user_mode 0x105000 0xDFFFFF00 2 0x101234 m' in
      IsSegment descriptor 0x105000 ((0x105000 + tss_bytes) % 2 ^ 20) 0xE9 0
      × ((i : ℕ) → i < 26 → read32 m'' (0x105000 + 4 * i) ≡ task_word 0x10 (0 +ʷ 2048) i)
      × IsUserFrame 0x105000 0xDFFFFF00 0x101234 frame)
switch_to_user_mode-EntersUser_example =
    switch_to_user_mode-EntersUser 0x105000 0x10 0 0xDFFFFF00 2 0x101234 (λ a. 7) (omega arith)
      (omega arith) (omega arith)

abbrev stub : ℕ → ℕ
stub i = (0x100000 + 16 * i) % 2 ^ 20

abbrev empty : ℕ → Descriptor
unfolding idt_set
empty i = idt_set 0 0 0

stub_words : (i : ℕ) → handler_of stub stub 7 i < 2 ^ 32
stub_words i = ground arith

idt_install-IsGate_example :
    ((i : ℕ)
      → installed i ≡ true
      → IsGate (idt_install stub stub 7 empty i) (handler_of stub stub 7 i) 0x08 (flags_of i))
    × ((i : ℕ) → installed i ≡ false → idt_install stub stub 7 empty i ≡ empty i)
idt_install-IsGate_example = idt_install-IsGate stub stub 7 empty stub_words
