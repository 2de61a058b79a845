-- ===== src/Descriptor.antt =====
-- source/descriptor.h, source/gdt_entry.cpp and source/idt_entry.cpp: the 8-byte entries of the
-- descriptor tables, and the tables as the kernel fills them. The port output that `idt_install`
-- starts with is left out.
pub mod Decode
pub mod Task
pub mod User
pub mod Tests
use experimental_kernel.Common.{
  ℕ, zero, suc, ◌+◌, ◌*◌, ◌/◌, ◌%◌, ◌^◌, ◌==◌, if◌then◌else◌, ◌+ʷ◌, bit_and, bit_or, u8, u16,
}

pub record Descriptor : Type 0 where
  pub limit_low : ℕ
  pub base_low : ℕ
  pub base_middle : ℕ
  pub access : ℕ
  pub granularity : ℕ
  pub base_high : ℕ

-- The constructor of Descriptor.
unfoldable pub descriptor : ℕ → ℕ → ℕ → ℕ → Descriptor
descriptor limit base access granularity = record {
  limit_low = limit % 2 ^ 16;
  base_low = base % 2 ^ 16;
  base_middle = base / 2 ^ 16 % 2 ^ 8;
  access = access;
  granularity = bit_or (limit / 2 ^ 16 % 16) (bit_and granularity 0xF0);
  base_high = base / 2 ^ 24 % 2 ^ 8;
}

-- GdtDescriptor::set, with the parameters in the order of its definition.
unfoldable pub gdt_set : ℕ → ℕ → ℕ → ℕ → Descriptor
gdt_set base limit access granularity = record {
  limit_low = limit % 2 ^ 16;
  base_low = base % 2 ^ 16;
  base_middle = base / 2 ^ 16 % 2 ^ 8;
  access = access;
  granularity = bit_or (limit / 2 ^ 16 % 16) (bit_and granularity 0xF0);
  base_high = base / 2 ^ 24 % 2 ^ 8;
}

-- The constructor of GdtDescriptor passes its base as the limit and its limit as the base.
unfoldable pub gdt_descriptor : ℕ → ℕ → ℕ → ℕ → Descriptor
unfolding descriptor
gdt_descriptor base limit access granularity = descriptor base limit access granularity

-- sizeof(TssEntry): 25 words and two half words.
abbrev pub tss_bytes : ℕ
tss_bytes = 104

-- The descriptor that setTss sets. Its limit is the address behind the entry.
unfoldable pub tss_descriptor : ℕ → Descriptor
unfolding gdt_set
tss_descriptor tss_entry = gdt_set tss_entry (tss_entry +ʷ tss_bytes) 0xE9 0x00

-- The table that gdt_install fills.
unfoldable pub gdt_install : ℕ → ℕ → Descriptor
unfolding gdt_set tss_descriptor
gdt_install tss_entry index =
    if index == 0
    then gdt_set 0 0 0 0
    else if index == 1
    then gdt_set 0 0xFFFFFFFF 0x9A 0xCF
    else if index == 2
    then gdt_set 0 0xFFFFFFFF 0x92 0xCF
    else if index == 3
    then gdt_set 0 0xFFFFFFFF 0xFA 0xCF
    else if index == 4
    then gdt_set 0 0xFFFFFFFF 0xF2 0xCF
    else tss_descriptor tss_entry

-- IdtDescriptor::setIdtDescriptor, which is the constructor too.
unfoldable pub idt_set : ℕ → ℕ → ℕ → Descriptor
idt_set offset selector flags =
    let base_h = offset / 2 ^ 16 % 2 ^ 16 in
    record {
      limit_low = offset % 2 ^ 16;
      base_low = selector;
      base_middle = 0;
      access = flags;
      granularity = base_h % 2 ^ 8;
      base_high = base_h / 2 ^ 8 % 2 ^ 8;
    }

-- The lines idt[first] to idt[first + count - 1], with the handlers in their order.
unfoldable pub set_gates : ℕ → ℕ → (ℕ → ℕ) → (ℕ → Descriptor) → ℕ → Descriptor
unfolding idt_set
set_gates zero first handler idt = idt
set_gates (suc count) first handler idt =
    set_gates count (first + 1) (λ i. handler (i + 1))
      (λ i. if i == first then idt_set (handler 0) 0x08 0x8E else idt i)

-- The handlers isr0 to isr31, irq0 to irq15 and isr128 are assembly code: their addresses are
-- parameters.
unfoldable pub idt_install : (ℕ → ℕ) → (ℕ → ℕ) → ℕ → (ℕ → Descriptor) → ℕ → Descriptor
unfolding set_gates idt_set
idt_install isr irq isr128 idt i =
    if i == 128
    then idt_set isr128 0x08 (bit_or 0x8E 0x60)
    else set_gates 16 32 irq (set_gates 32 0 isr idt) i
