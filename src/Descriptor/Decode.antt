-- ===== src/Descriptor/Decode.antt =====
-- What the processor reads from an entry.
use experimental_kernel.Common.{
  Bool, true, false, ◌||◌, ℕ, zero, suc, ◌+◌, ◌-◌, ◌*◌, ◌/◌, ◌%◌, ◌^◌, ◌<◌, ◌≡◌, arith, refl, ◌==◌,
  ltb, leb, ◌&&◌, if◌then◌else◌, List, [], ◌∷◌, get_or, bit_and, ◌+ʷ◌, ◌∙◌, Bool-cases, inl, inr,
}
use experimental_kernel.Bits.{bit_or_low_half, bit_and_high_half}
use experimental_kernel.Descriptor.{
  Descriptor, gdt_set, idt_set, set_gates, idt_install, tss_descriptor, tss_bytes,
}

-- The bytes of the packed entry in memory.
abbrev pub bytes : Descriptor → List ℕ
bytes d =
    d.limit_low % 256
    ∷ d.limit_low / 256
    ∷ d.base_low % 256
    ∷ d.base_low / 256
    ∷ d.base_middle
    ∷ d.access
    ∷ d.granularity
    ∷ d.base_high
    ∷ []

abbrev pub byte : Descriptor → ℕ → ℕ
byte d i = get_or (bytes d) i 0

-- A segment descriptor: the base in the bytes 2, 3, 4 and 7, the limit in the bytes 0, 1 and the low
-- half of 6, whose high half holds the flags, and the access rights in 5.
pub record IsSegment (d : Descriptor) (base limit access flags : ℕ) : Type 0 where
  pub base_read : byte d 2 + 2 ^ 8 * byte d 3 + 2 ^ 16 * byte d 4 + 2 ^ 24 * byte d 7 ≡ base
  pub limit_read : byte d 0 + 2 ^ 8 * byte d 1 + 2 ^ 16 * (byte d 6 % 16) ≡ limit
  pub access_read : byte d 5 ≡ access
  pub flags_read : byte d 6 / 16 ≡ flags

-- A gate: the offset in the bytes 0, 1, 6 and 7, the selector in 2 and 3, zero in 4, the type in 5.
pub record IsGate (d : Descriptor) (offset selector flags : ℕ) : Type 0 where
  pub offset_read : byte d 0 + 2 ^ 8 * byte d 1 + 2 ^ 16 * byte d 6 + 2 ^ 24 * byte d 7 ≡ offset
  pub selector_read : byte d 2 + 2 ^ 8 * byte d 3 ≡ selector
  pub zero_read : byte d 4 ≡ 0
  pub flags_read : byte d 5 ≡ flags

-- The processor reads from an entry made by GdtDescriptor::set the base, the low 20 bits of the
-- limit, the access rights, and the high half of the granularity, for 32-bit and 8-bit arguments.
pub gdt_set-IsSegment :
    (base limit access granularity : ℕ)
    → base < 2 ^ 32
    → granularity < 256
    → IsSegment
        (gdt_set base limit access granularity)
        base
        (limit % 2 ^ 20)
        access
        (granularity / 16)
unfolding gdt_set
gdt_set-IsSegment base limit access granularity b g =
    let high = bit_and_high_half granularity g in
    let both =
      bit_or_low_half (limit / 2 ^ 16 % 16) (bit_and granularity 0xF0) (omega arith)
        (omega (arith, high)) in
    record {
      base_read = omega arith;
      limit_read = omega (arith, both, high);
      access_read = refl;
      flags_read = omega (arith, both, high);
    }

-- The processor reads from a gate made by setIdtDescriptor the offset, the selector and the flags.
pub idt_set-IsGate :
    (offset selector flags : ℕ)
    → offset < 2 ^ 32
    → IsGate (idt_set offset selector flags) offset selector flags
unfolding idt_set
idt_set-IsGate offset selector flags b = record {
  offset_read = omega arith;
  selector_read = omega arith;
  zero_read = refl;
  flags_read = refl;
}

-- The processor reads from the descriptor of a task state segment that ends inside the address space
-- its address as the base, and the low 20 bits of the address behind it as the limit.
pub tss_descriptor-IsSegment :
    (tss_entry : ℕ)
    → tss_entry + tss_bytes < 2 ^ 32
    → IsSegment (tss_descriptor tss_entry) tss_entry ((tss_entry + tss_bytes) % 2 ^ 20) 0xE9 0
unfolding tss_descriptor
tss_descriptor-IsSegment tss_entry b =
    let ends : tss_entry +ʷ tss_bytes ≡ tss_entry + tss_bytes = omega arith in
    rw ends (gdt_set-IsSegment tss_entry (tss_entry + tss_bytes) 0xE9 0 (omega arith) (omega arith))

set_gates-at :
    (count first : ℕ) (handler : ℕ → ℕ) (idt : ℕ → Descriptor) (i : ℕ)
    → set_gates count first handler idt i ≡ (
        if leb first i && ltb i (first + count)
        then idt_set (handler (i - first)) 0x08 0x8E
        else idt i)
unfolding set_gates
set_gates-at zero first handler idt i = ground arith
set_gates-at (suc count) first handler idt i =
    set_gates-at count (first + 1) (λ k. handler (k + 1))
      (λ k. if k == first then idt_set (handler 0) 0x08 0x8E else idt k) i
    ∙ elim (Bool-cases (leb (first + 1) i)) [
      | inl behind ↦ let e : i - (first + 1) + 1 ≡ i - first = ground arith in rw e (ground arith)
      | inr not_behind ↦ elim (Bool-cases (i == first)) [
        | inl here ↦ let z : i - first ≡ 0 = ground arith in rw z (ground arith)
        | inr other ↦ ground arith
      ]
    ]

-- Whether the kernel installs a gate for an interrupt number.
abbrev pub installed : ℕ → Bool
installed i = ltb i 48 || i == 128

-- The handler that belongs to an interrupt number, and its flags: a gate for the kernel, or for
-- number 128 one that programs may use.
abbrev pub handler_of : (ℕ → ℕ) → (ℕ → ℕ) → ℕ → ℕ → ℕ
handler_of isr irq isr128 i = if i == 128 then isr128 else if ltb i 32 then isr i else irq (i - 32)

abbrev pub flags_of : ℕ → ℕ
flags_of i = if i == 128 then 0xEE else 0x8E

idt_install-at :
    (isr irq : ℕ → ℕ) (isr128 : ℕ) (idt : ℕ → Descriptor) (i : ℕ)
    → installed i ≡ true
    → idt_install isr irq isr128 idt i ≡ idt_set (handler_of isr irq isr128 i) 0x08 (flags_of i)
unfolding idt_install
idt_install-at isr irq isr128 idt i here = elim (Bool-cases (i == 128)) [
  | inl system_call ↦ rw system_call
  | inr other ↦
      rw (other, set_gates-at 16 32 irq (set_gates 32 0 isr idt) i, set_gates-at 32 0 isr idt i)
        (ground arith)
]

idt_install-other :
    (isr irq : ℕ → ℕ) (isr128 : ℕ) (idt : ℕ → Descriptor) (i : ℕ)
    → installed i ≡ false
    → idt_install isr irq isr128 idt i ≡ idt i
unfolding idt_install
idt_install-other isr irq isr128 idt i absent =
    let other : (i == 128) ≡ false = ground arith in
    rw (other, set_gates-at 16 32 irq (set_gates 32 0 isr idt) i, set_gates-at 32 0 isr idt i)
      (ground arith)

-- After idt_install the processor reads from the gate of each interrupt from 0 to 47 and of 128 the
-- handler that belongs to it, in the kernel's code segment, and only number 128 is open to
-- programs. All other gates are as they were. Handlers have 32-bit addresses.
pub idt_install-IsGate :
    (isr irq : ℕ → ℕ) (isr128 : ℕ) (idt : ℕ → Descriptor)
    → ((i : ℕ) → handler_of isr irq isr128 i < 2 ^ 32)
    → ((i : ℕ)
        → installed i ≡ true
        → IsGate (idt_install isr irq isr128 idt i) (handler_of isr irq isr128 i) 0x08 (flags_of i))
      × ((i : ℕ) → installed i ≡ false → idt_install isr irq isr128 idt i ≡ idt i)
idt_install-IsGate isr irq isr128 idt words = (
  λ i here.
      rw (idt_install-at isr irq isr128 idt i here)
        (idt_set-IsGate (handler_of isr irq isr128 i) 0x08 (flags_of i) (words i)),
  idt_install-other isr irq isr128 idt,
)
