-- ===== src/Common/Word.antt =====
-- 32-bit words as numbers below `2 ^ 32`, the wrap-around written out.
use Prim.Native.Nat.{ℕ, ◌+◌, ◌-◌, ◌%◌, ◌^◌}

abbrev pub u32 : ℕ → ℕ
u32 n = n % 2 ^ 32

abbrev pub u16 : ℕ → ℕ
u16 n = n % 2 ^ 16

abbrev pub u8 : ℕ → ℕ
u8 n = n % 2 ^ 8

infixl 65 ◌+ʷ◌ ◌-ʷ◌
abbrev pub ◌+ʷ◌ : ℕ → ℕ → ℕ
a +ʷ b = (a + b) % 2 ^ 32

-- The operands are words, so adding the modulus first keeps the difference above 0.
abbrev pub ◌-ʷ◌ : ℕ → ℕ → ℕ
a -ʷ b = (a + 2 ^ 32 - b) % 2 ^ 32
