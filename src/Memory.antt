-- ===== src/Memory.antt =====
-- The linear address space as bytes, with the word accesses that compiled code makes, and the byte
-- loops `memset` and `memcpy` of source/memory_management.cpp.
pub mod Bytes
pub mod Words
pub mod Tests
use experimental_kernel.Common.{
  ℕ, zero, suc, ◌+◌, ◌*◌, ◌/◌, ◌%◌, ◌^◌, ◌==◌, if◌then◌else◌, ◌+ʷ◌, u8,
}

-- The byte at each linear address.
abbrev pub Mem : Type 0
Mem = ℕ → ℕ

unfoldable pub store : Mem → ℕ → ℕ → Mem
store m a v = λ x. if x == a then u8 v else m x

-- A little-endian 32-bit load and store, as IA-32 makes them at any alignment.
unfoldable pub read32 : Mem → ℕ → ℕ
read32 m a = m a + 256 * m (a + 1) + 65536 * m (a + 2) + 16777216 * m (a + 3)

unfoldable pub write32 : Mem → ℕ → ℕ → Mem
unfolding store
write32 m a v =
    store (store (store (store m a v) (a + 1) (v / 256)) (a + 2) (v / 65536)) (a + 3) (v / 16777216)

-- while(count--) *(a++) = value;
unfoldable pub memset : ℕ → ℕ → ℕ → Mem → Mem
memset a value zero m = m
memset a value (suc count) m = memset (a +ʷ 1) value count (store m a value)

-- while(count--) *(d++) = *(s++);
unfoldable pub memcpy : ℕ → ℕ → ℕ → Mem → Mem
memcpy d s zero m = m
memcpy d s (suc count) m = memcpy (d +ʷ 1) (s +ʷ 1) count (store m d (m s))
