-- ===== src/Memory/Words.antt =====
-- Word accesses: what a store leaves to a later load.
use experimental_kernel.Common.{ℕ, ◌+◌, ◌≤◌, ◌<◌, ◌^◌, ◌≡◌, ◌⊎◌, arith}
use experimental_kernel.Memory.{Mem, store, read32, write32}

pub read32-write32_self : (m : Mem) (a v : ℕ) → v < 2 ^ 32 → read32 (write32 m a v) a ≡ v
unfolding read32 write32 store
read32-write32_self m a v h = ground arith

pub write32_other : (m : Mem) (a v x : ℕ) → (x + 1 ≤ a) ⊎ (a + 4 ≤ x) → write32 m a v x ≡ m x
unfolding write32 store
write32_other m a v x h = ground arith

pub read32-write32_other :
    (m : Mem) (a b v : ℕ) → (b + 4 ≤ a) ⊎ (a + 4 ≤ b) → read32 (write32 m a v) b ≡ read32 m b
unfolding read32
read32-write32_other m a b v h = ground (
  arith,
  write32_other m a v b,
  write32_other m a v (b + 1),
  write32_other m a v (b + 2),
  write32_other m a v (b + 3),
)

pub store_other : (m : Mem) (a v x : ℕ) → (x + 1 ≤ a) ⊎ (a + 1 ≤ x) → store m a v x ≡ m x
unfolding store
store_other m a v x h = ground arith

pub read32-store_other :
    (m : Mem) (a b v : ℕ) → (b + 4 ≤ a) ⊎ (a + 1 ≤ b) → read32 (store m a v) b ≡ read32 m b
unfolding read32
read32-store_other m a b v h = ground (
  arith,
  store_other m a v b,
  store_other m a v (b + 1),
  store_other m a v (b + 2),
  store_other m a v (b + 3),
)

pub store_self : (m : Mem) (a v : ℕ) → v < 256 → store m a v a ≡ v
unfolding store
store_self m a v h = ground arith
