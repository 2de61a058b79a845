-- ===== src/Memory/Bytes.antt =====
-- What `memset` and `memcpy` leave at every address.
use experimental_kernel.Common.{
  ℕ, zero, suc, ◌+◌, ◌-◌, ◌≤◌, ◌<◌, ◌^◌, ◌≡◌, ◌⊎◌, arith, leb, ltb, ◌&&◌, if◌then◌else◌, ◌+ʷ◌, u8,
  Bool,
}
use experimental_kernel.Memory.{Mem, store, memset, memcpy}

-- Whether `x` lies in `[a, a + n)`.
abbrev pub within : ℕ → ℕ → ℕ → Bool
within a n x = leb a x && ltb x (a + n)

-- `memset` writes its value to each of the `n` bytes from `a`, and changes no other byte, when the
-- range ends inside the address space.
pub memset-within :
    (a v n : ℕ) (m : Mem)
    → a + n < 2 ^ 32
    → (x : ℕ) → memset a v n m x ≡ (if within a n x then u8 v else m x)
unfolding memset store
memset-within a v zero m h x = ground arith
memset-within a v (suc n) m h x =
    ground (arith, memset-within (a +ʷ 1) v n (store m a v) (omega arith) x)

-- `memcpy` copies the `n` bytes from `s` to `d`, and changes no other byte, when both ranges end
-- inside the address space and `d` does not lie inside the source range past its start.
pub memcpy-within :
    (d s n : ℕ) (m : Mem)
    → ((a : ℕ) → m a < 256)
    → d + n < 2 ^ 32
    → s + n < 2 ^ 32
    → (d ≤ s) ⊎ (s + n ≤ d)
    → (x : ℕ) → memcpy d s n m x ≡ (if within d n x then m (s + (x - d)) else m x)
unfolding memcpy store
memcpy-within d s zero m bytes hd hs apart x = ground arith
memcpy-within d s (suc n) m bytes hd hs apart x = ground (
  arith,
  bytes s,
  memcpy-within (d +ʷ 1) (s +ʷ 1) n (store m d (m s)) store_bytes (omega arith) (omega arith)
      (omega arith) x,
)
  where
    store_bytes : (a : ℕ) → store m d (m s) a < 256
    store_bytes a = ground (arith, bytes a, bytes s)
