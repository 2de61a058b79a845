-- ===== src/Cstring/Copy.antt =====
-- `strncpy`: what it writes.
use experimental_kernel.Common.{
  ℕ, zero, suc, ◌+◌, ◌-◌, ◌≤◌, ◌<◌, ◌^◌, ◌≡◌, ◌≢◌, ◌⊎◌, arith, ◌==◌, if◌then◌else◌, ◌+ʷ◌, inl, inr,
  lt→ltb,
}
use experimental_kernel.Memory.{Mem, store}
use experimental_kernel.Memory.Bytes.{within}
use experimental_kernel.Cstring.{strncpy_loop, strncpy}

strncpy_loop-within :
    (num n dest src : ℕ) (m : Mem)
    → ((a : ℕ) → m a < 256)
    → n ≤ num
    → ((a : ℕ) → src ≤ a → a < src + n → m a ≢ 0)
    → (n ≡ num) ⊎ (m (src + n) ≡ 0)
    → dest + n + 1 < 2 ^ 32
    → src + n + 1 < 2 ^ 32
    → (dest ≤ src) ⊎ (src + n + 1 ≤ dest)
    → (x : ℕ)
    → strncpy_loop num dest src m x
      ≡ (if within dest n x then m (src + (x - dest)) else if x == dest + n then 0 else m x)
unfolding strncpy_loop store
strncpy_loop-within zero n dest src m bytes le full stop hd hs apart x = ground arith
strncpy_loop-within (suc num) zero dest src m bytes le full stop hd hs apart x = ground arith
strncpy_loop-within (suc num) (suc n) dest src m bytes le full stop hd hs apart x = ground (
  arith,
  bytes src,
  full src,
  strncpy_loop-within num n (dest +ʷ 1) (src +ʷ 1) (store m dest (m src)) store_bytes (omega arith)
      store_full store_stop (omega arith) (omega arith) (omega arith) x,
)
  where
    store_bytes : (a : ℕ) → store m dest (m src) a < 256
    store_bytes a = ground (arith, bytes a, bytes src)

    store_full : (a : ℕ) → src +ʷ 1 ≤ a → a < src +ʷ 1 + n → store m dest (m src) a ≢ 0
    store_full a lo hi = ground (arith, full a)

    store_stop : (n ≡ num) ⊎ (store m dest (m src) (src +ʷ 1 + n) ≡ 0)
    store_stop = elim stop [ inl all ↦ inl (omega arith) | inr z ↦ inr (ground arith) ]

-- `strncpy` copies the text's bytes up to its terminator, `num` of them at most, writes a zero
-- behind them, and changes no other byte: `num + 1` bytes are written when the text is longer.
pub strncpy-within :
    (num n dest src : ℕ) (m : Mem)
    → ((a : ℕ) → m a < 256)
    → num < 2 ^ 31
    → n ≤ num
    → ((a : ℕ) → src ≤ a → a < src + n → m a ≢ 0)
    → (n ≡ num) ⊎ (m (src + n) ≡ 0)
    → dest + n + 1 < 2 ^ 32
    → src + n + 1 < 2 ^ 32
    → (dest ≤ src) ⊎ (src + n + 1 ≤ dest)
    → (x : ℕ)
    → strncpy dest src num m x
      ≡ (if within dest n x then m (src + (x - dest)) else if x == dest + n then 0 else m x)
unfolding strncpy
strncpy-within num n dest src m bytes small le full stop hd hs apart x =
    rw (lt→ltb num (2 ^ 31) small)
      (strncpy_loop-within num n dest src m bytes le full stop hd hs apart x)
