-- ===== src/Cstring/Scan.antt =====
-- `strlen`.
use experimental_kernel.Common.{
  ℕ, zero, suc, ◌+◌, ◌<◌, ◌^◌, ◌≡◌, some, List, [], ◌∷◌, arith, length, ◌+ʷ◌,
}
use experimental_kernel.Memory.{Mem}
use experimental_kernel.Cstring.{strlen_loop, strlen}
use experimental_kernel.Cstring.Text.{Text}

strlen_loop-length :
    (fuel : ℕ) (m : Mem) (p len : ℕ) (xs : List ℕ)
    → Text m p xs
    → p + length xs < 2 ^ 32
    → len + length xs < 2 ^ 32
    → length xs < fuel
    → strlen_loop fuel m p len ≡ some (len + length xs)
unfolding strlen_loop
strlen_loop-length zero m p len xs t h l f = absurd (omega arith)
strlen_loop-length (suc fuel) m p len [] t h l f = ground arith
strlen_loop-length (suc fuel) m p len (x ∷ xs) t h l f =
    let next : p +ʷ 1 ≡ p + 1 = omega arith in
    ground (
      arith,
      strlen_loop-length fuel m (p +ʷ 1) (len +ʷ 1) xs (rw next t.3) (omega arith) (omega arith),
    )

-- `strlen` of a text that ends inside the address space is its length, for any fuel above it.
pub strlen-length :
    (fuel : ℕ) (m : Mem) (p : ℕ) (xs : List ℕ)
    → Text m p xs
    → p + length xs < 2 ^ 32
    → length xs < fuel
    → strlen fuel m p ≡ some (length xs)
unfolding strlen
strlen-length fuel m p xs t h f = ground (arith, strlen_loop-length fuel m p 0 xs)
