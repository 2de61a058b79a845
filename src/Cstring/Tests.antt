-- ===== src/Cstring/Tests.antt =====
-- The texts "ab" at 16 and "ac" at 32.
use experimental_kernel.Common.{
  ℕ, ◌+◌, ◌-◌, ◌<◌, ◌≤◌, ◌^◌, ◌≡◌, ◌↔◌, ◌==◌, if◌then◌else◌, refl, arith, inr, ◌+ʷ◌,
}
use experimental_kernel.Memory.{Mem}
use experimental_kernel.Memory.Bytes.{within}
use experimental_kernel.Cstring.{strncmp, strncmp_loop, strncmp_end, strncpy}
use experimental_kernel.Cstring.Compare.{strncmp-agree_iff}
use experimental_kernel.Cstring.Copy.{strncpy-within}

abbrev words : Mem
words x =
    if x == 16
    then 97
    else if x == 17
    then 98
    else if x == 32
    then 97
    else if x == 33
    then 99
    else 0

words_bytes : (a : ℕ) → words a < 256
words_bytes a = ground arith

-- The first byte agrees, and the second differs: it is compared although one byte is asked for.
strncmp_runs : strncmp words 16 32 1 ≡ 2 ^ 32 - 2
unfolding strncmp strncmp_loop strncmp_end
strncmp_runs = refl

strncmp-agree_iff_example :
    (strncmp words 16 32 1 ≡ 0) ↔ ((k : ℕ) → k ≤ 1 → words (16 +ʷ k) ≡ words (32 +ʷ k))
strncmp-agree_iff_example = strncmp-agree_iff words words_bytes 16 32 1 (omega arith)

strncpy-within_example :
    strncpy 64 16 5 words 65
    ≡ (if within 64 2 65 then words (16 + (65 - 64)) else if 65 == 64 + 2 then 0 else words 65)
strncpy-within_example =
    strncpy-within 5 2 64 16 words words_bytes (omega arith) (omega arith) (λ a lo hi. ground arith)
      (inr refl) (omega arith) (omega arith) (inr (omega arith)) 65
