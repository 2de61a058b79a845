-- ===== src/Cstring/Text.antt =====
-- Zero-terminated text in the byte store, as a list of its bytes.
use experimental_kernel.Common.{ℕ, ◌+◌, ◌≤◌, ◌<◌, ◌≡◌, ◌≢◌, List, [], ◌∷◌, arith, length}
use experimental_kernel.Memory.{Mem}

-- From `p` on stand the non-zero bytes `xs`, and then a zero.
abbrev pub Text : Mem → ℕ → List ℕ → Type 0
Text m p [] = m p ≡ 0
Text m p (x ∷ xs) = (m p ≡ x) × (x ≢ 0) × (x < 256) × Text m (p + 1) xs

-- A text survives a change outside its bytes.
pub Text-frame :
    (m g : Mem) (p : ℕ) (xs : List ℕ)
    → ((a : ℕ) → p ≤ a → a ≤ p + length xs → g a ≡ m a)
    → Text m p xs
    → Text g p xs
Text-frame m g p [] same h = ground (arith, same p)
Text-frame m g p (x ∷ xs) same h = (
  ground (arith, same p, h),
  h.1,
  h.2,
  Text-frame m g (p + 1) xs (λ a lo hi. same a (omega arith) (omega arith)) h.3,
)
