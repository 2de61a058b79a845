-- ===== src/Cstring/Compare.antt =====
-- `strncmp`: which bytes it compares.
use experimental_kernel.Common.{
  ℕ, zero, suc, ◌+◌, ◌≤◌, ◌<◌, ◌^◌, ◌≡◌, ◌↔◌, arith, ◌+ʷ◌, inl, inr, Bool-cases, ◌==◌, ==→eq, ==→ne,
}
use experimental_kernel.Memory.{Mem}
use experimental_kernel.Cstring.{strncmp_end, strncmp_loop, strncmp}

strncmp_end_iff :
    (m : Mem) (s1 s2 i : ℕ)
    → m (s1 +ʷ i) < 256
    → m (s2 +ʷ i) < 256
    → i + 1 < 2 ^ 32
    → (strncmp_end m s1 s2 i ≡ 0) ↔ (m (s1 +ʷ i) ≡ m (s2 +ʷ i))
unfolding strncmp_end
strncmp_end_iff m s1 s2 i b1 b2 h = (ground arith, ground arith)

module _ (m : Mem) (bytes : (a : ℕ) → m a < 256) (s1 s2 : ℕ) where
  strncmp_loop-suc :
      (left i : ℕ)
      → i + 1 < 2 ^ 32
      → strncmp_loop (suc left) m s1 s2 i ≡ 0
      → (m (s1 +ʷ i) ≡ m (s2 +ʷ i)) × (strncmp_loop left m s1 s2 (i + 1) ≡ 0)
  unfolding strncmp_loop
  strncmp_loop-suc left i h e =
      ground (arith, strncmp_end_iff m s1 s2 i (bytes _) (bytes _) (omega arith))

  strncmp_loop-agree :
      (left i : ℕ)
      → i + left + 1 < 2 ^ 32
      → strncmp_loop left m s1 s2 i ≡ 0
      → (k : ℕ) → i ≤ k
      → k ≤ i + left
      → m (s1 +ʷ k) ≡ m (s2 +ʷ k)
  strncmp_loop-agree zero i h e k lo hi =
      let here : i ≡ k = omega arith in
      rw (← here)
        ((strncmp_end_iff m s1 s2 i (bytes _) (bytes _) (omega arith)).0 (unfold strncmp_loop in e))
  strncmp_loop-agree (suc left) i h e k lo hi = elim (Bool-cases (i == k)) [
    | inl here ↦ rw (← ==→eq i k here) ((strncmp_loop-suc left i (omega arith) e).0)
    | inr later ↦
        strncmp_loop-agree left (i + 1) (omega arith) ((strncmp_loop-suc left i (omega arith) e).1)
          k (omega (arith, ==→ne i k later)) (omega arith)
  ]

  agree-strncmp_loop :
      (left i : ℕ)
      → i + left + 1 < 2 ^ 32
      → ((k : ℕ) → i ≤ k → k ≤ i + left → m (s1 +ʷ k) ≡ m (s2 +ʷ k))
      → strncmp_loop left m s1 s2 i ≡ 0
  unfolding strncmp_loop
  agree-strncmp_loop zero i h same =
      (strncmp_end_iff m s1 s2 i (bytes _) (bytes _) (omega arith)).1
        (same i (omega arith) (omega arith))
  agree-strncmp_loop (suc left) i h same = ground (
    arith,
    same i,
    agree-strncmp_loop left (i + 1) (omega arith) (λ k lo hi. same k (omega arith) (omega arith)),
  )

  -- `strncmp` gives 0 exactly when the bytes at the offsets 0 to `num` agree, `num` included,
  -- for bytes below 256 and `num + 1` below 2 ^ 32.
  pub strncmp-agree_iff :
      (num : ℕ)
      → num + 1 < 2 ^ 32
      → (strncmp m s1 s2 num ≡ 0) ↔ ((k : ℕ) → k ≤ num → m (s1 +ʷ k) ≡ m (s2 +ʷ k))
  unfolding strncmp
  strncmp-agree_iff num h = (
    λ e k hi. strncmp_loop-agree num 0 (omega arith) e k (omega arith) (omega arith),
    λ same. agree-strncmp_loop num 0 (omega arith) (λ k lo hi. same k (omega arith)),
  )
