-- ===== src/Paging/Search.antt =====
-- getFreeFrame finds the first frame whose bit is clear.
use experimental_kernel.Common.{
  ℕ, zero, suc, ◌+◌, ◌*◌, ◌/◌, ◌%◌, ◌==◌, ◌<◌, ◌≤◌, ◌≡◌, ◌≢◌, inl, inr, refl, arith, if◌then◌else◌,
  Option, none, some, Bool, true, false, not, ◌&&◌, ltb, ltb→lt, ltb→le, Bool-cases, ==→eq, ==→ne,
}
use experimental_kernel.Bits.{bit, bit_and_pow-zero}
use experimental_kernel.Paging.{Paging, find_bit, find_frame, get_free_frame}

-- The frame's bit in the bitmap.
abbrev pub is_busy : (ℕ → ℕ) → ℕ → Bool
is_busy frames n = not (bit (frames (n / 32)) (n % 32) == 0)

-- The first clear bit from `j` on, or none below `j + left`.
abbrev FirstClear : ℕ → ℕ → ℕ → Option ℕ → Type 0
FirstClear w from to none = (k : ℕ) → from ≤ k → k < to → bit w k ≡ 1
FirstClear w from to (some j) =
    (from ≤ j) × (j < to) × (bit w j ≡ 0) × ((k : ℕ) → from ≤ k → k < j → bit w k ≡ 1)

find_bit-FirstClear : (left j w : ℕ) → FirstClear w j (j + left) (find_bit left j w)
unfolding find_bit
find_bit-FirstClear zero j w = λ k lo hi. absurd (omega arith)
find_bit-FirstClear (suc left) j w = elim (Bool-cases (bit w j == 0)) [
  | inl clear ↦
      rw (bit_and_pow-zero j w, clear)
        (omega arith, omega arith, ==→eq _ _ clear, λ k lo hi. absurd (omega arith))
  | inr full ↦
      rw (bit_and_pow-zero j w, full)
        (later (find_bit left (j + 1) w) (find_bit-FirstClear left (j + 1) w) (==→ne _ _ full))
]
  where
    from_j : (k : ℕ) → (j + 1 ≤ k → bit w k ≡ 1) → bit w j ≢ 0 → j ≤ k → bit w k ≡ 1
    from_j k past full lo = elim (Bool-cases (j == k)) [
      | inl here ↦ rw (← ==→eq j k here) (omega arith)
      | inr beyond ↦ past (omega (arith, ==→ne j k beyond))
    ]

    later :
        (r : Option ℕ)
        → FirstClear w (j + 1) (j + 1 + left) r
        → bit w j ≢ 0
        → FirstClear w j (j + suc left) r
    later none h full = λ k lo hi. from_j k (λ past. h k past (omega arith)) full lo
    later (some i) (a, b, c, d) full =
        (omega arith, omega arith, c, λ k lo hi. from_j k (λ past. d k past hi) full lo)

all_ones : ℕ → Bool
all_ones zero = true
all_ones (suc k) = (bit 0xFFFFFFFF k == 1) && all_ones k

all_ones-bit : (n k : ℕ) → all_ones n ≡ true → k < n → bit 0xFFFFFFFF k ≡ 1
unfolding all_ones
all_ones-bit zero k h lt = absurd (omega arith)
all_ones-bit (suc n) k h lt = elim (Bool-cases (k == n)) [
  | inl here ↦ rw (==→eq k n here) (ground arith)
  | inr below ↦ all_ones-bit n k (ground arith) (omega (arith, ==→ne k n below))
]

pub full_word : (k : ℕ) → k < 32 → bit 0xFFFFFFFF k ≡ 1
unfolding all_ones
full_word k h = all_ones-bit 32 k refl h

-- The first free frame from `from` on, or none below `to`.
abbrev pub FirstFree : (ℕ → ℕ) → ℕ → ℕ → Option ℕ → Type 0
FirstFree frames from to none = (k : ℕ) → from ≤ k → k < to → is_busy frames k ≡ true
FirstFree frames from to (some n) =
    (from ≤ n)
    × (n < to)
    × (is_busy frames n ≡ false)
    × ((k : ℕ) → from ≤ k → k < n → is_busy frames k ≡ true)

module _ (frames : ℕ → ℕ) where
  -- The frames of a full word are busy.
  word_busy :
      (i : ℕ)
      → ((k : ℕ) → k < 32 → bit (frames i) k ≡ 1)
      → (n : ℕ) → i * 32 ≤ n
      → n < (i + 1) * 32
      → is_busy frames n ≡ true
  word_busy i full n lo hi =
      let word : n / 32 ≡ i = omega arith in rw (word, full (n % 32) (omega arith))

  FirstFree-skip :
      (left i : ℕ) (r : Option ℕ)
      → ((k : ℕ) → k < 32 → bit (frames i) k ≡ 1)
      → FirstFree frames ((i + 1) * 32) ((i + 1 + left) * 32) r
      → FirstFree frames (i * 32) ((i + suc left) * 32) r
  FirstFree-skip left i none full rest = λ k lo hi. elim (Bool-cases (ltb k ((i + 1) * 32))) [
    | inl word ↦ word_busy i full k lo (ltb→lt _ _ word)
    | inr past ↦ rest k (ltb→le _ _ past) (omega arith)
  ]
  FirstFree-skip left i (some n) full (a, b, c, d) = (
    omega arith,
    omega arith,
    c,
    λ k lo hi. elim (Bool-cases (ltb k ((i + 1) * 32))) [
      | inl word ↦ word_busy i full k lo (ltb→lt _ _ word)
      | inr past ↦ d k (ltb→le _ _ past) hi
    ],
  )

  FirstFree-here :
      (left i j : ℕ)
      → FirstClear (frames i) 0 32 (some j)
      → FirstFree frames (i * 32) ((i + suc left) * 32) (some (i * 32 + j))
  FirstFree-here left i j (a, b, c, d) =
      let word : (i * 32 + j) / 32 ≡ i = omega arith in
      let place : (i * 32 + j) % 32 ≡ j = omega arith in
      (
        omega arith,
        omega arith,
        rw (word, place, c),
        λ k lo hi.
            let word_k : k / 32 ≡ i = omega arith in
            rw (word_k, d (k % 32) (omega arith) (omega arith)),
      )

  find_frame-FirstFree :
      (left i : ℕ) → FirstFree frames (i * 32) ((i + left) * 32) (find_frame left i frames)
  unfolding find_frame
  find_frame-FirstFree zero i = λ k lo hi. absurd (omega arith)
  find_frame-FirstFree (suc left) i =
      by_word (find_frame left (i + 1) frames) (find_frame-FirstFree left (i + 1))
    where
      by_bit :
          (rest : Option ℕ)
          → FirstFree frames ((i + 1) * 32) ((i + 1 + left) * 32) rest
          → (r : Option ℕ) → FirstClear (frames i) 0 32 r
          → FirstFree frames
              (i * 32)
              ((i + suc left) * 32)
              (elim r [ none ↦ rest | some j ↦ some (i * 32 + j) ])
      by_bit rest h none full = FirstFree-skip left i rest (λ k lt. full k (omega arith) lt) h
      by_bit rest h (some j) clear = FirstFree-here left i j clear

      by_word :
          (rest : Option ℕ)
          → FirstFree frames ((i + 1) * 32) ((i + 1 + left) * 32) rest
          → FirstFree frames (i * 32) ((i + suc left) * 32) (
              if frames i == 0xFFFFFFFF
              then rest
              else elim (find_bit 32 0 (frames i)) [ none ↦ rest | some j ↦ some (i * 32 + j) ])
      by_word rest h = elim (Bool-cases (frames i == 0xFFFFFFFF)) [
        | inl full ↦
            rw full (FirstFree-skip left i rest (λ k lt. rw (==→eq _ _ full) (full_word k lt)) h)
        | inr other ↦
            rw other
              (by_bit rest h (find_bit 32 0 (frames i)) (find_bit-FirstClear 32 0 (frames i)))
      ]

-- getFreeFrame gives the lowest frame whose bit is clear, and -1 exactly when no bit is clear,
-- among the 32 * frameNumber_ bits that its loop visits.
pub get_free_frame-FirstFree :
    (p : Paging) → FirstFree p.frames 0 (p.frame_number * 32) (get_free_frame p)
unfolding get_free_frame
get_free_frame-FirstFree p =
    let all : 0 + p.frame_number ≡ p.frame_number = omega arith in
    rw all at (find_frame-FirstFree p.frames p.frame_number 0)
