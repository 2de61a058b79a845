-- ===== src/Bits.antt =====
-- Single bits of a word: what `&` and `|` with a power of two do, as arithmetic.
use Prim.Native.Nat.{digits, bitwise, bit_and-bitwise, bit_or-bitwise}
use native.Mathlib.Nat.{div-div-eq-div-mul, mul_comm, pow-suc, one-le-pow, le_refl}
use experimental_kernel.Common.{
  ℕ, zero, suc, ◌+◌, ◌-◌, ◌*◌, ◌/◌, ◌%◌, ◌^◌, ◌≤◌, ◌<◌, ◌≡◌, refl, arith, min, max, bit_and, bit_or,
  ap, ◌==◌, ◌∙◌, if◌then◌else◌, sym,
}

-- Bit `j` of `w`.
abbrev pub bit : ℕ → ℕ → ℕ
bit w j = w / 2 ^ j % 2

module _ (z : ℕ → ℕ) (f : ℕ → ℕ → ℕ) where
  -- The digits of `a` run out before any fuel that is not below `a`.
  enough_digits : (n m a b : ℕ) → a ≤ n → a ≤ m → digits z f n a b ≡ digits z f m a b
  enough_digits n m zero b p q = rw (at_zero n b, at_zero m b)
    where
      at_zero : (k b : ℕ) → digits z f k 0 b ≡ z b
      at_zero zero b = refl
      at_zero (suc k) b = refl
  enough_digits zero m (suc a) b p q = absurd (omega arith)
  enough_digits (suc n) zero (suc a) b p q = absurd (omega arith)
  enough_digits (suc n) (suc m) (suc a) b p q =
      rw (enough_digits n m (suc a / 2) (b / 2) (omega arith) (omega arith))

  bitwise_low :
      (a b : ℕ)
      → bitwise z f (suc a) b ≡ bitwise z f (suc a / 2) (b / 2) * 2 + f (suc a % 2) (b % 2)
  bitwise_low a b =
      ap (λ t. t * 2 + f (suc a % 2) (b % 2))
        (enough_digits a (suc a / 2) (suc a / 2) (b / 2) (omega arith) (le_refl _))

-- The lowest bit apart from the others.
bit_and_low : (a b : ℕ) → bit_and a b ≡ bit_and (a / 2) (b / 2) * 2 + min (a % 2) (b % 2)
bit_and_low zero b = omega (arith, bit_and-bitwise 0 b, bit_and-bitwise 0 (b / 2))
bit_and_low (suc a) b = omega (
  arith,
  bit_and-bitwise (suc a) b,
  bit_and-bitwise (suc a / 2) (b / 2),
  bitwise_low (λ y. 0) min a b,
)

bit_or_low : (a b : ℕ) → bit_or a b ≡ bit_or (a / 2) (b / 2) * 2 + max (a % 2) (b % 2)
bit_or_low zero b = omega (arith, bit_or-bitwise 0 b, bit_or-bitwise 0 (b / 2))
bit_or_low (suc a) b = omega (
  arith,
  bit_or-bitwise (suc a) b,
  bit_or-bitwise (suc a / 2) (b / 2),
  bitwise_low (λ y. y) max a b,
)

-- Below a power of two there is fuel enough for an induction.
bit_and-zero : (k a : ℕ) → a ≤ k → bit_and a 0 ≡ 0
bit_and-zero k zero h = bit_and-bitwise 0 0
bit_and-zero zero (suc a) h = absurd (omega arith)
bit_and-zero (suc k) (suc a) h =
    omega (arith, bit_and_low (suc a) 0, bit_and-zero k (suc a / 2) (omega arith))

bit_or-zero : (k a : ℕ) → a ≤ k → bit_or a 0 ≡ a
bit_or-zero k zero h = bit_or-bitwise 0 0
bit_or-zero zero (suc a) h = absurd (omega arith)
bit_or-zero (suc k) (suc a) h =
    omega (arith, bit_or_low (suc a) 0, bit_or-zero k (suc a / 2) (omega arith))

half_pow : (j : ℕ) → (2 ^ suc j / 2 ≡ 2 ^ j) × (2 ^ suc j % 2 ≡ 0)
half_pow j = (omega (arith, pow-suc 2 j), omega (arith, pow-suc 2 j))

half_bit : (w j : ℕ) → bit (w / 2) j ≡ bit w (suc j)
half_bit w j =
    rw (pow-suc 2 j)
      (ap (λ t. t % 2) (div-div-eq-div-mul w 2 (2 ^ j)) ∙ ap (λ t. w / t % 2) (mul_comm 2 (2 ^ j)))

-- Masking by one bit.
pub bit_and_pow : (j w : ℕ) → bit_and w (2 ^ j) ≡ bit w j * 2 ^ j
bit_and_pow zero w = omega (arith, bit_and_low w 1, bit_and-zero (w / 2) (w / 2) (le_refl _))
bit_and_pow (suc j) w = omega (
  arith,
  bit_and_low w (2 ^ suc j),
  ap (bit_and (w / 2)) ((half_pow j).0),
  half_pow j,
  bit_and_pow j (w / 2),
  half_bit w j,
  ap (λ (t : ℕ). t * 2 ^ j) (half_bit w j),
  ap (λ (t : ℕ). bit w (suc j) * t) (pow-suc 2 j),
)

-- Setting one bit.
pub bit_or_pow : (j w : ℕ) → bit_or w (2 ^ j) ≡ w + (1 - bit w j) * 2 ^ j
bit_or_pow zero w = omega (arith, bit_or_low w 1, bit_or-zero (w / 2) (w / 2) (le_refl _))
bit_or_pow (suc j) w = omega (
  arith,
  bit_or_low w (2 ^ suc j),
  ap (bit_or (w / 2)) ((half_pow j).0),
  half_pow j,
  bit_or_pow j (w / 2),
  ap (λ (t : ℕ). (1 - t) * 2 ^ j) (half_bit w j),
  ap (λ (t : ℕ). (1 - bit w (suc j)) * t) (pow-suc 2 j),
)

-- A mask of one bit is zero exactly when the bit is.
pub bit_and_pow-zero : (j w : ℕ) → (bit_and w (2 ^ j) == 0) ≡ (bit w j == 0)
bit_and_pow-zero j w =
    let positive : 1 ≤ 2 ^ j = one-le-pow j 2 (omega arith) in
    let low : bit w j < 2 = omega arith in rw (bit_and_pow j w) (of_bit (bit w j) low positive)
  where
    of_bit : (b : ℕ) → b < 2 → 1 ≤ 2 ^ j → (b * 2 ^ j == 0) ≡ (b == 0)
    of_bit zero lt pos = ground arith
    of_bit (suc zero) lt pos = ground arith
    of_bit (suc (suc b)) lt pos = absurd (omega arith)

-- What `|` with one bit does to every bit.
pub bit-bit_or_pow : (i j w : ℕ) → bit (bit_or w (2 ^ j)) i ≡ (if i == j then 1 else bit w i)
bit-bit_or_pow zero zero w = omega (arith, bit_or_low w 1)
bit-bit_or_pow zero (suc j) w = ground (arith, bit_or_low w (2 ^ suc j), half_pow j)
bit-bit_or_pow (suc i) zero w =
    let rest : bit_or w 1 / 2 ≡ w / 2 =
      omega (arith, bit_or_low w 1, bit_or-zero (w / 2) (w / 2) (le_refl _)) in
    sym (half_bit (bit_or w 1) i) ∙ ap (λ t. bit t i) rest ∙ half_bit w i ∙ ground arith
bit-bit_or_pow (suc i) (suc j) w =
    let rest : bit_or w (2 ^ suc j) / 2 ≡ bit_or (w / 2) (2 ^ j) =
      omega (arith, bit_or_low w (2 ^ suc j), half_pow j, ap (bit_or (w / 2)) ((half_pow j).0)) in
    sym (half_bit (bit_or w (2 ^ suc j)) i)
    ∙ ap (λ t. bit t i) rest
    ∙ bit-bit_or_pow i j (w / 2)
    ∙ ground (arith, half_bit w i)

-- A low half byte and a number of whole half bytes have no bit in common.
pub bit_or_low_half : (a b : ℕ) → a < 16 → b % 16 ≡ 0 → bit_or a b ≡ a + b
bit_or_low_half a b small whole =
    let gone : a / 2 / 2 / 2 / 2 ≡ 0 = omega arith in
    let top : bit_or (a / 2 / 2 / 2 / 2) (b / 2 / 2 / 2 / 2) ≡ b / 2 / 2 / 2 / 2 =
      rw gone (bit_or-bitwise 0 (b / 2 / 2 / 2 / 2)) in
    omega (
      arith,
      bit_or_low a b,
      bit_or_low (a / 2) (b / 2),
      bit_or_low (a / 2 / 2) (b / 2 / 2),
      bit_or_low (a / 2 / 2 / 2) (b / 2 / 2 / 2),
      top,
    )

-- The three low bits are set.
pub bit_or_7 : (w : ℕ) → bit_or w 7 ≡ w / 8 * 8 + 7
bit_or_7 w =
    let a : bit_or w 7 ≡ bit_or (w / 2) 3 * 2 + max (w % 2) 1 = bit_or_low w 7 in
    let b : bit_or (w / 2) 3 ≡ bit_or (w / 2 / 2) 1 * 2 + max (w / 2 % 2) 1 =
      bit_or_low (w / 2) 3 in
    let c : bit_or (w / 2 / 2) 1 ≡ bit_or (w / 2 / 2 / 2) 0 * 2 + max (w / 2 / 2 % 2) 1 =
      bit_or_low (w / 2 / 2) 1 in
    let top : bit_or (w / 2 / 2 / 2) 0 ≡ w / 2 / 2 / 2 =
      bit_or-zero (w / 2 / 2 / 2) (w / 2 / 2 / 2) (omega arith) in
    omega (arith, a, b, c, top)

-- The mask of the low four bits.
bit_and_15 : (x : ℕ) → x < 16 → bit_and x 15 ≡ x
bit_and_15 x small =
    let gone : x / 2 / 2 / 2 / 2 ≡ 0 = omega arith in
    let a : bit_and x 15 ≡ bit_and (x / 2) 7 * 2 + min (x % 2) 1 = bit_and_low x 15 in
    let b : bit_and (x / 2) 7 ≡ bit_and (x / 2 / 2) 3 * 2 + min (x / 2 % 2) 1 =
      bit_and_low (x / 2) 7 in
    let c : bit_and (x / 2 / 2) 3 ≡ bit_and (x / 2 / 2 / 2) 1 * 2 + min (x / 2 / 2 % 2) 1 =
      bit_and_low (x / 2 / 2) 3 in
    let d : bit_and (x / 2 / 2 / 2) 1
        ≡ bit_and (x / 2 / 2 / 2 / 2) 0 * 2 + min (x / 2 / 2 / 2 % 2) 1 =
      bit_and_low (x / 2 / 2 / 2) 1 in
    let top : bit_and (x / 2 / 2 / 2 / 2) 0 ≡ 0 = rw gone refl in omega (arith, a, b, c, d, top)

-- The mask of the high half of a byte.
pub bit_and_high_half : (g : ℕ) → g < 256 → bit_and g 0xF0 ≡ g / 16 * 16
bit_and_high_half g byte =
    let a : bit_and g 240 ≡ bit_and (g / 2) 120 * 2 + min (g % 2) 0 = bit_and_low g 240 in
    let b : bit_and (g / 2) 120 ≡ bit_and (g / 2 / 2) 60 * 2 + min (g / 2 % 2) 0 =
      bit_and_low (g / 2) 120 in
    let c : bit_and (g / 2 / 2) 60 ≡ bit_and (g / 2 / 2 / 2) 30 * 2 + min (g / 2 / 2 % 2) 0 =
      bit_and_low (g / 2 / 2) 60 in
    let d : bit_and (g / 2 / 2 / 2) 30
        ≡ bit_and (g / 2 / 2 / 2 / 2) 15 * 2 + min (g / 2 / 2 / 2 % 2) 0 =
      bit_and_low (g / 2 / 2 / 2) 30 in
    omega (arith, a, b, c, d, bit_and_15 (g / 2 / 2 / 2 / 2) (omega arith))

-- The low half of a byte.
pub bit_and_low_half : (w : ℕ) → bit_and w 0x0F ≡ w % 16
bit_and_low_half w = omega (
  arith,
  bit_and_low w 15,
  bit_and_low (w / 2) 7,
  bit_and_low (w / 2 / 2) 3,
  bit_and_low (w / 2 / 2 / 2) 1,
  bit_and-zero (w / 2 / 2 / 2 / 2) (w / 2 / 2 / 2 / 2) (le_refl _),
)
