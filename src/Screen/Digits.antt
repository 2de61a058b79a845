-- ===== src/Screen/Digits.antt =====
-- The digits of a number in a base, and their value.
use native.Mathlib.Nat.{
  div-div-eq-div-mul, div-eq_of_lt, pow-suc, div-add-mod', div-one, pow-zero, mod-lt,
}
use experimental_kernel.Common.{
  ℕ, zero, suc, ◌+◌, ◌*◌, ◌/◌, ◌%◌, ◌^◌, ◌<◌, ◌≡◌, refl, sym, ap, ◌∙◌, arith, List, [], ◌∷◌, length,
  map, Option, none, some,
}

-- The last `n` digits of a number, the highest first.
abbrev pub digits_of : ℕ → ℕ → ℕ → List ℕ
digits_of base zero k = []
digits_of base (suc n) k = (k / base ^ n) % base ∷ digits_of base n k

-- What digits add to a number in front of them.
abbrev pub value_after : ℕ → ℕ → List ℕ → ℕ
value_after base front [] = front
value_after base front (d ∷ ds) = value_after base (front * base + d) ds

pub length-digits_of : (base n k : ℕ) → length (digits_of base n k) ≡ n
length-digits_of base zero k = refl
length-digits_of base (suc n) k = omega (arith, length-digits_of base n k)

-- One digit less to go.
pub quotient_step : (base n k : ℕ) → k / base ^ suc n ≡ (k / base ^ n) / base
quotient_step base n k = rw (pow-suc base n) (sym (div-div-eq-div-mul k (base ^ n) base))

pub value_after-digits_of :
    (base n k : ℕ) → value_after base (k / base ^ n) (digits_of base n k) ≡ k
value_after-digits_of base zero k = rw (pow-zero base) (div-one k)
value_after-digits_of base (suc n) k =
    let here : (k / base ^ suc n) * base + (k / base ^ n) % base ≡ k / base ^ n =
      ap (λ q. q * base + (k / base ^ n) % base) (quotient_step base n k)
      ∙ div-add-mod' (k / base ^ n) base in
    ap (λ front. value_after base front (digits_of base n k)) here ∙ value_after-digits_of base n k

-- Digits of the base.
abbrev pub Below : ℕ → List ℕ → Type 0
Below base [] = Unit
Below base (d ∷ ds) = (d < base) × Below base ds

pub digits_of-Below : (base n k : ℕ) → 0 < base → Below base (digits_of base n k)
digits_of-Below base zero k lt = tt
digits_of-Below base (suc n) k lt = (mod-lt (k / base ^ n) lt, digits_of-Below base n k lt)

-- All digits of a number.
pub value_of_digits : (base n k : ℕ) → k < base ^ n → value_after base 0 (digits_of base n k) ≡ k
value_of_digits base n k lt =
    ap (λ front. value_after base front (digits_of base n k)) (sym (div-eq_of_lt lt))
    ∙ value_after-digits_of base n k

-- A number read from characters, the highest digit first, given what a digit is: `none` where a character
-- is no digit.
abbrev pub read_number : ℕ → (ℕ → Option ℕ) → ℕ → List ℕ → Option ℕ
read_number base digit front [] = some front
read_number base digit front (c ∷ cs) = elim (digit c) [
  | none ↦ none
  | some d ↦ read_number base digit (front * base + d) cs
]

-- Characters of digits are read as the value of the digits.
pub read_number-map :
    (base : ℕ) (digit : ℕ → Option ℕ) (character : ℕ → ℕ)
    → ((d : ℕ) → d < base → digit (character d) ≡ some d)
    → (front : ℕ) (ds : List ℕ) → Below base ds
    → read_number base digit front (map character ds) ≡ some (value_after base front ds)
read_number-map base digit character back front [] all = refl
read_number-map base digit character back front (d ∷ ds) all =
    rw (back d all.0) (read_number-map base digit character back (front * base + d) ds all.1)
