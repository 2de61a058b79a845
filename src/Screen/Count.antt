-- ===== src/Screen/Count.antt =====
-- The number of the digits of an int that is not negative, and the loops of printInt that divide by ten.
use native.Mathlib.Nat.{pow-succ', div-div-eq-div-mul, div-one, pow-le-pow_right}
use experimental_kernel.Common.{
  ℕ, zero, suc, ◌+◌, ◌/◌, ◌^◌, ◌<◌, ◌≤◌, ◌≡◌, ◌≢◌, ◌⊎◌, inl, inr, arith, refl, ◌∙◌, ap, sym, ltb,
  some, true, false, Bool-cases, ◌==◌, ==→eq, ==→ne, ne→==, ltb→lt, ltb→le,
}
use experimental_kernel.Screen.Numbers.{drop_digits, count_digits, int_quotient}

int_quotient_positive : (k : ℕ) → k < 2 ^ 31 → int_quotient k ≡ k / 10
unfolding int_quotient
int_quotient_positive k lt = ground (arith, lt)

pub drop_digits_lem : (i k : ℕ) → k < 2 ^ 31 → drop_digits i k ≡ k / 10 ^ i
unfolding drop_digits
drop_digits_lem zero k lt = sym (div-one k)
drop_digits_lem (suc i) k lt =
    drop_digits_lem i (int_quotient k) (omega (arith, int_quotient_positive k lt))
    ∙ ap (λ q. q / 10 ^ i) (int_quotient_positive k lt)
    ∙ div-div-eq-div-mul k 10 (10 ^ i)
    ∙ ap (λ p. k / p) (sym (pow-succ' 10 i))

-- The number has `j + 1` digits, and no fewer.
pub record Counts (k j : ℕ) : Type 0 where
  pub enough : k < 10 ^ suc j
  pub needed : (j ≡ 0) ⊎ (10 ^ j ≤ k)

leading : (k j : ℕ) → k / 10 ≢ 0 → (j ≡ 0) ⊎ (10 ^ j ≤ k / 10) → 10 ^ suc j ≤ k
leading k zero more d = omega (arith, more)
leading k (suc j) more (inl e) = absurd (omega (arith, e))
leading k (suc j) more (inr e) = omega (arith, pow-succ' 10 (suc j), e)

Counts-tenth : (k j : ℕ) → k / 10 ≢ 0 → Counts (k / 10) j → Counts k (suc j)
Counts-tenth k j more c = record {
  enough = omega (arith, pow-succ' 10 (suc j), c.enough);
  needed = inr (leading k j more c.needed);
}

fuel_left : (fuel k : ℕ) → k ≢ 0 → k < 10 ^ fuel → 0 < fuel
fuel_left zero k more fits = absurd (more (omega (arith, fits)))
fuel_left (suc fuel) k more fits = omega arith

count_digits-last :
    (fuel k num : ℕ) → k < 2 ^ 31 → k / 10 ≡ 0 → count_digits (suc fuel) k num ≡ some (num + 1)
unfolding count_digits
count_digits-last fuel k num lt last =
    (let q : (int_quotient k == 0) ≡ true = ground (arith, int_quotient_positive k lt, last) in
      rw q refl)

count_digits-more :
    (fuel k num : ℕ)
    → k < 2 ^ 31
    → k / 10 ≢ 0
    → count_digits (suc fuel) k num ≡ count_digits fuel (k / 10) (num + 1)
unfolding count_digits
count_digits-more fuel k num lt more =
    let q : int_quotient k ≡ k / 10 = int_quotient_positive k lt in
    let test : (k / 10 == 0) ≡ false = ne→== _ _ more in rw (q, test) refl

pub count_digits-Counts :
    (fuel k num : ℕ)
    → k < 2 ^ 31
    → 0 < fuel
    → k < 10 ^ fuel
    → (j : ℕ) × (count_digits fuel k num ≡ some (num + suc j)) × (j < fuel) × Counts k j
count_digits-Counts zero k num lt some_ fits = absurd (omega arith)
count_digits-Counts (suc fuel) k num lt some_ fits = elim (Bool-cases (k / 10 == 0)) [
  | inl last ↦
      let tenth : k / 10 ≡ 0 = ==→eq _ _ last in
      (
        0,
        count_digits-last fuel k num lt tenth,
        omega arith,
        record { enough = omega (arith, tenth); needed = inl refl },
      )
  | inr more ↦
      let real : k / 10 ≢ 0 = ==→ne _ _ more in
      let fit : k / 10 < 10 ^ fuel = omega (arith, pow-succ' 10 fuel, fits) in
      let (j, e, le, c) =
        count_digits-Counts fuel (k / 10) (num + 1) (omega arith) (fuel_left fuel (k / 10) real fit)
          fit in
      let count : (i : ℕ) → num + 1 + suc i ≡ num + suc (suc i) = λ i. omega arith in
      (
        suc j,
        count_digits-more fuel k num lt real ∙ e ∙ ap some (count j),
        omega (arith, le),
        Counts-tenth k j real c,
      )
]

pub power_le : (i j : ℕ) → i ≤ j → 10 ^ i ≤ 10 ^ j
power_le i j le = pow-le-pow_right (omega arith) le

pub ten_digits : (k j : ℕ) → k < 2 ^ 31 → (j ≡ 0) ⊎ (10 ^ j ≤ k) → suc j ≤ 10
ten_digits k j lt (inl e) = omega (arith, e)
ten_digits k j lt (inr e) = elim (Bool-cases (ltb j 10)) [
  | inl few ↦ ltb→lt _ _ few
  | inr many ↦
      let large : 10 ^ 10 ≤ 10 ^ j = power_le 10 j (ltb→le _ _ many) in
      absurd (omega (arith, e, large))
]
