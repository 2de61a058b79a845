-- ===== src/Screen/Decimal.antt =====
-- What printInt shows of a number that is not negative.
use native.Mathlib.Nat.{div-le_self}
use mathlib.Core.Path.{subst}
use experimental_kernel.Common.{
  ℕ, zero, suc, ◌+◌, ◌-◌, ◌/◌, ◌%◌, ◌^◌, ◌<◌, ◌≤◌, ◌≡◌, ◌≢◌, ◌⊎◌, arith, refl, List, [], ◌∷◌,
  length, ◌∙◌, ap, sym, map, Option, none, some, u8, leb, ◌&&◌, if◌then◌else◌,
}
use experimental_kernel.Memory.{Mem, store}
use experimental_kernel.Screen.{Screen, put_cell}
use experimental_kernel.Screen.Cursor.{cursor, cells}
use experimental_kernel.Screen.Shows.{Shows, Shows-cons, cell_address}
use experimental_kernel.Screen.Numbers.{
  print_int, print_digits, drop_digits, count_digits, int_remainder,
}
use experimental_kernel.Screen.Count.{drop_digits_lem, count_digits-Counts, power_le, ten_digits}
use experimental_kernel.Screen.Digits.{
  digits_of, value_of_digits, digits_of-Below, read_number, read_number-map,
}

-- The value of the characters 0 to 9, and none for any other character.
abbrev pub digit_value : ℕ → Option ℕ
digit_value c = if leb 48 c && leb c 57 then some (c - 48) else none

-- The characters of the last `num` digits.
abbrev decimal_text : ℕ → ℕ → List ℕ
decimal_text zero k = []
decimal_text (suc num) k = (k / 10 ^ num % 10 + 48) ∷ decimal_text num k

print_digits-next :
    (num : ℕ) (s : Screen) (m : Mem) (k : ℕ)
    → k < 2 ^ 31
    → print_digits (suc num) s m k
      ≡ print_digits num (record s { x = s.x + 1 }) (put_cell s m (k / 10 ^ num % 10 + 48)) k
unfolding print_digits int_remainder
print_digits-next num s m k lt =
    let small : k / 10 ^ num < 2 ^ 31 = omega (arith, div-le_self k (10 ^ num)) in
    let digit : u8 (int_remainder (drop_digits num k) + 48) ≡ k / 10 ^ num % 10 + 48 =
      ap (λ q. u8 (int_remainder q + 48)) (drop_digits_lem num k lt) ∙ ground (arith, small) in
    rw digit refl

put_cell_here :
    (s : Screen) (m : Mem) (c : ℕ)
    → cursor s < cells
    → c < 256
    → put_cell s m c (cell_address (cursor s)) ≡ c
unfolding store
put_cell_here s m c inside byte = ground (arith, inside, byte)

put_cell_other :
    (s : Screen) (m : Mem) (c n : ℕ)
    → cursor s < cells
    → n % cells ≢ cursor s
    → put_cell s m c (cell_address n) ≡ m (cell_address n)
unfolding store
put_cell_other s m c n inside other = ground (arith, inside, other)

length-decimal_text : (num k : ℕ) → length (decimal_text num k) ≡ num
length-decimal_text zero k = refl
length-decimal_text (suc num) k = omega (arith, length-decimal_text num k)

digit_value-character : (d : ℕ) → d < 10 → digit_value (d + 48) ≡ some d
digit_value-character d lt = let back : d + 48 - 48 ≡ d = omega arith in ground (arith, lt, back)

decimal_text-digits_of : (num k : ℕ) → decimal_text num k ≡ map (λ d. d + 48) (digits_of 10 num k)
decimal_text-digits_of zero k = refl
decimal_text-digits_of (suc num) k = λ i. (k / 10 ^ num % 10 + 48) ∷ decimal_text-digits_of num k i

-- The digits stand in the cells from the cursor on, and the cursor is behind them on the same line.
print_digits-Shows :
    (num : ℕ) (s : Screen) (m : Mem) (k : ℕ)
    → k < 2 ^ 31
    → cursor s + num ≤ cells
    → ((print_digits num s m k).0 ≡ record s { x = s.x + num })
      × Shows (cursor s) (decimal_text num k) m (print_digits num s m k).1
print_digits-Shows zero s m k lt room = (
  (unfold print_digits in ap (λ x. record s { x = x }) (omega arith)),
  record {
    shown = λ i lt'. absurd (omega arith);
    others = λ i lo hi. (unfold print_digits in refl);
  },
)
print_digits-Shows (suc num) s m k lt room =
    let c = k / 10 ^ num % 10 + 48 in
    let next : Screen = record s { x = s.x + 1 } in
    let m1 = put_cell s m c in
    let inside : cursor s < cells = omega arith in
    let byte : c < 256 = omega arith in
    let (end, sh) = print_digits-Shows num next m1 k lt (omega arith) in
    let step = print_digits-next num s m k lt in
    (
      ap (λ r. r.0) step ∙ end ∙ ap (λ x. record s { x = x }) (omega arith),
      subst (λ r. Shows (cursor s) (decimal_text (suc num) k) m r.1) (sym step)
          (Shows-cons (cursor s) (cursor next) m m1 (print_digits num next m1 k).1 c
            (decimal_text num k) inside (omega (arith, length-decimal_text num k, room))
            (omega arith) (put_cell_here s m c inside byte)
            (λ n other. put_cell_other s m c n inside other) sh),
    )

print_int_lem :
    (fuel : ℕ) (s : Screen) (m : Mem) (k num : ℕ)
    → count_digits fuel k 0 ≡ some num
    → print_int fuel s m k ≡ some ((print_digits num s m k).0, (print_digits num s m k).1)
unfolding print_int
print_int_lem fuel s m k num e = rw (print_int, e) refl

-- `print_int` of an int that is not negative, with room on the screen for ten characters behind the
-- cursor (fuel above 9 is enough for its loop), shows characters from 0 to 9 from the cursor on: read
-- back as a decimal number, highest digit first, they give the int, and there are no more of them than it
-- needs. The cursor is moved behind them, without going to the next line.
pub print_int-Shows :
    (fuel : ℕ) (s : Screen) (m : Mem) (k : ℕ)
    → 9 < fuel
    → k < 2 ^ 31
    → cursor s + 10 ≤ cells
    → (cs : List ℕ) × (m' : Mem) × (j : ℕ) × (print_int fuel s m k
        ≡ some (record s { x = s.x + length cs }, m'))
      × (length cs ≡ suc j)
      × ((j ≡ 0) ⊎ (10 ^ j ≤ k))
      × (read_number 10 digit_value 0 cs ≡ some k)
      × Shows (cursor s) cs m m'
print_int-Shows fuel s m k more lt room =
    let (j, counted, _, c) =
      count_digits-Counts fuel k 0 lt (omega arith)
        (omega (arith, power_le 10 fuel (omega arith))) in
    let few : suc j ≤ 10 = ten_digits k j lt c.needed in
    let count = length-decimal_text (suc j) k in
    let texts = decimal_text-digits_of (suc j) k in
    let (end, sh) = print_digits-Shows (suc j) s m k lt (omega (arith, few, room)) in
    let r = print_digits (suc j) s m k in
    (
      decimal_text (suc j) k,
      r.1,
      j,
      print_int_lem fuel s m k (suc j) (counted ∙ ap some (omega arith))
          ∙ ap (λ t. some (t, r.1)) (end ∙ ap (λ n. record s { x = s.x + n }) (sym count)),
      count,
      c.needed,
      ap (read_number 10 digit_value 0) texts
          ∙ read_number-map 10 digit_value (λ d. d + 48) digit_value-character 0
              (digits_of 10 (suc j) k) (digits_of-Below 10 (suc j) k (omega arith))
          ∙ ap some (value_of_digits 10 (suc j) k c.enough),
      sh,
    )
