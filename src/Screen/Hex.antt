-- ===== src/Screen/Hex.antt =====
-- What printHex shows.
use native.Mathlib.Nat.{pow-suc}
use experimental_kernel.Common.{
  ℕ, zero, suc, ◌+◌, ◌-◌, ◌*◌, ◌/◌, ◌%◌, ◌^◌, ◌<◌, ◌≡◌, ◌≢◌, arith, refl, List, [], ◌∷◌, length,
  get_or, Bool, true, not, ◌&&◌, ◌||◌, ◌==◌, ◌∙◌, ap, sym, ltb, leb, if◌then◌else◌, bit_and, map,
  Option, none, some,
}
use mathlib.Core.Path.{subst}
use experimental_kernel.Bits.{bit_and_low_half}
use experimental_kernel.Memory.{Mem}
use experimental_kernel.Screen.{Screen}
use experimental_kernel.Screen.Cursor.{IsOnScreen}
use experimental_kernel.Screen.Numbers.{print_literal, print_hex, print_hex_digits, hex_characters}
use experimental_kernel.Screen.Digits.{
  digits_of, value_of_digits, Below, digits_of-Below, length-digits_of, read_number,
  read_number-map,
}
use experimental_kernel.Screen.Literal.{Characters, Printed, print_literal-Printed}

-- The characters 0 to 9 and A to F.
abbrev is_hex : ℕ → Bool
is_hex c = (leb 48 c && leb c 57) || (leb 65 c && leb c 70)

abbrev value : ℕ → ℕ
value c = if ltb c 58 then c - 48 else c - 55

-- The value of a hexadecimal digit, and none for any other character.
abbrev pub hex_value : ℕ → Option ℕ
hex_value c = if is_hex c then some (value c) else none

abbrev hex_character : ℕ → ℕ
hex_character d = get_or hex_characters d 0

-- Whether these characters are digits with the values from `d` on.
abbrev is_run : ℕ → List ℕ → Bool
is_run d [] = true
is_run d (c ∷ cs) =
    (is_hex c && value c == d) && (not (c == 10) && (ltb c 256 && is_run (d + 1) cs))

in_run :
    (cs : List ℕ) (d i : ℕ)
    → is_run d cs ≡ true
    → i < length cs
    → (is_hex (get_or cs i 0) ≡ true)
      × (value (get_or cs i 0) ≡ d + i)
      × (get_or cs i 0 ≢ 10)
      × (get_or cs i 0 < 256)
in_run [] d i run lt = absurd (omega arith)
in_run (c ∷ cs) d zero run lt =
    (ground (arith, run), ground (arith, run), ground (arith, run), ground (arith, run))
in_run (c ∷ cs) d (suc i) run lt =
    let rest : is_run (d + 1) cs ≡ true = ground (arith, run) in
    let (digit, same, printable, byte) = in_run cs (d + 1) i rest (omega arith) in
    (digit, same ∙ omega arith, printable, byte)

power_of_16 : (i : ℕ) → 2 ^ (4 * i) ≡ 16 ^ i
power_of_16 zero = refl
power_of_16 (suc i) =
    let four : 4 * suc i ≡ suc (suc (suc (suc (4 * i)))) = omega arith in
    ap (λ n. 2 ^ n) four
    ∙ omega (
      arith,
      pow-suc 2 (suc (suc (suc (4 * i)))),
      pow-suc 2 (suc (suc (4 * i))),
      pow-suc 2 (suc (4 * i)),
      pow-suc 2 (4 * i),
      pow-suc 16 i,
      power_of_16 i,
    )

hex_character_lem :
    (d : ℕ)
    → d < 16
    → (hex_value (hex_character d) ≡ some d) × (hex_character d ≢ 10) × (hex_character d < 256)
hex_character_lem d lt =
    let (digit, same, printable, byte) = in_run hex_characters 0 d refl lt in
    let here : value (hex_character d) ≡ d = same ∙ omega arith in
    (rw (digit, here) refl, printable, byte)

hex_text-Characters : (ds : List ℕ) → Below 16 ds → Characters (map hex_character ds)
hex_text-Characters [] all = tt
hex_text-Characters (d ∷ ds) all =
    let (value_, printable, byte) = hex_character_lem d all.0 in
    (printable, byte, hex_text-Characters ds all.1)

length-hex_text : (ds : List ℕ) → length (map hex_character ds) ≡ length ds
length-hex_text [] = refl
length-hex_text (d ∷ ds) = omega (arith, length-hex_text ds)

print_hex_digits_lem :
    (i : ℕ) (s : Screen) (m : Mem) (k : ℕ)
    → print_hex_digits i s m k ≡ print_literal s m (map hex_character (digits_of 16 i k))
unfolding print_hex_digits print_literal
print_hex_digits_lem zero s m k = refl
print_hex_digits_lem (suc i) s m k =
    let digit : bit_and (k / 2 ^ (4 * i)) 0x0F ≡ k / 16 ^ i % 16 =
      bit_and_low_half (k / 2 ^ (4 * i)) ∙ ap (λ p. k / p % 16) (power_of_16 i) in
    rw digit (print_hex_digits_lem i _ _ k)

print_hex_lem :
    (s : Screen) (m : Mem) (k : ℕ)
    → print_hex s m k ≡ print_literal s m (48 ∷ 120 ∷ map hex_character (digits_of 16 8 k))
unfolding print_hex print_literal
print_hex_lem s m k = print_hex_digits_lem 8 _ _ k

-- `print_hex` of a word, with the cursor on the screen, prints "0x" and eight characters from 0 to 9 and
-- A to F: read back as a hexadecimal number, highest digit first, they give the word.
pub print_hex-Printed :
    (s : Screen) (m : Mem) (k : ℕ)
    → IsOnScreen s
    → k < 2 ^ 32
    → (cs : List ℕ) × (length cs ≡ 8)
      × (read_number 16 hex_value 0 cs ≡ some k)
      × Printed s m (48 ∷ 120 ∷ cs) (print_hex s m k)
print_hex-Printed s m k v word =
    let ds = digits_of 16 8 k in
    let below : Below 16 ds = digits_of-Below 16 8 k (omega arith) in
    let eight : length (map hex_character ds) ≡ 8 = length-hex_text ds ∙ length-digits_of 16 8 k in
    (
      map hex_character ds,
      eight,
      read_number-map 16 hex_value hex_character (λ d lt. (hex_character_lem d lt).0) 0 ds below
          ∙ ap some (value_of_digits 16 8 k word),
      subst (Printed s m (48 ∷ 120 ∷ map hex_character ds)) (sym (print_hex_lem s m k)) (
          print_literal-Printed (48 ∷ 120 ∷ map hex_character ds) s m v
            (omega arith, omega arith, (omega arith, omega arith, hex_text-Characters ds below))
            (omega (arith, eight))),
    )
