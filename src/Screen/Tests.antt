-- ===== src/Screen/Tests.antt =====
-- The text "OK" at 4096, printed in the last two cells of the screen.
use experimental_kernel.Common.{
  ℕ, ◌+◌, ◌%◌, ◌≡◌, ◌==◌, if◌then◌else◌, refl, arith, inl, some, List, [], ◌∷◌, length, suc, ◌^◌,
  ◌≤◌, ◌⊎◌,
}
use experimental_kernel.Memory.{Mem}
use experimental_kernel.Cstring.Text.{Text}
use experimental_kernel.Screen.{Screen, print_string, screen, set_text_color}
use experimental_kernel.Screen.Cursor.{IsOnScreen, cursor, cells}
use experimental_kernel.Screen.Numbers.{print_hex, print_int}
use experimental_kernel.Screen.Digits.{read_number}
use experimental_kernel.Screen.Literal.{Printed}
use experimental_kernel.Screen.Hex.{hex_value, print_hex-Printed}
use experimental_kernel.Screen.Decimal.{digit_value, print_int-Shows}
use experimental_kernel.Screen.Shows.{Shows, print_string-Shows}

abbrev mem : Mem
mem a = if a == 4096 then 79 else if a == 4097 then 75 else 0

abbrev letters : List ℕ
letters = 79 ∷ 75 ∷ []

abbrev near_end : Screen
near_end = record { x = 78; y = 23; attribute = 15 }

colors : (screen.attribute ≡ 15) × ((set_text_color screen 4 14).attribute ≡ 78)
unfolding screen set_text_color
colors = (refl, refl)

abbrev top : Screen
top = record { x = 5; y = 0; attribute = 15 }

near_end-IsOnScreen : IsOnScreen near_end
near_end-IsOnScreen = record { column = omega arith; line = omega arith }

text : Text mem 4096 letters
text = (refl, omega arith, omega arith, (refl, omega arith, omega arith, refl))

print_string-Shows_example :
    (s' : Screen) × (m' : Mem) × (print_string 3 near_end mem 4096 ≡ some (s', m'))
    × (cursor s' ≡ (cursor near_end + length letters) % cells)
    × Shows (cursor near_end) letters mem m'
print_string-Shows_example =
    print_string-Shows 3 near_end mem 4096 letters near_end-IsOnScreen text
      (omega arith, (omega arith, tt)) (λ a lo hi. inl (omega arith)) (omega arith) (omega arith)
      (omega arith)

print_hex-Printed_example :
    (cs : List ℕ) × (length cs ≡ 8)
    × (read_number 16 hex_value 0 cs ≡ some 0xDEADBEEF)
    × Printed near_end mem (48 ∷ 120 ∷ cs) (print_hex near_end mem 0xDEADBEEF)
print_hex-Printed_example =
    print_hex-Printed near_end mem 0xDEADBEEF near_end-IsOnScreen (omega arith)

print_int-Shows_example :
    (cs : List ℕ) × (m' : Mem) × (j : ℕ) × (print_int 10 top mem 2147483647
      ≡ some (record top { x = 5 + length cs }, m'))
    × (length cs ≡ suc j)
    × ((j ≡ 0) ⊎ (10 ^ j ≤ 2147483647))
    × (read_number 10 digit_value 0 cs ≡ some 2147483647)
    × Shows (cursor top) cs mem m'
print_int-Shows_example =
    print_int-Shows 10 top mem 2147483647 (omega arith) (omega arith) (omega arith)
