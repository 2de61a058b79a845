-- ===== src/Screen/Literal.antt =====
-- What a printed literal shows.
use experimental_kernel.Common.{ℕ, ◌+◌, ◌%◌, ◌<◌, ◌≤◌, ◌≡◌, ◌≢◌, arith, refl, List, [], ◌∷◌, length}
use experimental_kernel.Memory.{Mem}
use experimental_kernel.Screen.{Screen, print_char, print_char}
use experimental_kernel.Screen.Cursor.{
  IsOnScreen, cursor, cells, print_char-IsOnScreen, print_char-cursor,
}
use experimental_kernel.Screen.Shows.{Shows, Shows-print_char}
use experimental_kernel.Screen.Numbers.{print_literal}

-- Characters, none of them a line feed.
abbrev pub Characters : List ℕ → Type 0
Characters [] = Unit
Characters (x ∷ xs) = (x ≢ 10) × (x < 256) × Characters xs

-- The screen is as it should be after a text of this length from the cursor of `s` on.
pub record Printed (s : Screen) (m : Mem) (xs : List ℕ) (r : Screen × Mem) : Type 0 where
  pub on_screen : IsOnScreen r.0
  pub end : cursor r.0 ≡ (cursor s + length xs) % cells
  pub shows : Shows (cursor s) xs m r.1

Printed-nil : (s : Screen) (m : Mem) → IsOnScreen s → Printed s m [] (s, m)
Printed-nil s m v = record {
  on_screen = v;
  end = omega (arith, v.column, v.line);
  shows = record { shown = λ i lt. absurd (omega arith); others = λ i lo hi. refl };
}

Printed-cons :
    (s : Screen) (m : Mem) (x : ℕ) (xs : List ℕ) (r : Screen × Mem)
    → IsOnScreen s
    → x ≢ 10
    → x < 256
    → length xs < cells
    → Printed (print_char s m x).0 (print_char s m x).1 xs r
    → Printed s m (x ∷ xs) r
Printed-cons s m x xs r v printable byte few p = record {
  on_screen = p.on_screen;
  end = omega (arith, p.end, print_char-cursor s m x v printable);
  shows = Shows-print_char s m r.1 x xs v byte printable few p.shows;
}

pub print_literal-Printed :
    (xs : List ℕ) (s : Screen) (m : Mem)
    → IsOnScreen s
    → Characters xs
    → length xs ≤ cells
    → Printed s m xs (print_literal s m xs)
unfolding print_literal
print_literal-Printed [] s m v all few = Printed-nil s m v
print_literal-Printed (x ∷ xs) s m v all few =
    Printed-cons s m x xs (print_literal s m (x ∷ xs)) v all.0 all.1 (omega arith) (
      print_literal-Printed xs (print_char s m x).0 (print_char s m x).1
        (print_char-IsOnScreen s m x v) all.2 (omega arith))
