-- ===== src/Screen/Cursor.antt =====
-- The cursor stays on the screen, and only the video memory is written.
use experimental_kernel.Common.{
  ℕ, zero, suc, ◌+◌, ◌*◌, ◌%◌, ◌^◌, ◌<◌, ◌≤◌, ◌≡◌, ◌≢◌, ◌⊎◌, arith, refl, ◌==◌, List, [], ◌∷◌,
  length, some, false, ◌∙◌, ◌+ʷ◌,
}
use experimental_kernel.Memory.{Mem, store}
use experimental_kernel.Cstring.Text.{Text, Text-frame}
use experimental_kernel.Screen.{Screen, print_char, print_string, lines, columns, video}

pub record IsOnScreen (s : Screen) : Type 0 where
  pub column : s.x < columns
  pub line : s.y < lines

-- The number of the cell under the cursor, and of all cells.
abbrev pub cursor : Screen → ℕ
cursor s = s.x + s.y * columns

abbrev pub cells : ℕ
cells = 1920

-- Whether an address lies outside the video memory.
abbrev pub Outside : ℕ → Type 0
Outside a = (a < video) ⊎ (video + 2 * cells ≤ a)

pub print_char-IsOnScreen :
    (s : Screen) (m : Mem) (c : ℕ) → IsOnScreen s → IsOnScreen (print_char s m c).0
unfolding print_char
print_char-IsOnScreen s m c v = record {
  column = ground (arith, v.column);
  line = ground (arith, v.line);
}

pub print_char-Outside :
    (s : Screen) (m : Mem) (c a : ℕ) → IsOnScreen s → Outside a → (print_char s m c).1 a ≡ m a
unfolding print_char store
print_char-Outside s m c a v out = ground (arith, v.column, v.line)

-- A character that is no line feed moves the cursor to the next cell, and from the last to the first.
pub print_char-cursor :
    (s : Screen) (m : Mem) (c : ℕ)
    → IsOnScreen s
    → c ≢ 10
    → cursor (print_char s m c).0 ≡ (cursor s + 1) % cells
unfolding print_char
print_char-cursor s m c v printable = ground (arith, v.column, v.line)

-- What printing a text leaves: the cursor on the screen, the attribute, and every byte outside the
-- video memory.
record Keeps (s : Screen) (m : Mem) (s' : Screen) (m' : Mem) : Type 0 where
  on_screen : IsOnScreen s'
  same_attribute : s'.attribute ≡ s.attribute
  outside : (a : ℕ) → Outside a → m' a ≡ m a

print_char-Keeps :
    (s : Screen) (m : Mem) (c : ℕ)
    → IsOnScreen s
    → Keeps s m (print_char s m c).0 (print_char s m c).1
print_char-Keeps s m c v = record {
  on_screen = print_char-IsOnScreen s m c v;
  same_attribute = unfold print_char in ground arith;
  outside = λ a out. print_char-Outside s m c a v out;
}

-- The text stays readable while it is printed, as it is not in the video memory.
pub Text-print_char :
    (s : Screen) (m : Mem) (c p : ℕ) (xs : List ℕ)
    → IsOnScreen s
    → ((a : ℕ) → p ≤ a → a ≤ p + length xs → Outside a)
    → Text m p xs
    → Text (print_char s m c).1 p xs
Text-print_char s m c p xs v out t =
    Text-frame m (print_char s m c).1 p xs (λ a lo hi. print_char-Outside s m c a v (out a lo hi)) t

-- One round of the loop.
pub print_string-next :
    (fuel : ℕ) (s : Screen) (m : Mem) (p : ℕ)
    → m p ≢ 0
    → p + 1 < 2 ^ 32
    → print_string (suc fuel) s m p
      ≡ print_string fuel (print_char s m (m p)).0 (print_char s m (m p)).1 (p + 1)
unfolding print_string
print_string-next fuel s m p full small =
    let next : p +ʷ 1 ≡ p + 1 = omega arith in
    let go : (m p == 0) ≡ false = ground arith in rw (print_string, go, next) refl

-- `print_string` of a text that ends inside the address space and lies outside the video memory
-- comes to its end, for any fuel above the length. It keeps the cursor on the screen, the attribute,
-- and every byte outside the video memory.
print_string-Keeps :
    (fuel : ℕ) (s : Screen) (m : Mem) (p : ℕ) (xs : List ℕ)
    → IsOnScreen s
    → Text m p xs
    → ((a : ℕ) → p ≤ a → a ≤ p + length xs → Outside a)
    → p + length xs < 2 ^ 32
    → length xs < fuel
    → (s' : Screen) × (m' : Mem) × (print_string fuel s m p ≡ some (s', m')) × Keeps s m s' m'
unfolding print_string
print_string-Keeps zero s m p xs v t out small more = absurd (omega arith)
print_string-Keeps (suc fuel) s m p [] v t out small more =
    (s, m, ground arith, record { on_screen = v; same_attribute = refl; outside = λ a o. refl })
print_string-Keeps (suc fuel) s m p (x ∷ xs) v t out small more =
    let one = print_char-Keeps s m (m p) v in
    let (s', m', e, k) =
      print_string-Keeps fuel (print_char s m (m p)).0 (print_char s m (m p)).1 (p + 1) xs
        one.on_screen
        (Text-print_char s m (m p) (p + 1) xs v (λ a lo hi. out a (omega arith) (omega arith)) t.3)
        (λ a lo hi. out a (omega arith) (omega arith)) (omega arith) (omega arith) in
    (
      s',
      m',
      print_string-next fuel s m p (omega (arith, t.0, t.1)) (omega arith) ∙ e,
      record {
        on_screen = k.on_screen;
        same_attribute = k.same_attribute ∙ one.same_attribute;
        outside = λ a o. k.outside a o ∙ one.outside a o;
      },
    )
