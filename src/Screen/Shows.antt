-- ===== src/Screen/Shows.antt =====
-- What a printed text shows.
use experimental_kernel.Common.{
  ℕ, zero, suc, ◌+◌, ◌-◌, ◌*◌, ◌%◌, ◌^◌, ◌<◌, ◌≤◌, ◌≡◌, ◌≢◌, arith, refl, List, [], ◌∷◌, length,
  get_or, some, ◌∙◌, ap, sym,
}
use mathlib.Core.Path.{subst}
use experimental_kernel.Memory.{Mem, store}
use experimental_kernel.Cstring.Text.{Text}
use experimental_kernel.Screen.{Screen, print_char, print_string, video}
use experimental_kernel.Screen.Cursor.{
  IsOnScreen, cursor, cells, Outside, print_char-IsOnScreen, print_char-cursor, Text-print_char,
  print_string-next,
}

-- The address of a cell, counted on from the first again behind the last.
abbrev pub cell_address : ℕ → ℕ
cell_address n = video + 2 * (n % cells)

-- No line feed among the bytes.
abbrev pub Printable : List ℕ → Type 0
Printable [] = Unit
Printable (x ∷ xs) = (x ≢ 10) × Printable xs

-- A character goes to the cell under the cursor with the attribute, and to no other.
pub print_char-cell :
    (s : Screen) (m : Mem) (c : ℕ)
    → IsOnScreen s
    → c ≢ 10
    → c < 256
    → (print_char s m c).1 (cell_address (cursor s)) ≡ c
unfolding print_char store
print_char-cell s m c v printable byte = ground (arith, v.column, v.line)

pub print_char-other_cell :
    (s : Screen) (m : Mem) (c n : ℕ)
    → IsOnScreen s
    → n % cells ≢ cursor s
    → (print_char s m c).1 (cell_address n) ≡ m (cell_address n)
unfolding print_char store
print_char-other_cell s m c n v other = ground (arith, v.column, v.line)

-- What stands in the cells after a text was printed from the cell `c` on.
pub record Shows (c : ℕ) (xs : List ℕ) (m m' : Mem) : Type 0 where
  pub shown : (i : ℕ) → i < length xs → m' (cell_address (c + i)) ≡ get_or xs i 0
  pub others :
      (i : ℕ) → length xs ≤ i → i < cells → m' (cell_address (c + i)) ≡ m (cell_address (c + i))

-- One character at the cell `c`, and the rest of the text from the next cell on.
pub Shows-cons :
    (c c' : ℕ) (m m1 m' : Mem) (x : ℕ) (xs : List ℕ)
    → c < cells
    → length xs < cells
    → c' % cells ≡ (c + 1) % cells
    → m1 (cell_address c) ≡ x
    → ((n : ℕ) → n % cells ≢ c → m1 (cell_address n) ≡ m (cell_address n))
    → Shows c' xs m1 m'
    → Shows c (x ∷ xs) m m'
Shows-cons c c' m m1 m' x xs inside few moved here away sh = record {
  shown = shown_at;
  others = others_at;
}
  where
    later : (i : ℕ) → cell_address (c + suc i) ≡ cell_address (c' + i)
    later i = omega (arith, moved)

    others_at :
        (i : ℕ)
        → length (x ∷ xs) ≤ i
        → i < cells
        → m' (cell_address (c + i)) ≡ m (cell_address (c + i))
    others_at zero lo hi = absurd (omega arith)
    others_at (suc i) lo hi =
        ap m' (later i)
        ∙ sh.others i (omega arith) (omega arith)
        ∙ ap m1 (sym (later i))
        ∙ away (c + suc i) (omega arith)

    shown_at : (i : ℕ) → i < suc (length xs) → m' (cell_address (c + i)) ≡ get_or (x ∷ xs) i 0
    shown_at zero lt =
        let back : cell_address (c + 0) ≡ cell_address (c' + (cells - 1)) = omega (arith, moved) in
        let front : cell_address (c' + (cells - 1)) ≡ cell_address c = omega (arith, moved) in
        ap m' back ∙ sh.others (cells - 1) (omega arith) (omega arith) ∙ ap m1 front ∙ here
    shown_at (suc i) lt = ap m' (later i) ∙ sh.shown i (omega arith)

-- The same for a character that `print_char` prints.
pub Shows-print_char :
    (s : Screen) (m m' : Mem) (x : ℕ) (xs : List ℕ)
    → IsOnScreen s
    → x < 256
    → x ≢ 10
    → length xs < cells
    → Shows (cursor (print_char s m x).0) xs (print_char s m x).1 m'
    → Shows (cursor s) (x ∷ xs) m m'
Shows-print_char s m m' x xs v byte printable few =
    let moved = print_char-cursor s m x v printable in
    Shows-cons (cursor s) (cursor (print_char s m x).0) m (print_char s m x).1 m' x xs
      (omega (arith, v.column, v.line)) few (omega (arith, moved))
      (print_char-cell s m x v printable byte) (λ n other. print_char-other_cell s m x n v other)

-- `print_string` of a text without line feeds, no longer than the screen has cells, shows its bytes
-- in the cells from the cursor on, wrapped around at the end of the screen, and leaves the characters
-- of the other cells. The cursor ends behind the text. The text ends inside the address space
-- and lies outside the video memory, and the fuel is any number above its length.
pub print_string-Shows :
    (fuel : ℕ) (s : Screen) (m : Mem) (p : ℕ) (xs : List ℕ)
    → IsOnScreen s
    → Text m p xs
    → Printable xs
    → ((a : ℕ) → p ≤ a → a ≤ p + length xs → Outside a)
    → p + length xs < 2 ^ 32
    → length xs < fuel
    → length xs ≤ cells
    → (s' : Screen) × (m' : Mem) × (print_string fuel s m p ≡ some (s', m'))
      × (cursor s' ≡ (cursor s + length xs) % cells)
      × Shows (cursor s) xs m m'
print_string-Shows zero s m p xs v t print out small more few = absurd (omega arith)
print_string-Shows (suc fuel) s m p [] v t print out small more few = (
  s,
  m,
  (unfold print_string in ground arith),
  omega (arith, v.column, v.line),
  record { shown = λ i lt. absurd (omega arith); others = λ i lo hi. refl },
)
print_string-Shows (suc fuel) s m p (x ∷ xs) v t print out small more few =
    let w = print_char-IsOnScreen s m (m p) v in
    let moved = print_char-cursor s m (m p) v (λ e. print.0 (sym t.0 ∙ e)) in
    let (s', m', e, end, sh) =
      print_string-Shows fuel (print_char s m (m p)).0 (print_char s m (m p)).1 (p + 1) xs w
        (Text-print_char s m (m p) (p + 1) xs v (λ a lo hi. out a (omega arith) (omega arith)) t.3)
        print.1 (λ a lo hi. out a (omega arith) (omega arith)) (omega arith) (omega arith)
        (omega arith) in
    (
      s',
      m',
      print_string-next fuel s m p (omega (arith, t.0, t.1)) (omega arith) ∙ e,
      omega (arith, end, moved),
      subst (λ y. Shows (cursor s) (y ∷ xs) m m') t.0
          (Shows-print_char s m m' (m p) xs v (omega (arith, t.0, t.2)) (λ e. print.0 (sym t.0 ∙ e))
            (omega arith) sh),
    )
