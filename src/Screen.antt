-- ===== src/Screen.antt =====
-- source/screen.h and source/screen.cpp: the cursor, the attribute, and the bytes from VIDEO on. The
-- cursor is kept as two numbers, since no operation makes it negative.
pub mod Cursor
pub mod Shows
pub mod Numbers
pub mod Report
pub mod Digits
pub mod Literal
pub mod Hex
pub mod Count
pub mod Decimal
pub mod Tests
use experimental_kernel.Common.{
  ℕ, zero, suc, ◌+◌, ◌-◌, ◌*◌, ◌/◌, ◌%◌, ◌^◌, ◌==◌, ltb, leb, if◌then◌else◌, ◌+ʷ◌, bit_and, bit_or,
  u8, Option, none, some, List, [], ◌∷◌,
}
use experimental_kernel.Memory.{Mem, store, memset}

-- VIDEO, LINES and COLUMNS.
abbrev pub video : ℕ
video = 0xB8000

abbrev pub lines : ℕ
lines = 24

abbrev pub columns : ℕ
columns = 80

pub record Screen : Type 0 where
  pub x : ℕ
  pub y : ℕ
  pub attribute : ℕ

-- (backcolor << 4) | (forecolor & 0x0F), kept in a byte.
unfoldable pub set_text_color : Screen → ℕ → ℕ → Screen
set_text_color s backcolor forecolor = record s {
  attribute = u8 (bit_or (backcolor * 16) (bit_and forecolor 0x0F));
}

-- The constructor: white on black, in the first cell.
unfoldable pub screen : Screen
unfolding set_text_color
screen = set_text_color (record { x = 0; y = 0; attribute = 0 }) 0 15

-- The loop that zeroes COLUMNS * LINES * 2 bytes is that of memset.
unfoldable pub clean : Screen → Mem → Screen × Mem
unfolding memset
clean s m = (record s { x = 0; y = 0 }, memset video 0 (columns * lines * 2) m)

abbrev pub new_line : Screen → Screen
new_line s = record s { x = 0; y = if leb lines (s.y + 1) then 0 else s.y + 1 }

abbrev pub put_cell : Screen → Mem → ℕ → Mem
put_cell s m c =
    let cell = video + (s.x + s.y * columns) * 2 in store (store m cell c) (cell + 1) s.attribute

unfoldable pub print_char : Screen → Mem → ℕ → Screen × Mem
unfolding store
print_char s m c = if c == 10 then (new_line s, m) else (
  if leb columns (s.x + 1) then new_line (record s { x = s.x + 1 }) else record s { x = s.x + 1 },
  put_cell s m c,
)

-- while(sstr[i]) { printChar(sstr[i]); i++; } with fuel; `none` means that it ran out.
unfoldable pub print_string : ℕ → Screen → Mem → ℕ → Option (Screen × Mem)
unfolding print_char
print_string zero s m str = none
print_string (suc fuel) s m str =
    let (s', m') = print_char s m (m str) in
    let rest = print_string fuel s' m' (str +ʷ 1) in if m str == 0 then some (s, m) else rest
