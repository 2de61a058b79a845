-- ===== src/Screen/Numbers.antt =====
-- printInt, printHex, both printBinary and printEndl of source/screen.cpp. A 32-bit int is its bit
-- pattern, a number below 2 ^ 32. A literal that is printed is a list of characters.
use experimental_kernel.Common.{
  ℕ, zero, suc, ◌+◌, ◌-◌, ◌*◌, ◌/◌, ◌%◌, ◌^◌, ◌==◌, ltb, if◌then◌else◌, ◌+ʷ◌, bit_and, u8, u32,
  Option, none, some, List, [], ◌∷◌, get_or,
}
use experimental_kernel.Memory.{Mem}
use experimental_kernel.Screen.{Screen, print_char, put_cell}

-- printString of a literal.
unfoldable pub print_literal : Screen → Mem → List ℕ → Screen × Mem
print_literal s m [] = (s, m)
print_literal s m (c ∷ cs) = (let (s', m') = print_char s m c in print_literal s' m' cs)

unfoldable pub print_endl : Screen → Mem → Screen × Mem
print_endl s m = print_literal s m (10 ∷ [])

-- "0123456789ABCDEF"
abbrev pub hex_characters : List ℕ
hex_characters = 48 ∷ 49 ∷ 50 ∷ 51 ∷ 52 ∷ 53 ∷ 54 ∷ 55 ∷ 56 ∷ 57 ∷ 65 ∷ 66 ∷ 67 ∷ 68 ∷ 69 ∷ 70 ∷ []

-- The loop of printHex with i from `left - 1` down to 0.
unfoldable pub print_hex_digits : ℕ → Screen → Mem → ℕ → Screen × Mem
print_hex_digits zero s m k = (s, m)
print_hex_digits (suc i) s m k =
    let (s', m') = print_char s m (get_or hex_characters (bit_and (k / 2 ^ (4 * i)) 0x0F) 0) in
    print_hex_digits i s' m' k

unfoldable pub print_hex : Screen → Mem → ℕ → Screen × Mem
print_hex s m k = (let (s', m') = print_literal s m (48 ∷ 120 ∷ []) in print_hex_digits 8 s' m' k)

-- k / 10 and k % 10 of an int, which round towards zero.
unfoldable pub int_quotient : ℕ → ℕ
int_quotient k = if ltb k (2 ^ 31) then k / 10 else u32 (2 ^ 32 - (2 ^ 32 - k) / 10)

unfoldable pub int_remainder : ℕ → ℕ
int_remainder k = if ltb k (2 ^ 31) then k % 10 else u32 (2 ^ 32 - (2 ^ 32 - k) % 10)

-- do { k1 /= 10; num++; } while(k1 != 0), with fuel; `none` means that it ran out.
unfoldable pub count_digits : ℕ → ℕ → ℕ → Option ℕ
count_digits zero k num = none
count_digits (suc fuel) k num =
    let rest = count_digits fuel (int_quotient k) (num + 1) in
    if int_quotient k == 0 then some (num + 1) else rest

-- k1 /= 10, as often as there are rounds left.
unfoldable pub drop_digits : ℕ → ℕ → ℕ
drop_digits zero k = k
drop_digits (suc left) k = drop_digits left (int_quotient k)

-- while(num != 0)
unfoldable pub print_digits : ℕ → Screen → Mem → ℕ → Screen × Mem
print_digits zero s m k = (s, m)
print_digits (suc num) s m k =
    let digit = int_remainder (drop_digits num k) in
    print_digits num (record s { x = s.x + 1 }) (put_cell s m (u8 (digit + 48))) k

unfoldable pub print_int : ℕ → Screen → Mem → ℕ → Option (Screen × Mem)
print_int fuel s m k = elim (count_digits fuel k 0) [
  | none ↦ none
  | some num ↦ some (print_digits num s m k)
]

-- The bits of a byte from bit `left - 1` down.
unfoldable pub print_bits : ℕ → Screen → Mem → ℕ → Screen × Mem
print_bits zero s m byte = (s, m)
print_bits (suc j) s m byte =
    let (s', m') = print_char s m (if bit_and byte (2 ^ j) == 0 then 48 else 49) in
    print_bits j s' m' byte

-- The bytes of an int from the highest of the `left` ones down.
unfoldable pub print_bytes : ℕ → Screen → Mem → ℕ → Screen × Mem
print_bytes zero s m num = (s, m)
print_bytes (suc i) s m num =
    let (s1, m1) = print_bits 8 s m (num / 2 ^ (8 * i)) in
    let (s2, m2) = print_literal s1 m1 (32 ∷ []) in print_bytes i s2 m2 num

unfoldable pub print_binary_int : Screen → Mem → ℕ → Screen × Mem
print_binary_int s m num = (let (s', m') = print_bytes 4 s m num in print_endl s' m')

-- The bytes of memory from `mem` on, `left` of them. Each bit is read after the ones before it are
-- printed.
unfoldable pub print_memory_bits : ℕ → Screen → Mem → ℕ → Screen × Mem
print_memory_bits zero s m address = (s, m)
print_memory_bits (suc j) s m address =
    let (s', m') = print_literal s m ((if bit_and (m address) (2 ^ j) == 0 then 48 else 49) ∷ []) in
    print_memory_bits j s' m' address

unfoldable pub print_memory : ℕ → Screen → Mem → ℕ → Screen × Mem
print_memory zero s m mem = (s, m)
print_memory (suc left) s m mem =
    let (s1, m1) = print_memory_bits 8 s m mem in
    let (s2, m2) = print_literal s1 m1 (32 ∷ []) in print_memory left s2 m2 (mem +ʷ 1)

unfoldable pub print_binary : Screen → Mem → ℕ → ℕ → Screen × Mem
print_binary s m mem length =
    let (s', m') = print_memory length s m mem in print_literal s' m' (10 ∷ [])
