-- ===== src/Cstring.antt =====
-- source/utils/common.cpp: the C string functions over the byte store. A string is an address; a
-- function that scans for the terminator takes fuel, and `none` means that the fuel ran out.
pub mod Text
pub mod Scan
pub mod Compare
pub mod Copy
pub mod Tests
use experimental_kernel.Common.{
  ℕ, zero, suc, ◌+◌, ◌^◌, ◌%◌, ◌==◌, ltb, if◌then◌else◌, ◌+ʷ◌, ◌-ʷ◌, Bool, Option, none, some,
}
use experimental_kernel.Memory.{Mem, store}

-- while (*str++ != '\0') len++;
strlen_loop : ℕ → Mem → ℕ → ℕ → Option ℕ
strlen_loop zero m str len = none
strlen_loop (suc fuel) m str len =
    let rest = strlen_loop fuel m (str +ʷ 1) (len +ʷ 1) in if m str == 0 then some len else rest

unfoldable pub strlen : ℕ → Mem → ℕ → Option ℕ
unfolding strlen_loop
strlen fuel m str = strlen_loop fuel m str 0

-- `char` is signed: adding 128 modulo 256 turns its order into that of the numbers.
abbrev pub char_lt : ℕ → ℕ → Bool
char_lt a b = ltb ((a + 128) % 256) ((b + 128) % 256)

-- The comparison after the loop, at the index where it stopped. The result is an `int` pattern.
unfoldable pub strncmp_end : Mem → ℕ → ℕ → ℕ → ℕ
strncmp_end m s1 s2 i =
    if char_lt (m (s1 +ʷ i)) (m (s2 +ʷ i))
    then 0 -ʷ (i + 1)
    else if char_lt (m (s2 +ʷ i)) (m (s1 +ʷ i))
    then i + 1
    else 0

-- The loop at index `i`, with `num - i` rounds left.
unfoldable pub strncmp_loop : ℕ → Mem → ℕ → ℕ → ℕ → ℕ
unfolding strncmp_end
strncmp_loop zero m s1 s2 i = strncmp_end m s1 s2 i
strncmp_loop (suc left) m s1 s2 i =
    let rest = strncmp_loop left m s1 s2 (i + 1) in
    if m (s1 +ʷ i) == m (s2 +ʷ i) then rest else strncmp_end m s1 s2 i

unfoldable pub strncmp : Mem → ℕ → ℕ → ℕ → ℕ
unfolding strncmp_loop
strncmp m s1 s2 num = strncmp_loop num m s1 s2 0

-- The loop of `strncpy` with `num` rounds left, and the terminator written after it.
unfoldable pub strncpy_loop : ℕ → ℕ → ℕ → Mem → Mem
strncpy_loop zero dest src m = store m dest 0
strncpy_loop (suc num) dest src m =
    let rest = strncpy_loop num (dest +ʷ 1) (src +ʷ 1) (store m dest (m src)) in
    if m src == 0 then store m dest 0 else rest

-- `num` is an `int`: a pattern from 2 ^ 31 on is negative, and the loop makes no round.
unfoldable pub strncpy : ℕ → ℕ → ℕ → Mem → Mem
unfolding strncpy_loop
strncpy dest src num m = strncpy_loop (if ltb num (2 ^ 31) then num else 0) dest src m

-- while(*src != 0) *dest++ = *src++;
strcat_copy : ℕ → ℕ → ℕ → Mem → Option (ℕ × Mem)
strcat_copy zero dest src m = none
strcat_copy (suc fuel) dest src m =
    let rest = strcat_copy fuel (dest +ʷ 1) (src +ʷ 1) (store m dest (m src)) in
    if m src == 0 then some (dest, m) else rest

-- while(*dest != 0) dest++; and then the copy. The result is the final `dest`.
unfoldable pub strcat : ℕ → ℕ → ℕ → Mem → Option (ℕ × Mem)
unfolding strcat_copy
strcat zero dest src m = none
strcat (suc fuel) dest src m =
    let rest = strcat fuel (dest +ʷ 1) src m in
    if m dest == 0 then strcat_copy (suc fuel) dest src m else rest
