-- ===== src/Memory/Tests.antt =====
-- A copy to the next address, which overwrites what it is about to read.
use experimental_kernel.Common.{◌≡◌, refl, ◌==◌, if◌then◌else◌}
use experimental_kernel.Memory.{Mem, memcpy, store}

abbrev one_byte : Mem
one_byte a = if a == 64 then 7 else 0

overlap : memcpy 65 64 2 one_byte 66 ≡ 7
unfolding memcpy store
overlap = refl
