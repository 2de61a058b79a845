-- ===== src/Screen/Report.antt =====
-- What the kernel prints of its objects: Page::print of source/page.cpp, KernelHeap::printIndex of
-- source/kernel_heap.cpp, FileNode::print of source/vfs/fs.cpp, and printFileHeader of
-- source/vfs/initrd_fs.cpp. `none` means that fuel ran out.
use experimental_kernel.Common.{ℕ, zero, suc, ◌+◌, Option, none, some, List, [], ◌∷◌}
use experimental_kernel.Memory.{Mem, read32}
use experimental_kernel.Array.{Array, at_ordered}
use experimental_kernel.Paging.{Page}
use experimental_kernel.Initrd.{FileNode}
use experimental_kernel.Screen.{Screen, print_string}
use experimental_kernel.Screen.Numbers.{print_literal, print_endl, print_hex, print_int}

-- "( ", ", ", "," and " )"
abbrev open_text : List ℕ
open_text = 40 ∷ 32 ∷ []

abbrev comma_text : List ℕ
comma_text = 44 ∷ 32 ∷ []

abbrev close_text : List ℕ
close_text = 32 ∷ 41 ∷ []

-- Numbers in decimal, each behind a comma.
unfoldable pub print_ints : ℕ → Screen → Mem → List ℕ → Option (Screen × Mem)
print_ints fuel s m [] = some (s, m)
print_ints fuel s m (n ∷ ns) =
    let (s1, m1) = print_literal s m comma_text in
    elim (print_int fuel s1 m1 n) [ none ↦ none | some (s2, m2) ↦ print_ints fuel s2 m2 ns ]

-- Numbers in hexadecimal, each behind a separator.
unfoldable pub print_hexes : List ℕ → Screen → Mem → List ℕ → Screen × Mem
print_hexes separator s m [] = (s, m)
print_hexes separator s m (n ∷ ns) =
    let (s1, m1) = print_literal s m separator in
    let (s2, m2) = print_hex s1 m1 n in print_hexes separator s2 m2 ns

-- "Page(" and the seven fields.
unfoldable pub print_page : ℕ → Screen → Mem → Page → Option (Screen × Mem)
print_page fuel s m page =
    let (s1, m1) = print_literal s m (80 ∷ 97 ∷ 103 ∷ 101 ∷ 40 ∷ []) in
    elim (print_int fuel s1 m1 page.present) [
      | none ↦ none
      | some (s2, m2) ↦
          elim (print_ints fuel s2 m2
            (page.rw ∷ page.user ∷ page.accessed ∷ page.dirty ∷ page.unused ∷ page.frame ∷ [])) [
              | none ↦ none
              | some (s3, m3) ↦ some (print_literal s3 m3 (41 ∷ []))
            ]
    ]

-- The loop over the index, from `i` on.
unfoldable pub print_index_loop : ℕ → ℕ → Screen → Mem → Array ℕ → Screen × Mem
print_index_loop zero i s m index = (s, m)
print_index_loop (suc left) i s m index =
    let (s1, m1) = print_hex s m (at_ordered index i) in
    let (s2, m2) = print_literal s1 m1 (32 ∷ []) in print_index_loop left (i + 1) s2 m2 index

-- "index: ", the size, and the addresses.
unfoldable pub print_index : Screen → Mem → Array ℕ → Screen × Mem
print_index s m index =
    let (s1, m1) = print_literal s m (105 ∷ 110 ∷ 100 ∷ 101 ∷ 120 ∷ 58 ∷ 32 ∷ []) in
    let (s2, m2) = print_hex s1 m1 index.size in
    let (s3, m3) = print_endl s2 m2 in print_index_loop index.size 0 s3 m3 index

unfoldable pub print_node : ℕ → Screen → Mem → FileNode → Option (Screen × Mem)
print_node fuel s m node =
    let (s1, m1) = print_literal s m open_text in
    elim (print_string fuel s1 m1 node.name) [
      | none ↦ none
      | some (s2, m2) ↦
          (let fields =
              node.mask ∷ node.uid ∷ node.gid ∷ node.flags ∷ node.inode ∷ node.length_ ∷ [] in
            let (s3, m3) = print_hexes comma_text s2 m2 fields in
            some (print_literal s3 m3 close_text))
    ]

-- The header at `h`: magic_, name_, offset_ and length_.
unfoldable pub print_file_header : ℕ → Screen → Mem → ℕ → Option (Screen × Mem)
print_file_header fuel s m h =
    let (s1, m1) = print_literal s m open_text in
    let (s2, m2) = print_hex s1 m1 (m h) in
    let (s3, m3) = print_literal s2 m2 (44 ∷ []) in
    elim (print_string fuel s3 m3 (h + 1)) [
      | none ↦ none
      | some (s4, m4) ↦
          (let (s5, m5) =
              print_hexes (44 ∷ []) s4 m4 (read32 m (h + 65) ∷ read32 m (h + 69) ∷ []) in
            let (s6, m6) = print_literal s5 m5 close_text in some (print_endl s6 m6))
    ]
