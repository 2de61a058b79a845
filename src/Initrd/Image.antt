-- ===== src/Initrd/Image.antt =====
-- mk_initrd_img/mk_initrd_img.cpp: the host program that packs files into the image. The host's file
-- system is a parameter that gives the bytes of a file by its name; `none` is a run that the code
-- leaves undefined: a node that is never filled, a name without a terminator, a 33rd node, or a file
-- that cannot be opened.
use experimental_kernel.Common.{
  ℕ, ◌+◌, ◌-◌, ◌*◌, ◌/◌, ◌%◌, Bool, false, ◌||◌, Option, none, some, List, [], ◌∷◌, ◌++◌, ltb, leb,
  ◌==◌, if◌then◌else◌, u32, ◌+ʷ◌, length, replicate,
}

-- The part of a path behind its last '/'.
unfoldable pub file_name : List ℕ → List ℕ
file_name [] = []
file_name (x ∷ xs) = let rest = file_name xs in if x == 47 || has_slash xs then rest else x ∷ rest
  where
    has_slash : List ℕ → Bool
    has_slash [] = false
    has_slash (y ∷ ys) = y == 47 || has_slash ys

-- MAX_FILE_NAME_LEN and FILE_NODES_NUM.
abbrev pub max_file_name_len : ℕ
max_file_name_len = 64

abbrev pub file_nodes_num : ℕ
file_nodes_num = 32

-- A FileNode of the image; the magic byte is written with it.
pub record Node : Type 0 where
  pub name : List ℕ
  pub offset : ℕ
  pub length_ : ℕ

-- The first loop of main, from the given offset on.
unfoldable pub make_nodes : (List ℕ → Option (List ℕ)) → ℕ → List (List ℕ) → Option (List Node)
make_nodes files offset [] = some []
make_nodes files offset (path ∷ paths) =
    let name = file_name path in
    elim (if ltb max_file_name_len (length path) || leb max_file_name_len (length name)
      then none
      else files name) [
        | none ↦ none
        | some content ↦ elim (make_nodes files (offset +ʷ u32 (length content)) paths) [
          | none ↦ none
          | some nodes ↦
              some (record { name = name; offset = offset; length_ = u32 (length content) } ∷ nodes)
        ]
      ]

-- The four bytes of a word, as write gives them.
abbrev pub word : ℕ → List ℕ
word v = v % 256 ∷ v / 256 % 256 ∷ v / 65536 % 256 ∷ v / 16777216 % 256 ∷ []

-- The second loop: the magic byte, the name with zero bytes up to its length, the offset, the length.
unfoldable pub write_nodes : List Node → List ℕ
write_nodes [] = []
write_nodes (node ∷ nodes) =
    (171 ∷ node.name ++ replicate (max_file_name_len - length node.name) 0)
    ++ (word node.offset ++ (word node.length_ ++ write_nodes nodes))

-- The third loop, which opens each file again by the name in its node.
unfoldable pub write_contents : (List ℕ → Option (List ℕ)) → List Node → Option (List ℕ)
write_contents files [] = some []
write_contents files (node ∷ nodes) = elim (files node.name) [
  | none ↦ none
  | some content ↦ elim (write_contents files nodes) [
    | none ↦ none
    | some contents ↦ some (content ++ contents)
  ]
]

-- main: the bytes of initrd.img, for the arguments behind the program's name.
unfoldable pub make_image : (List ℕ → Option (List ℕ)) → List (List ℕ) → Option (List ℕ)
make_image files paths =
    if ltb file_nodes_num (length paths)
    then none
    else elim (make_nodes files (4 + 73 * length paths) paths) [
      | none ↦ none
      | some nodes ↦ elim (write_contents files nodes) [
        | none ↦ none
        | some contents ↦ some (word (length paths) ++ (write_nodes nodes ++ contents))
      ]
    ]
