-- ===== src/Initrd.antt =====
-- source/vfs/initrd_fs.cpp, and the file nodes of source/vfs/fs.cpp: the file system over the image
-- that the boot loader leaves in memory. Names stand in memory, and a file node keeps the address of
-- its name; its other fields stand in a record. strlen takes fuel, and `none` means that it ran out,
-- or that an element behind the end of an array was asked for, which the code does not define.
pub mod Names
pub mod Entries
pub mod Header
pub mod Load
pub mod Files
pub mod Lookup
pub mod Contents
pub mod Packed
pub mod Stored
pub mod Mount
pub mod Listing
pub mod Vfs
pub mod Node
pub mod Show
pub mod Rounds
pub mod Contained
pub mod Image
pub mod Tests
use experimental_kernel.Common.{
  ℕ, zero, suc, ◌+◌, ◌-◌, ◌*◌, ◌/◌, ◌%◌, ◌^◌, ◌≤◌, ◌<◌, min, max, bit_and, bit_or, ◌≡◌, refl, sym,
  ap, ◌∙◌, fun_ext, ◌≢◌, ◌↔◌, ◌⊎◌, inl, inr, Bool, true, false, not, ◌&&◌, ◌||◌, Option, none, some,
  List, [], ◌∷◌, ◌++◌, map, arith, ltb, leb, ◌==◌, if◌then◌else◌, lt→ltb, le→ltb, ltb→lt, ltb→le,
  ==→eq, ==→ne, eq→==, ne→==, Bool-cases, Option-cases, u32, u16, u8, ◌+ʷ◌, ◌-ʷ◌, length, get_elem?,
  get_or, set, replicate, length-append,
}
use experimental_kernel.Memory.{Mem, store, read32, write32, memset}
use experimental_kernel.Cstring.{strlen, strncpy, strncmp}
use experimental_kernel.Array.{Array, place, add, at}

-- FileNode. `name` is the address of its 64 bytes `name_`, `reads` tells whether read_ is set, and
-- `lists` whether readdir_ and finddir_ are; no other operation is ever set.
pub record FileNode : Type 0 where
  pub name : ℕ
  pub mask : ℕ
  pub uid : ℕ
  pub gid : ℕ
  pub flags : ℕ
  pub inode : ℕ
  pub length_ : ℕ
  pub reads : Bool
  pub lists : Bool

-- MAX_NAME_LEN, sizeof(FileNode), and sizeof(FileHeader): a byte, a name, and two words.
abbrev pub max_name_len : ℕ
max_name_len = 64

abbrev pub node_bytes : ℕ
node_bytes = 128

abbrev pub header_bytes : ℕ
header_bytes = 73

-- The fields of a file header: name_ at 1, offset_ at 65, length_ at 69.
abbrev pub header_name : ℕ → ℕ
header_name h = h + 1

abbrev pub get_offset : Mem → ℕ → ℕ
get_offset m h = read32 m (h + 65)

abbrev pub get_length : Mem → ℕ → ℕ
get_length m h = read32 m (h + 69)

-- The name's copy in the constructors and operator= of FileNode.
unfoldable pub copy_name : ℕ → ℕ → ℕ → Mem → Option Mem
copy_name fuel dest src m = elim (strlen fuel m src) [
  | none ↦ none
  | some len ↦ some (strncpy dest src (if ltb max_name_len len then max_name_len else len) m)
]

-- The constructor of a file's node, at a given address.
unfoldable pub file_node : ℕ → ℕ → ℕ → ℕ → ℕ → Mem → Option (Mem × FileNode)
file_node fuel name_at name inode length_ m = elim (copy_name fuel name_at name m) [
  | none ↦ none
  | some m' ↦ some (
    m',
    record {
      name = name_at;
      mask = 0;
      uid = 0;
      gid = 0;
      flags = 1;
      inode = inode;
      length_ = length_;
      reads = true;
      lists = false;
    },
  )
]

-- Array<FileNode>::add, whose assignment is operator=. The array's elements stand at `children_at`.
unfoldable pub add_child : ℕ → ℕ → Array FileNode → FileNode → Mem → Option (Mem × Array FileNode)
add_child fuel children_at children node m =
    if children.size == children.max_size
    then some (m, children)
    else (let slot = children_at + node_bytes * children.size in
        elim (copy_name fuel slot node.name m) [
          | none ↦ none
          | some m' ↦ some (m', (add children (record node { name = slot })).0)
        ])

-- What the allocator and the linker give: the nodes of the root and of dev, the children of the
-- root, the local `childNode` of the loop, and the texts "initrd" and "dev".
pub record Places : Type 0 where
  pub root : ℕ
  pub dev : ℕ
  pub children_at : ℕ
  pub child_node : ℕ
  pub initrd_text : ℕ
  pub dev_text : ℕ

-- `fileHeaders_` by the address and number of its elements, the places, and root_->childNodes_.
pub record InitrdFs : Type 0 where
  pub headers_at : ℕ
  pub headers_size : ℕ
  pub places : Places
  pub children : Array FileNode

-- The loop of `init` from the header at `h` with number `i`, with `left` rounds left.
unfoldable pub init_loop :
    ℕ → ℕ → Places → ℕ → ℕ → ℕ → Array FileNode → Mem → Option (Mem × Array FileNode)
init_loop fuel location p zero i h children m = some (m, children)
init_loop fuel location p (suc left) i h children m =
    let m1 = write32 m (h + 65) (get_offset m h +ʷ location) in
    elim (file_node fuel p.child_node (header_name h) (i + 1) (get_length m1 h) m1) [
      | none ↦ none
      | some (m2, node) ↦ elim (add_child fuel p.children_at children node m2) [
        | none ↦ none
        | some (m3, children') ↦
            init_loop fuel location p left (i + 1) (h + header_bytes) children' m3
      ]
    ]

abbrev pub no_node : FileNode
no_node = record {
  name = 0;
  mask = 0;
  uid = 0;
  gid = 0;
  flags = 0;
  inode = 0;
  length_ = 0;
  reads = false;
  lists = false;
}

-- The array of file nodes before the loop.
abbrev pub no_children : ℕ → Array FileNode
no_children n = record { cells = λ i. no_node; size = 0; max_size = n }

-- InitrdFs::init.
unfoldable pub init : ℕ → Places → ℕ → Mem → Option (Mem × InitrdFs)
init fuel p location m =
    let n = read32 m location in
    let m1 = strncpy p.dev p.dev_text 3 (strncpy p.root p.initrd_text 6 m) in
    let m2 = memset p.children_at 0 (n * node_bytes) m1 in
    elim (init_loop fuel location p n 0 (location + 4) (no_children n) m2) [
      | none ↦ none
      | some (m3, children) ↦ some (
        m3,
        record { headers_at = location + 4; headers_size = n; places = p; children = children },
      )
    ]

-- InitrdFs::read into the buffer; the result is the number of bytes.
unfoldable pub read : InitrdFs → FileNode → ℕ → ℕ → ℕ → Mem → Option (Mem × ℕ)
read fs node offset size buffer m =
    let index = node.inode -ʷ 1 in
    let h = fs.headers_at + header_bytes * index in
    let size' = if ltb (get_length m h) (offset +ʷ size) then get_length m h -ʷ offset else size in
    if ltb index fs.headers_size
    then if ltb (get_length m h) offset
      then some (m, 0)
      else some (strncpy buffer (get_offset m h +ʷ offset) size' m, size')
    else none

-- The loop of `finddir` from the child `i`, with the length of the name.
unfoldable pub find_child : ℕ → ℕ → ℕ → Array FileNode → ℕ → Mem → Option FileNode
find_child zero i len children name m = none
find_child (suc left) i len children name m =
    let rest = find_child left (i + 1) len children name m in
    if strncmp m name (children.cells i).name len == 0 then some (children.cells i) else rest

-- What `finddir` gives: null, the node of dev, or a child of the root.
pub data Found : Type 0 where
  nothing : Found
  dev_node : Found
  child : FileNode → Found

-- InitrdFs::finddir of the node at the address `node`.
unfoldable pub finddir : ℕ → InitrdFs → ℕ → ℕ → Mem → Option Found
finddir fuel fs node name m =
    if node == fs.places.root && strncmp m name fs.places.dev_text 3 == 0
    then some dev_node
    else elim (strlen fuel m name) [
      | none ↦ none
      | some len ↦ elim (find_child fs.children.size 0 len fs.children name m) [
        | none ↦ some nothing
        | some f ↦ some (child f)
      ]
    ]

-- What `readdir` gives: null, or the entry whose name it writes to currDirent, by its inode.
pub data Listed : Type 0 where
  no_entry : Listed
  entry : ℕ → Listed

-- InitrdFs::readdir of the node at the address `node`, with currDirent.name at `dirent`.
unfoldable pub readdir : ℕ → InitrdFs → ℕ → ℕ → ℕ → Mem → Option (Mem × Listed)
readdir fuel fs node index dirent m =
    if node == fs.places.root && index == 0
    then some (store (strncpy dirent fs.places.dev_text 3 m) (dirent + 3) 0, entry 0)
    else if ltb fs.children.size index
    then some (m, no_entry)
    else elim (at fs.children (index -ʷ 1)) [
      | none ↦ none
      | some f ↦ elim (strlen fuel m f.name) [
        | none ↦ none
        | some len ↦
            (let m' = strncpy dirent f.name len m in
              elim (strlen fuel m' f.name) [
                | none ↦ none
                | some len' ↦ some (store m' (dirent + len') 0, entry f.inode)
              ])
      ]
    ]
