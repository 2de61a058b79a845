-- ===== src/Initrd/Header.antt =====
-- One round of the loop of `init`.
use experimental_kernel.Common.{
  ℕ, suc, ◌+◌, ◌*◌, ◌^◌, ◌≤◌, ◌<◌, ◌≡◌, refl, ◌∙◌, ◌⊎◌, true, false, some, [], ◌∷◌, arith, ◌==◌,
  ne→==, ◌+ʷ◌,
}
use experimental_kernel.Memory.{Mem, write32}
use experimental_kernel.Memory.Words.{read32-write32_self, read32-write32_other, write32_other}
use experimental_kernel.Array.{Array, add, put}
use experimental_kernel.Cstring.Text.{Text, Text-frame}
use experimental_kernel.Initrd.{
  FileNode, Places, header_bytes, header_name, get_offset, get_length, copy_name, file_node,
  add_child, init_loop,
}
use experimental_kernel.Initrd.Names.{IsBytes, Copies-Text, copy_name-Copies, write32-IsBytes}
use experimental_kernel.Initrd.Entries.{Entry, Headers, slot, child_of, read32-same}

-- The headers of `n` entries from `h` on, the slots for as many nodes from number `i` on, and the
-- local node stand apart from one another in the address space.
pub record Room (p : Places) (i h n : ℕ) : Type 0 where
  pub headers_fit : h + header_bytes * n < 2 ^ 32
  pub slots_fit : slot p (i + n) < 2 ^ 32
  pub local_fits : p.child_node + 65 < 2 ^ 32
  pub local_headers : (p.child_node + 65 ≤ h) ⊎ (h + header_bytes * n ≤ p.child_node)
  pub slots_headers : (slot p (i + n) ≤ h) ⊎ (h + header_bytes * n ≤ slot p i)
  pub local_slots : (p.child_node + 65 ≤ slot p i) ⊎ (slot p (i + n) ≤ p.child_node)

-- One round.
pub record Round (location : ℕ) (p : Places) (i h : ℕ) (e : Entry) (m : Mem) (m' : Mem)
    : Type 0 where
  pub bytes : IsBytes m'
  pub offset : get_offset m' h ≡ e.offset + location
  pub name : Text m' (slot p i) e.name
  pub others :
      (a : ℕ)
      → (a < h + 65) ⊎ (h + 69 ≤ a)
      → (a < slot p i) ⊎ (slot p i + 64 ≤ a)
      → (a < p.child_node) ⊎ (p.child_node + 64 ≤ a)
      → m' a ≡ m a

-- The array with the node of one more entry.
abbrev pub with_child : Places → Array FileNode → Entry → Array FileNode
with_child p children e = record children {
  cells = put children.cells children.size (child_of p children.size e);
  size = children.size + 1;
}

-- The node that the constructor makes in the local `childNode`.
abbrev local_node : ℕ → ℕ → ℕ → FileNode
local_node name_at inode size = record {
  name = name_at;
  mask = 0;
  uid = 0;
  gid = 0;
  flags = 1;
  inode = inode;
  length_ = size;
  reads = true;
  lists = false;
}

file_node_lem :
    (fuel name_at name inode size : ℕ) (m m' : Mem)
    → copy_name fuel name_at name m ≡ some m'
    → file_node fuel name_at name inode size m ≡ some (m', local_node name_at inode size)
unfolding file_node
file_node_lem fuel name_at name inode size m m' e = rw (file_node, e) refl

add_room :
    (children : Array FileNode) (node : FileNode)
    → children.size < children.max_size
    → children.size + 1 < 2 ^ 32
    → (add children node).0
      ≡ record children { cells = put children.cells children.size node; size = children.size + 1 }
unfolding add
add_room children node free small =
    let here : (children.size == children.max_size) ≡ false = ne→== _ _ (omega arith) in
    let next : children.size +ʷ 1 ≡ children.size + 1 = omega arith in rw (here, next) refl

add_child_lem :
    (fuel : ℕ) (p : Places) (children : Array FileNode) (e : Entry) (m m' : Mem)
    → children.size < children.max_size
    → children.size + 1 < 2 ^ 32
    → copy_name fuel (slot p children.size) p.child_node m ≡ some m'
    → add_child fuel p.children_at children (local_node p.child_node (children.size + 1) e.size) m
      ≡ some (m', with_child p children e)
unfolding add_child
add_child_lem fuel p children e m m' free small copied =
    let here : (children.size == children.max_size) ≡ false = ne→== _ _ (omega arith) in
    rw
      (
        add_child,
        here,
        copied,
        add_room children
            (record (local_node p.child_node (children.size + 1) e.size) {
              name = slot p children.size;
            })
            free small,
      )
      refl

-- The rest of a round, once the offset is moved.
init_loop-rest :
    (fuel location : ℕ) (p : Places) (left i h offset size : ℕ) (m m2 m3 : Mem) (node : FileNode)
    (children children' : Array FileNode)
    → get_offset m h +ʷ location ≡ offset
    → get_length (write32 m (h + 65) offset) h ≡ size
    → file_node fuel p.child_node (header_name h) (i + 1) size (write32 m (h + 65) offset)
      ≡ some (m2, node)
    → add_child fuel p.children_at children node m2 ≡ some (m3, children')
    → init_loop fuel location p (suc left) i h children m
      ≡ init_loop fuel location p left (i + 1) (h + header_bytes) children' m3
unfolding init_loop
init_loop-rest fuel location p left i h offset size m m2 m3 node children children' e1 e2 e3 e4 =
    rw (init_loop, e1, e2, e3, e4) refl

pub init_loop-Round :
    (fuel location : ℕ) (p : Places) (left h : ℕ) (e : Entry) (children : Array FileNode) (m : Mem)
    → IsBytes m
    → Headers m h (e ∷ [])
    → e.offset + location < 2 ^ 32
    → 64 ≤ fuel
    → Room p children.size h 1
    → children.size < children.max_size
    → children.size + 1 < 2 ^ 32
    → (m' : Mem) × Round location p children.size h e m m'
      × (init_loop fuel location p (suc left) children.size h children m
          ≡ init_loop fuel location p left
              (children.size + 1)
              (h + header_bytes)
              (with_child p children e)
              m')
unfolding init_loop
init_loop-Round fuel location p left h e children m bytes (name, short, offset, size, _) fits
      fuelled room free small =
    let moves : get_offset m h +ʷ location ≡ e.offset + location = omega (arith, offset, fits) in
    let m1 = write32 m (h + 65) (e.offset + location) in
    let name1 : Text m1 (h + 1) e.name =
      Text-frame m m1 (h + 1) e.name
        (λ a lo hi. write32_other m (h + 65) _ a (omega (arith, short))) name in
    let (m2, made, c2) =
      copy_name-Copies fuel p.child_node (h + 1) e.name m1 (write32-IsBytes m _ _ bytes) name1 short
        (omega (arith, short)) (omega (arith, short, room.local_fits))
        (omega (arith, short, room.headers_fit)) (omega (arith, short, room.local_headers)) in
    let (m3, added, c3) =
      copy_name-Copies fuel (slot p children.size) p.child_node e.name m2 c2.bytes
        (Copies-Text p.child_node (h + 1) e.name m1 m2 c2 name1) short (omega (arith, short))
        (omega (arith, short, room.slots_fit)) (omega (arith, short, room.local_fits))
        (omega (arith, short, room.local_slots)) in
    let kept : get_length m1 h ≡ e.size =
      read32-write32_other m (h + 65) (h + 69) _ (omega arith) ∙ size in
    (
      m3,
      record {
        bytes = c3.bytes;
        offset =
            read32-same m1 m3 (h + 65) (λ a lo hi.
              c3.others a (omega (arith, short, room.slots_headers))
              ∙ c2.others a (omega (arith, short, room.local_headers)))
            ∙ read32-write32_self m (h + 65) (e.offset + location) fits;
        name =
            Copies-Text (slot p children.size) p.child_node e.name m2 m3 c3
              (Copies-Text p.child_node (h + 1) e.name m1 m2 c2 name1);
        others = λ a x y z.
            c3.others a (omega (arith, short, y))
            ∙ c2.others a (omega (arith, short, z))
            ∙ write32_other m (h + 65) _ a (omega (arith, x));
      },
      init_loop-rest fuel location p left children.size h (e.offset + location) e.size m m2 m3
          (local_node p.child_node (children.size + 1) e.size) children (with_child p children e)
          moves kept (file_node_lem fuel p.child_node (h + 1) (children.size + 1) e.size m1 m2 made)
          (add_child_lem fuel p children e m2 m3 free small added),
    )
