-- ===== src/Initrd/Entries.antt =====
-- The file headers in memory, and the children that `init` makes of them.
use experimental_kernel.Common.{
  ℕ, ◌+◌, ◌*◌, ◌^◌, ◌≤◌, ◌<◌, ◌≡◌, ◌∙◌, true, false, List, [], ◌∷◌, arith, length,
}
use experimental_kernel.Memory.{Mem, read32}
use experimental_kernel.Cstring.Text.{Text, Text-frame}
use experimental_kernel.Initrd.{
  FileNode, Places, max_name_len, node_bytes, header_bytes, header_name, get_offset, get_length,
}

-- One file header: a name that fits with its terminator, an offset and a length.
pub record Entry : Type 0 where
  pub name : List ℕ
  pub offset : ℕ
  pub size : ℕ

-- From `h` on stand the headers of these entries.
abbrev pub Headers : Mem → ℕ → List Entry → Type 0
Headers m h [] = Unit
Headers m h (e ∷ es) =
    Text m (header_name h) e.name
    × (length e.name < max_name_len)
    × (get_offset m h ≡ e.offset)
    × (get_length m h ≡ e.size)
    × Headers m (h + header_bytes) es

-- The entries with their offsets from the start of memory.
abbrev pub moved : ℕ → List Entry → List Entry
moved location [] = []
moved location (e ∷ es) = record e { offset = e.offset + location } ∷ moved location es

-- Offsets that stay words when they are moved.
abbrev pub AllFit : ℕ → List Entry → Type 0
AllFit location [] = Unit
AllFit location (e ∷ es) = (e.offset + location < 2 ^ 32) × AllFit location es

abbrev pub slot : Places → ℕ → ℕ
slot p i = p.children_at + node_bytes * i

abbrev pub child_of : Places → ℕ → Entry → FileNode
child_of p i e = record {
  name = slot p i;
  mask = 0;
  uid = 0;
  gid = 0;
  flags = 1;
  inode = i + 1;
  length_ = e.size;
  reads = true;
  lists = false;
}

-- The children from number `i` on are those of the entries.
abbrev pub Children : Mem → (ℕ → FileNode) → Places → ℕ → List Entry → Type 0
Children m cells p i [] = Unit
Children m cells p i (e ∷ es) =
    (cells i ≡ child_of p i e) × Text m (slot p i) e.name × Children m cells p (i + 1) es

pub read32-same :
    (m g : Mem) (a : ℕ) → ((x : ℕ) → a ≤ x → x < a + 4 → g x ≡ m x) → read32 g a ≡ read32 m a
unfolding read32
read32-same m g a same = ground (arith, same a, same (a + 1), same (a + 2), same (a + 3))

pub Headers-frame :
    (m g : Mem) (h : ℕ) (es : List Entry)
    → ((a : ℕ) → h ≤ a → a < h + header_bytes * length es → g a ≡ m a)
    → Headers m h es
    → Headers g h es
Headers-frame m g h [] same t = tt
Headers-frame m g h (e ∷ es) same (name, short, offset, size, rest) = (
  Text-frame m g (h + 1) e.name (λ a lo hi. same a (omega arith) (omega (arith, short))) name,
  short,
  read32-same m g (h + 65) (λ a lo hi. same a (omega arith) (omega arith)) ∙ offset,
  read32-same m g (h + 69) (λ a lo hi. same a (omega arith) (omega arith)) ∙ size,
  Headers-frame m g (h + header_bytes) es (λ a lo hi. same a (omega arith) (omega arith)) rest,
)
