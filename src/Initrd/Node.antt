-- ===== src/Initrd/Node.antt =====
-- The other constructors of FileNode in source/vfs/fs.cpp, and Vfs::open, close and write. What a node's
-- operation does is an argument; `none` is null.
use experimental_kernel.Common.{ℕ, ◌-◌, ◌^◌, false, Option, none, some}
use experimental_kernel.Memory.{Mem, memset}
use experimental_kernel.Initrd.{FileNode, copy_name, max_name_len}

-- FileNode(), whose name is cleared.
unfoldable pub empty_node : ℕ → Mem → Mem × FileNode
empty_node name_at m = (
  memset name_at 0 max_name_len m,
  record {
    name = name_at;
    mask = 0;
    uid = 0;
    gid = 0;
    flags = 0;
    inode = 0;
    length_ = 0;
    reads = false;
    lists = false;
  },
)

-- FileNode(fileNode).
unfoldable pub copy_node : ℕ → ℕ → FileNode → Mem → Option (Mem × FileNode)
copy_node fuel name_at node m = elim (copy_name fuel name_at node.name m) [
  | none ↦ none
  | some m' ↦ some (m', record node { name = name_at })
]

-- set, with the new fields as a record whose name is the one to copy.
unfoldable pub set_node : ℕ → FileNode → FileNode → Mem → Option (Mem × FileNode)
set_node fuel node fields m = elim (copy_name fuel node.name fields.name m) [
  | none ↦ none
  | some m' ↦ some (m', record fields { name = node.name })
]

unfoldable pub vfs_open : Option (Mem → Mem) → Mem → Mem
vfs_open none m = m
vfs_open (some open_) m = open_ m

unfoldable pub vfs_close : Option (Mem → Mem) → Mem → Mem
vfs_close none m = m
vfs_close (some close_) m = close_ m

-- The result is -1 without a write_.
unfoldable pub vfs_write : Option (ℕ → ℕ → ℕ → Mem → Mem × ℕ) → ℕ → ℕ → ℕ → Mem → Mem × ℕ
vfs_write none offset size buffer m = (m, 2 ^ 32 - 1)
vfs_write (some write_) offset size buffer m = write_ offset size buffer m
