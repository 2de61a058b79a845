-- ===== src/Initrd/Vfs.antt =====
-- The calls through the operations of a node, of Vfs in source/vfs/fs.cpp, and the loop of
-- source/kernel_main.cpp that shows the files of the initrd. The nodes of the root and of dev have
-- readdir_ and finddir_; open_, close_ and write_ are set in no node. What is printed is a list.
use experimental_kernel.Common.{
  ℕ, zero, suc, ◌+◌, ◌-◌, ◌^◌, bit_and, Bool, true, Option, none, some, List, [], ◌∷◌, ◌==◌,
  if◌then◌else◌,
}
use experimental_kernel.Memory.{Mem}
use experimental_kernel.Cstring.{strlen}
use experimental_kernel.Initrd.{
  FileNode, InitrdFs, Found, nothing, dev_node, child, Listed, no_entry, entry, read, readdir,
  finddir,
}

-- Vfs::read. The result is -1 without a read_.
unfoldable pub vfs_read : InitrdFs → FileNode → ℕ → ℕ → ℕ → Mem → Option (Mem × ℕ)
vfs_read fs node offset size buffer m =
    if node.reads then read fs node offset size buffer m else some (m, 2 ^ 32 - 1)

-- Vfs::readdir and Vfs::finddir of the directory at an address, which `lists` or not.
unfoldable pub vfs_readdir : ℕ → InitrdFs → Bool → ℕ → ℕ → ℕ → Mem → Option (Mem × Listed)
vfs_readdir fuel fs lists node index dirent m =
    if lists then readdir fuel fs node index dirent m else some (m, no_entry)

unfoldable pub vfs_finddir : ℕ → InitrdFs → Bool → ℕ → ℕ → Mem → Option Found
vfs_finddir fuel fs lists node name m = if lists then finddir fuel fs node name m else some nothing

-- What the loop prints for an entry: its name, and the bytes of a file.
pub data Shown : Type 0 where
  directory : List ℕ → Shown
  file : List ℕ → List ℕ → Shown

abbrev pub bytes_at : Mem → ℕ → ℕ → List ℕ
bytes_at m a zero = []
bytes_at m a (suc n) = m a ∷ bytes_at m (a + 1) n

-- The node that was found, with the name at `dirent`: a directory, or a file of which 256 bytes are
-- read. A null node is not defined.
unfoldable pub show_found : ℕ → InitrdFs → Found → ℕ → ℕ → Mem → Option (Mem × Shown)
show_found len fs nothing dirent buf m = none
show_found len fs dev_node dirent buf m = some (m, directory (bytes_at m dirent len))
show_found len fs (child f) dirent buf m =
    if bit_and f.flags 7 == 2
    then some (m, directory (bytes_at m dirent len))
    else elim (vfs_read fs f 0 256 buf m) [
      | none ↦ none
      | some (m', size) ↦ some (m', file (bytes_at m dirent len) (bytes_at m' buf size))
    ]

-- The loop over the entries of the root from index `i`, with rounds as fuel.
unfoldable pub show_files : ℕ → ℕ → InitrdFs → ℕ → ℕ → ℕ → Mem → Option (Mem × List Shown)
show_files zero fuel fs i dirent buf m = none
show_files (suc rounds) fuel fs i dirent buf m =
    elim (vfs_readdir fuel fs true fs.places.root i dirent m) [
      | none ↦ none
      | some (m1, no_entry) ↦ some (m1, [])
      | some (m1, entry inode) ↦ elim (strlen fuel m1 dirent) [
        | none ↦ none
        | some len ↦ elim (vfs_finddir fuel fs true fs.places.root dirent m1) [
          | none ↦ none
          | some found ↦ elim (show_found len fs found dirent buf m1) [
            | none ↦ none
            | some (m2, shown) ↦ elim (show_files rounds fuel fs (i + 1) dirent buf m2) [
              | none ↦ none
              | some (m3, rest) ↦ some (m3, shown ∷ rest)
            ]
          ]
        ]
      ]
    ]
