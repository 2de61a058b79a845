-- ===== src/Initrd/Contained.antt =====
-- The loop over the entries of the root, from the first to the last.
use experimental_kernel.Common.{
  ℕ, zero, suc, ◌+◌, ◌≤◌, ◌<◌, ◌≡◌, refl, sym, some, List, [], ◌∷◌, arith, length, get_elem?,
}
use mathlib.Core.Path.{subst}
use experimental_kernel.Memory.{Mem}
use experimental_kernel.Cstring.Scan.{strlen-length}
use experimental_kernel.Initrd.{InitrdFs, dev_node, no_entry, readdir, max_name_len}
use experimental_kernel.Initrd.Files.{dev_name}
use experimental_kernel.Initrd.Packed.{Supply}
use experimental_kernel.Initrd.Listing.{readdir_past}
use experimental_kernel.Initrd.Vfs.{directory, bytes_at, show_found, show_files, vfs_readdir}
use experimental_kernel.Initrd.Show.{bytes_at-Text, Ready, Shows, Ready-frame}
use experimental_kernel.Initrd.Rounds.{
  shown_files, show_files-round, list_entry, find_name, show_file,
}

show_files-end :
    (rounds fuel i dirent buf : ℕ) (fs : InitrdFs) (m : Mem)
    → readdir fuel fs fs.places.root i dirent m ≡ some (m, no_entry)
    → show_files (suc rounds) fuel fs i dirent buf m ≡ some (m, [])
unfolding show_files vfs_readdir
show_files-end rounds fuel i dirent buf fs m e = rw (show_files, e) refl

show_found_dev :
    (len dirent buf : ℕ) (fs : InitrdFs) (name : List ℕ) (m : Mem)
    → bytes_at m dirent len ≡ name
    → show_found len fs dev_node dirent buf m ≡ some (m, directory name)
unfolding show_found
show_found_dev len dirent buf fs name m e = rw (show_found, e) refl

-- The rounds for the files from number `k` on.
show_rest :
    (fs : InitrdFs) (location offset dirent buf fuel : ℕ) (ss : List Supply)
    (c : Shows fs location offset dirent buf fuel ss) (k rounds : ℕ) (rest : List Supply) (m : Mem)
    → Ready fs location offset ss m
    → length rest < rounds
    → length ss ≡ k + length rest
    → ((j : ℕ) → get_elem? ss (k + j) ≡ get_elem? rest j)
    → (m' : Mem) × (show_files rounds fuel fs (suc k) dirent buf m ≡ some (m', shown_files rest))
show_rest fs location offset dirent buf fuel ss c k zero rest m r more size same =
    absurd (omega arith)
show_rest fs location offset dirent buf fuel ss c k (suc rounds) [] m r more size same = (
  m,
  show_files-end rounds fuel (suc k) dirent buf fs m
      (readdir_past fuel (suc k) dirent fs m (omega (arith, c.size, size))),
)
show_rest fs location offset dirent buf fuel ss c k (suc rounds) (s ∷ rest) m r more size same =
    let at : k + 0 ≡ k = omega arith in
    let chosen : get_elem? ss k ≡ some s = subst (λ i. get_elem? ss i ≡ some s) at (same 0) in
    let (m2, r2, step) =
      show_file fs location offset dirent buf fuel ss c k rounds s m r chosen
        (omega (arith, size)) in
    let next : suc k + 1 ≡ suc (k + 1) = omega arith in
    let (m3, done) =
      show_rest fs location offset dirent buf fuel ss c (k + 1) rounds rest m2 r2 (omega arith)
        (omega (arith, size))
        (λ j. (let e : k + 1 + j ≡ k + suc j = omega arith in rw e (same (suc j)))) in
    (
      m3,
      step m3 (shown_files rest) (
          subst (λ i. show_files rounds fuel fs i dirent buf m2 ≡ some (m3, shown_files rest))
            (sym next) done),
    )

-- In a mounted image, the loop of kernel_main over the entries of the root comes to its end, and shows
-- the directory dev, and then each file in its order, with its name and its first 256 bytes. No two
-- files have the same name, none is called dev, none has a zero byte, the names are shorter than 64
-- bytes, and neither the entry nor the buffer meets the image, the nodes or the text "dev".
pub show_files-shown_files :
    (fs : InitrdFs) (location offset dirent buf fuel rounds : ℕ) (ss : List Supply) (m : Mem)
    → Shows fs location offset dirent buf fuel ss
    → Ready fs location offset ss m
    → length ss + 2 ≤ rounds
    → (m' : Mem) × (show_files rounds fuel fs 0 dirent buf m
        ≡ some (m', directory dev_name ∷ shown_files ss))
show_files-shown_files fs location offset dirent buf fuel zero ss m c r more = absurd (omega arith)
show_files-shown_files fs location offset dirent buf fuel (suc rounds) ss m c r more =
    let (m1, listed_, text, bytes1, others1) =
      list_entry fs location offset dirent buf fuel ss c 0 m r (omega arith) in
    let r1 =
      Ready-frame fs location offset dirent max_name_len ss m m1 c.short c.dirent_free others1
        bytes1 r in
    let (m2, done) =
      show_rest fs location offset dirent buf fuel ss c 0 rounds ss m1 r1 (omega arith)
        (omega arith) (λ j. (let e : 0 + j ≡ j = omega arith in rw e refl)) in
    (
      m2,
      show_files-round rounds fuel 0 dirent buf 0 3 fs dev_node m m1 m1 m2 (directory dev_name)
          (shown_files ss) listed_
          (strlen-length fuel m1 dirent dev_name text (omega (arith, c.dirent_fits))
            (omega (arith, c.fuelled)))
          (find_name fs location offset dirent buf fuel ss c dev_name m1 r1 text (omega arith))
          (show_found_dev 3 dirent buf fs dev_name m1 (bytes_at-Text m1 dirent dev_name text)) done,
    )
