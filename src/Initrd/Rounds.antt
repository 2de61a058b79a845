-- ===== src/Initrd/Rounds.antt =====
-- The rounds of the loop that shows the files.
use experimental_kernel.Common.{
  ℕ, zero, suc, ◌+◌, ◌^◌, ◌<◌, ◌≡◌, refl, sym, ◌∙◌, ◌⊎◌, true, false, some, List, [], ◌∷◌, arith,
  ◌==◌, if◌then◌else◌, eq→==, length, get_elem?,
}
use mathlib.Core.Path.{subst}
use mathlib.Core.Option.{some-injective}
use experimental_kernel.Memory.{Mem}
use experimental_kernel.Cstring.{strlen}
use experimental_kernel.Cstring.Text.{Text}
use experimental_kernel.Cstring.Scan.{strlen-length}
use experimental_kernel.Initrd.{
  InitrdFs, Found, dev_node, child, entry, read, readdir, finddir, max_name_len,
}
use experimental_kernel.Initrd.Names.{IsBytes}
use experimental_kernel.Initrd.Entries.{Entry, moved, child_of}
use experimental_kernel.Initrd.Files.{dev_name}
use experimental_kernel.Initrd.Lookup.{same_text, find_entry, finddir-find_entry}
use experimental_kernel.Initrd.Contents.{take, read-Text}
use experimental_kernel.Initrd.Image.{file_name}
use experimental_kernel.Initrd.Packed.{Supply, entries, length-entries}
use experimental_kernel.Initrd.Stored.{Holds-Content, length-moved, entries-Stored}
use experimental_kernel.Initrd.Listing.{ShortNames, Lists, listing, listed, readdir-Lists}
use experimental_kernel.Initrd.Vfs.{
  Shown, file, bytes_at, show_found, show_files, vfs_read, vfs_readdir, vfs_finddir,
}
use experimental_kernel.Initrd.Show.{
  AllDiffer-get_elem?, Distinct-get_elem?, entries-get_elem?, find_entry-Distinct, bytes_at-Text,
  Ready, Shows, Ready-frame,
}

-- What is shown of a file: its name and its first 256 bytes.
abbrev pub shown_file : Supply → Shown
shown_file s = file (file_name s.path) (take 256 s.content)

abbrev pub shown_files : List Supply → List Shown
shown_files [] = []
shown_files (s ∷ ss) = shown_file s ∷ shown_files ss

ShortNames-get_elem? :
    (k : ℕ) (es : List Entry) (e : Entry)
    → ShortNames es
    → get_elem? es k ≡ some e
    → length e.name < max_name_len
ShortNames-get_elem? k [] e s eq = absurd (ground (arith, eq))
ShortNames-get_elem? zero (x ∷ es) e s eq =
    subst (λ z. length z.name < max_name_len) (some-injective x e eq) s.0
ShortNames-get_elem? (suc k) (x ∷ es) e s eq = ShortNames-get_elem? k es e s.1 eq

pub show_files-round :
    (rounds fuel i dirent buf inode len : ℕ) (fs : InitrdFs) (found : Found) (m m1 m2 m3 : Mem)
    (shown : Shown) (rest : List Shown)
    → readdir fuel fs fs.places.root i dirent m ≡ some (m1, entry inode)
    → strlen fuel m1 dirent ≡ some len
    → finddir fuel fs fs.places.root dirent m1 ≡ some found
    → show_found len fs found dirent buf m1 ≡ some (m2, shown)
    → show_files rounds fuel fs (i + 1) dirent buf m2 ≡ some (m3, rest)
    → show_files (suc rounds) fuel fs i dirent buf m ≡ some (m3, shown ∷ rest)
unfolding show_files vfs_readdir vfs_finddir
show_files-round rounds fuel i dirent buf inode len fs found m m1 m2 m3 shown rest e1 e2 e3 e4 e5 =
    rw (show_files, e1, e2, e3, e4, e5) refl

show_found_child :
    (len dirent buf size k : ℕ) (fs : InitrdFs) (e : Entry) (name content : List ℕ) (m m' : Mem)
    → read fs (child_of fs.places k e) 0 256 buf m ≡ some (m', size)
    → bytes_at m dirent len ≡ name
    → bytes_at m' buf size ≡ content
    → show_found len fs (child (child_of fs.places k e)) dirent buf m ≡ some (m', file name content)
unfolding show_found vfs_read
show_found_child len dirent buf size k fs e name content m m' e1 e2 e3 =
    rw (show_found, e1, e2, e3) refl

module _ (fs : InitrdFs) (location offset dirent buf fuel : ℕ) (ss : List Supply)
    (c : Shows fs location offset dirent buf fuel ss) where
  count : length (entries offset ss) ≡ length ss
  count = length-entries offset ss

  -- `readdir` in a mounted image.
  pub list_entry :
      (index : ℕ) (m : Mem)
      → Ready fs location offset ss m
      → index < 2 ^ 32
      → Lists dirent m
          (readdir fuel fs fs.places.root index dirent m)
          (listing (entries offset ss) index)
  list_entry index m r small =
      readdir-Lists fuel index dirent (entries offset ss) fs m r.bytes r.nodes (c.size ∙ sym count)
        c.short r.dev c.fuelled small c.dirent_free.fits (omega (arith, c.slots_fit, count))
        c.dev_fits (omega (arith, c.dirent_free.nodes, count)) c.dirent_free.dev

  -- `finddir` of the name in the entry.
  pub find_name :
      (xs : List ℕ) (m : Mem)
      → Ready fs location offset ss m
      → Text m dirent xs
      → length xs < max_name_len
      → finddir fuel fs fs.places.root dirent m
        ≡ some (
            if same_text xs dev_name
            then dev_node
            else find_entry fs.places 0 xs (entries offset ss))
  find_name xs m r t short =
      let self : (fs.places.root == fs.places.root) ≡ true = eq→== _ _ refl in
      finddir-find_entry fuel fs.places.root dirent xs (entries offset ss) fs m r.bytes t
        (omega (arith, short, c.dirent_fits)) (omega (arith, short, c.fuelled)) r.nodes
        (c.size ∙ sym count) (omega (arith, short, c.slots_fit, count)) r.dev
        (omega (arith, c.dev_fits))
      ∙ (rw self refl)

  -- `read` of a file of the mounted image.
  read_file :
      (k : ℕ) (s : Supply) (e : Entry) (m : Mem)
      → Ready fs location offset ss m
      → get_elem? ss k ≡ some s
      → k < length ss
      → (m' : Mem) × (read fs (child_of fs.places k e) 0 256 buf m
          ≡ some (m', length (take 256 s.content)))
        × Text m' buf (take 256 s.content)
        × IsBytes m'
        × ((a : ℕ) → (a < buf) ⊎ (buf + 256 < a) → m' a ≡ m a)
  read_file k s e m r chosen lt =
      let n = length-moved location (entries offset ss) in
      let (e', st) = entries-Stored m location offset k ss s r.held chosen in
      read-Text fs (child_of fs.places k e) 0 256 buf k m (moved location (entries offset ss)) e'
        s.content r.bytes r.headers (c.headers_size ∙ sym (n ∙ count))
        (omega (arith, n, count, c.count_fits)) st.found refl
        (Holds-Content m e'.offset s.content (Distinct-get_elem? k ss s c.distinct chosen) st.held)
        (sym st.size) (omega (arith, st.end, c.contents_fit))
        (omega (arith, st.end, c.contents_fit)) (omega arith) (omega arith)
        (omega (arith, c.buf_free.fits)) (omega (arith, st.start, st.end, c.buf_free.contents))

  -- One round shows the file with its number.
  pub show_file :
      (k rounds : ℕ) (s : Supply) (m : Mem)
      → Ready fs location offset ss m
      → get_elem? ss k ≡ some s
      → k < length ss
      → (m2 : Mem) × Ready fs location offset ss m2
        × ((m3 : Mem) (rest : List Shown)
            → show_files rounds fuel fs (suc k + 1) dirent buf m2 ≡ some (m3, rest)
            → show_files (suc rounds) fuel fs (suc k) dirent buf m ≡ some (m3, shown_file s ∷ rest))
  show_file k rounds s m r chosen lt =
      let (e, there, named) = entries-get_elem? offset k ss s chosen in
      let short : length (file_name s.path) < max_name_len =
        subst (λ xs. length xs < max_name_len) named (short_name k e there) in
      let (m1, listed_, text0, bytes1, others1) =
        subst (λ o. Lists dirent m (readdir fuel fs fs.places.root (suc k) dirent m) (listed k o))
          there (list_entry (suc k) m r (omega (arith, c.count_fits))) in
      let text : Text m1 dirent (file_name s.path) = subst (λ xs. Text m1 dirent xs) named text0 in
      let r1 =
        Ready-frame fs location offset dirent max_name_len ss m m1 c.short c.dirent_free others1
          bytes1 r in
      let (m2, done, text2, bytes2, others2) = read_file k s e m1 r1 chosen lt in
      let r2 =
        Ready-frame fs location offset buf 257 ss m1 m2 c.short c.buf_free
          (λ x out. others2 x (omega (arith, out))) bytes2 r1 in
      let found : finddir fuel fs fs.places.root dirent m1 ≡ some (child (child_of fs.places k e)) =
        find_name (file_name s.path) m1 r1 text short
        ∙ (let differs : same_text (file_name s.path) dev_name ≡ false =
              AllDiffer-get_elem? dev_name k ss s c.no_dev chosen in
            let zero_ : 0 + k ≡ k = omega arith in
            rw
              (
                differs,
                find_entry-Distinct fs.places 0 offset k ss s e c.distinct chosen there,
                zero_,
              )
              refl) in
      (
        m2,
        r2,
        λ m3 rest more.
            show_files-round rounds fuel (suc k) dirent buf (k + 1) (length (file_name s.path)) fs
              (child (child_of fs.places k e)) m m1 m2 m3 (shown_file s) rest listed_
              (strlen-length fuel m1 dirent (file_name s.path) text
                (omega (arith, short, c.dirent_fits)) (omega (arith, short, c.fuelled)))
              found
              (show_found_child (length (file_name s.path)) dirent buf _ k fs e _ _ m1 m2 done
                (bytes_at-Text m1 dirent (file_name s.path) text)
                (bytes_at-Text m2 buf (take 256 s.content) text2))
              more,
      )
    where
      short_name :
          (k : ℕ) (e : Entry)
          → get_elem? (entries offset ss) k ≡ some e
          → length e.name < max_name_len
      short_name k e eq = ShortNames-get_elem? k (entries offset ss) e c.short eq
