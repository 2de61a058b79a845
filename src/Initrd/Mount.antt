-- ===== src/Initrd/Mount.antt =====
-- From the files that mk_initrd_img packs to the files that InitrdFs reads.
use experimental_kernel.Common.{
  ℕ, ◌+◌, ◌*◌, ◌^◌, ◌≤◌, ◌<◌, ◌≡◌, sym, ◌∙◌, ◌⊎◌, Option, some, List, ◌++◌, arith, length,
  get_elem?,
}
use mathlib.Core.Path.{subst}
use mathlib.Core.Option.{some-injective}
use experimental_kernel.Memory.{Mem, read32}
use experimental_kernel.Cstring.Text.{Text}
use experimental_kernel.Initrd.{InitrdFs, Places, header_bytes, init, read}
use experimental_kernel.Initrd.Names.{IsBytes}
use experimental_kernel.Initrd.Entries.{Headers, moved}
use experimental_kernel.Initrd.Files.{Layout, Mounted, init-Mounted, initrd_name, dev_name}
use experimental_kernel.Initrd.Contents.{take, drop, read-Text}
use experimental_kernel.Initrd.Image.{file_name, make_image, word, write_nodes, file_nodes_num}
use experimental_kernel.Initrd.Packed.{
  Supply, IsName, Supplied, total, paths_of, entries, nodes_of, contents_of, base,
  make_image-entries, Holds, Holds-append, Holds-word, write_nodes-Headers, length-entries,
}
use experimental_kernel.Initrd.Stored.{
  Placed, Holds-frame, Holds-Content, take_all, length-contents_of, entries-AllFit, entries-Stored,
  Children-get_elem?, length-moved,
}

-- The image in memory: the number of files, their headers, and their bytes.
image-Headers :
    (files : List ℕ → Option (List ℕ)) (m : Mem) (location : ℕ) (ss : List Supply) (image : List ℕ)
    → Supplied files ss
    → length ss ≤ file_nodes_num
    → base ss + total ss < 2 ^ 32
    → make_image files (paths_of ss) ≡ some image
    → Holds m location image
    → (read32 m location ≡ length ss)
      × Headers m (location + 4) (entries (base ss) ss)
      × Holds m (location + base ss) (contents_of ss)
image-Headers files m location ss image supplied few fits made held =
    let packed = write_nodes (nodes_of (entries (base ss) ss)) ++ contents_of ss in
    let e : image ≡ word (length ss) ++ packed =
      some-injective image (word (length ss) ++ packed)
        (sym made ∙ make_image-entries files ss supplied few fits) in
    let (count, rest) : Holds m location (word (length ss)) × Holds m (location + 4) packed =
      Holds-append m location (word (length ss)) packed (subst (λ z. Holds m location z) e held) in
    let (headers, after) =
      write_nodes-Headers files m (location + 4) (base ss) ss (contents_of ss) supplied fits rest in
    let at : location + 4 + header_bytes * length ss ≡ location + base ss = omega arith in
    (
      Holds-word m location (length ss) (omega (arith, few)) count,
      headers,
      subst (λ a. Holds m a (contents_of ss)) at after,
    )

-- What reading the file `s`, number `i`, of the mounted image into a buffer gives.
pub record ReadsBack (fuel location buffer i : ℕ) (p : Places) (s : Supply) (m m' g : Mem)
    (fs : InitrdFs) : Type 0 where
  pub mounted : init fuel p location m ≡ some (m', fs)
  pub name : Text m' ((fs.children.cells i).name) (file_name s.path)
  pub length_ :
      read fs (fs.children.cells i) 0 (length s.content) buffer m' ≡ some (g, length s.content)
  pub content : Text g buffer s.content

-- `read` of a child of the mounted image, once its bytes are still there.
Mounted-read :
    (location buffer i : ℕ) (p : Places) (ss : List Supply) (s : Supply) (m m' : Mem)
    (fs : InitrdFs)
    → length (entries (base ss) ss) ≤ file_nodes_num
    → Mounted p location (entries (base ss) ss) m m' fs
    → Holds m' (location + base ss) (contents_of ss)
    → get_elem? ss i ≡ some s
    → IsName s.content
    → length s.content < 2 ^ 31
    → buffer + length s.content + 1 < 2 ^ 32
    → location + base ss + total ss + 1 < 2 ^ 32
    → (buffer + length s.content < location) ⊎ (location + base ss + total ss < buffer)
    → (g : Mem) × Text m' ((fs.children.cells i).name) (file_name s.path)
      × (read fs (fs.children.cells i) 0 (length s.content) buffer m' ≡ some (g, length s.content))
      × Text g buffer s.content
Mounted-read location buffer i p ss s m m' fs few mounted kept chosen full small room fits apart =
    let es = moved location (entries (base ss) ss) in
    let (e, st) = entries-Stored m' location (base ss) i ss s kept chosen in
    let node = Children-get_elem? m' fs.children.cells p 0 (base ss) i ss s mounted.nodes chosen in
    let part : take (length s.content) (drop 0 s.content) ≡ s.content = take_all s.content in
    let here : 0 + i ≡ i = omega arith in
    let n = length-moved location (entries (base ss) ss) in
    let (g, read_, text, _, _) =
      read-Text fs (fs.children.cells i) 0 (length s.content) buffer i m' es e s.content
        mounted.bytes (subst (λ a. Headers m' a es) (sym mounted.headers_at) mounted.headers)
        (mounted.headers_size ∙ sym n) (omega (arith, n, few)) st.found
        (subst (λ k. (fs.children.cells k).inode ≡ k + 1) here node.0)
        (Holds-Content m' e.offset s.content full st.held) (sym st.size)
        (omega (arith, st.size, small)) (omega (arith, st.end, fits)) (omega arith) (omega arith)
        (omega (arith, room)) (omega (arith, apart, st.start, st.end)) in
    (
      g,
      subst (λ k. Text m' ((fs.children.cells k).name) (file_name s.path)) here node.1,
      subst
          (λ xs. read fs (fs.children.cells i) 0 (length s.content) buffer m' ≡ some (g, length xs))
          part read_,
      subst (λ xs. Text g buffer xs) part text,
    )

-- A file that mk_initrd_img packs is read back whole, under its name, from the image that it makes:
-- for a file without zero bytes, when at most 32 files are packed, each name fits with its
-- terminator, the host has the files, and the image, the nodes and the buffer do not meet.
pub make_image-ReadsBack :
    (files : List ℕ → Option (List ℕ)) (fuel location buffer i : ℕ) (p : Places) (ss : List Supply)
    (s : Supply) (image : List ℕ) (m : Mem)
    → Supplied files ss
    → length ss ≤ file_nodes_num
    → make_image files (paths_of ss) ≡ some image
    → Holds m location image
    → IsBytes m
    → Text m p.initrd_text initrd_name
    → Text m p.dev_text dev_name
    → Placed p location ss
    → 64 ≤ fuel
    → get_elem? ss i ≡ some s
    → IsName s.content
    → length s.content < 2 ^ 31
    → buffer + length s.content + 1 < 2 ^ 32
    → (buffer + length s.content < location) ⊎ (location + base ss + total ss < buffer)
    → (m' : Mem) × (g : Mem) × (fs : InitrdFs) × ReadsBack fuel location buffer i p s m m' g fs
make_image-ReadsBack files fuel location buffer i p ss s image m supplied few made held bytes text_i
      text_d placed fuelled chosen full small room apart =
    let (count, headers, contents) =
      image-Headers files m location ss image supplied few (omega (arith, placed.fits)) made held in
    let n : length (entries (base ss) ss) ≡ length ss = length-entries (base ss) ss in
    let (m', fs, done, mounted) =
      init-Mounted fuel location p (entries (base ss) ss) m bytes (count ∙ sym n) headers
        (entries-AllFit location (base ss) ss (omega (arith, placed.fits))) text_i text_d
        (subst (λ k. Layout p location k) (sym n) placed.layout) fuelled in
    let kept : Holds m' (location + base ss) (contents_of ss) =
      Holds-frame m m' (location + base ss) (contents_of ss)
        (λ x lo hi.
          mounted.others x
            (
              omega (arith, n),
              omega (arith, n, placed.slots_image, length-contents_of ss),
              omega (arith, placed.local_image, length-contents_of ss),
            )
            (omega (arith, placed.root_image, length-contents_of ss))
            (omega (arith, placed.dev_image, length-contents_of ss)))
        contents in
    let (g, name, length_, content) =
      Mounted-read location buffer i p ss s m m' fs (subst (λ k. k ≤ file_nodes_num) (sym n) few)
        mounted kept chosen full small room placed.fits apart in
    (m', g, fs, record { mounted = done; name = name; length_ = length_; content = content })
