-- ===== src/Initrd/Packed.antt =====
-- The image of a list of files, and what it is in memory.
use experimental_kernel.Common.{
  ℕ, zero, suc, ◌+◌, ◌-◌, ◌*◌, ◌/◌, ◌%◌, ◌^◌, ◌≤◌, ◌<◌, ◌≡◌, refl, ap, ◌∙◌, ◌≢◌, false, ◌||◌,
  Option, some, List, [], ◌∷◌, ◌++◌, arith, ltb, leb, u32, ◌+ʷ◌, length, replicate, length-append,
}
use mathlib.Core.Path.{subst}
use mathlib.Core.List.{append_assoc}
use experimental_kernel.Memory.{Mem, read32}
use experimental_kernel.Cstring.Text.{Text}
use experimental_kernel.Initrd.{max_name_len, header_bytes}
use experimental_kernel.Initrd.Entries.{Entry, Headers}
use experimental_kernel.Initrd.Image.{
  Node, file_name, make_nodes, word, write_nodes, write_contents, make_image, file_nodes_num,
  max_file_name_len,
}

-- A path given to the program, and the bytes of its file.
pub record Supply : Type 0 where
  pub path : List ℕ
  pub content : List ℕ

abbrev pub IsName : List ℕ → Type 0
IsName [] = Unit
IsName (x ∷ xs) = (x ≢ 0) × (x < 256) × IsName xs

-- The paths are short, the names too, and the file system has the files.
abbrev pub Supplied : (List ℕ → Option (List ℕ)) → List Supply → Type 0
Supplied files [] = Unit
Supplied files (s ∷ ss) =
    (length s.path ≤ max_file_name_len)
    × (length (file_name s.path) < max_file_name_len)
    × IsName (file_name s.path)
    × (files (file_name s.path) ≡ some s.content)
    × Supplied files ss

abbrev pub total : List Supply → ℕ
total [] = 0
total (s ∷ ss) = length s.content + total ss

abbrev pub paths_of : List Supply → List (List ℕ)
paths_of [] = []
paths_of (s ∷ ss) = s.path ∷ paths_of ss

-- The entries of the files, whose contents follow one another from the given offset on.
abbrev pub entries : ℕ → List Supply → List Entry
entries offset [] = []
entries offset (s ∷ ss) =
    record { name = file_name s.path; offset = offset; size = length s.content }
    ∷ entries (offset + length s.content) ss

abbrev pub nodes_of : List Entry → List Node
nodes_of [] = []
nodes_of (e ∷ es) = record { name = e.name; offset = e.offset; length_ = e.size } ∷ nodes_of es

abbrev pub contents_of : List Supply → List ℕ
contents_of [] = []
contents_of (s ∷ ss) = s.content ++ contents_of ss

-- Where the contents start.
abbrev pub base : List Supply → ℕ
base ss = 4 + 73 * length ss

make_nodes-entries :
    (files : List ℕ → Option (List ℕ)) (offset : ℕ) (ss : List Supply)
    → Supplied files ss
    → offset + total ss < 2 ^ 32
    → make_nodes files offset (paths_of ss) ≡ some (nodes_of (entries offset ss))
unfolding make_nodes
make_nodes-entries files offset [] s h = refl
make_nodes-entries files offset (x ∷ ss) s h =
    let short : (ltb max_file_name_len (length x.path)
          || leb max_file_name_len (length (file_name x.path)))
        ≡ false =
      ground (arith, s.0, s.1) in
    let size : u32 (length x.content) ≡ length x.content = omega (arith, h) in
    let sum : offset +ʷ length x.content ≡ offset + length x.content = omega (arith, h) in
    let rest = make_nodes-entries files (offset + length x.content) ss s.4 (omega (arith, h)) in
    rw (make_nodes, short, s.3, size, sum, rest)
      (ap
        (λ k. some (
          record { name = file_name x.path; offset = offset; length_ = k }
          ∷ nodes_of (entries (offset + length x.content) ss)))
        size)

write_contents-entries :
    (files : List ℕ → Option (List ℕ)) (offset : ℕ) (ss : List Supply)
    → Supplied files ss
    → write_contents files (nodes_of (entries offset ss)) ≡ some (contents_of ss)
unfolding write_contents
write_contents-entries files offset [] s = refl
write_contents-entries files offset (x ∷ ss) s =
    let rest = write_contents-entries files (offset + length x.content) ss s.4 in
    rw (write_contents, s.3, rest) refl

length-paths_of : (ss : List Supply) → length (paths_of ss) ≡ length ss
length-paths_of [] = refl
length-paths_of (s ∷ ss) = ap suc (length-paths_of ss)

pub length-entries : (offset : ℕ) (ss : List Supply) → length (entries offset ss) ≡ length ss
length-entries offset [] = refl
length-entries offset (s ∷ ss) = ap suc (length-entries (offset + length s.content) ss)

pub make_image-entries :
    (files : List ℕ → Option (List ℕ)) (ss : List Supply)
    → Supplied files ss
    → length ss ≤ file_nodes_num
    → base ss + total ss < 2 ^ 32
    → make_image files (paths_of ss)
      ≡ some (word (length ss) ++ (write_nodes (nodes_of (entries (base ss) ss)) ++ contents_of ss))
unfolding make_image
make_image-entries files ss s few h =
    let n : length (paths_of ss) ≡ length ss = length-paths_of ss in
    let ok : ltb file_nodes_num (length ss) ≡ false = ground arith in
    rw
      (
        make_image,
        n,
        ok,
        make_nodes-entries files (base ss) ss s h,
        write_contents-entries files (base ss) ss s,
      )
      (ap (λ k. some (word k ++ (write_nodes (nodes_of (entries (base ss) ss)) ++ contents_of ss)))
        n)

-- The bytes from `a` on are these.
abbrev pub Holds : Mem → ℕ → List ℕ → Type 0
Holds m a [] = Unit
Holds m a (x ∷ xs) = (m a ≡ x) × Holds m (a + 1) xs

pub Holds-append :
    (m : Mem) (a : ℕ) (xs ys : List ℕ)
    → Holds m a (xs ++ ys)
    → Holds m a xs × Holds m (a + length xs) ys
Holds-append m a [] ys h = (tt, (let e : a + 0 ≡ a = omega arith in rw e h))
Holds-append m a (x ∷ xs) ys (here, h) =
    let rest = Holds-append m (a + 1) xs ys h in
    (
      (here, rest.0),
      (let e : a + suc (length xs) ≡ a + 1 + length xs = omega arith in rw e (rest.1)),
    )

pub Holds-word : (m : Mem) (a v : ℕ) → v < 2 ^ 32 → Holds m a (word v) → read32 m a ≡ v
unfolding read32
Holds-word m a v h (b0, (b1, (b2, (b3, _)))) =
    let e2 : a + 1 + 1 ≡ a + 2 = omega arith in
    let e3 : a + 1 + 1 + 1 ≡ a + 3 = omega arith in
    ground (
      arith,
      b0,
      b1,
      subst (λ z. m z ≡ v / 65536 % 256) e2 b2,
      subst (λ z. m z ≡ v / 16777216 % 256) e3 b3,
    )

-- A name with zero bytes behind it.
Holds-Text :
    (m : Mem) (a n : ℕ) (xs : List ℕ)
    → IsName xs
    → Holds m a (xs ++ replicate (suc n) 0)
    → Text m a xs
Holds-Text m a n [] name h = h.0
Holds-Text m a n (x ∷ xs) name h = (h.0, name.0, name.1, Holds-Text m (a + 1) n xs name.2 h.1)

length-replicate : (n : ℕ) → length {A = ℕ} (replicate n 0) ≡ n
length-replicate zero = refl
length-replicate (suc n) = ap suc (length-replicate n)

-- The headers that the second loop writes.
node_block :
    (m : Mem) (h : ℕ) (e : Entry) (rest : List ℕ)
    → IsName e.name
    → length e.name < max_name_len
    → e.offset < 2 ^ 32
    → e.size < 2 ^ 32
    → Holds m h (
        (171 ∷ e.name ++ replicate (max_file_name_len - length e.name) 0)
        ++ (word e.offset ++ (word e.size ++ rest)))
    → Headers m h (e ∷ []) × Holds m (h + header_bytes) rest
node_block m h e rest name short fits size held =
    let block : List ℕ = 171 ∷ e.name ++ replicate (max_file_name_len - length e.name) 0 in
    let count : length block ≡ 65 = ground (
      arith,
      length-append e.name (replicate (max_file_name_len - length e.name) 0),
      length-replicate (max_file_name_len - length e.name),
    ) in
    let (first, later) : Holds m h block
        × Holds m (h + length block) (word e.offset ++ (word e.size ++ rest)) =
      Holds-append m h block (word e.offset ++ (word e.size ++ rest)) held in
    let (offset_word, later') =
      Holds-append m (h + 65) (word e.offset) (word e.size ++ rest)
        (subst (λ n. Holds m (h + n) (word e.offset ++ (word e.size ++ rest))) count later) in
    let (size_word, after) = Holds-append m (h + 65 + 4) (word e.size) rest later' in
    let pad : max_file_name_len - length e.name ≡ suc (63 - length e.name) = omega (arith, short) in
    let at : h + 65 + 4 ≡ h + 69 = omega arith in
    let end : h + 65 + 4 + 4 ≡ h + header_bytes = omega arith in
    (
      (
        Holds-Text m (h + 1) (63 - length e.name) e.name name
            (subst (λ n. Holds m (h + 1) (e.name ++ replicate n 0)) pad first.1),
        short,
        Holds-word m (h + 65) e.offset fits offset_word,
        Holds-word m (h + 69) e.size size (subst (λ a. Holds m a (word e.size)) at size_word),
        tt,
      ),
      subst (λ a. Holds m a rest) end after,
    )

append-four : (a b c d e : List ℕ) → (a ++ (b ++ (c ++ d))) ++ e ≡ a ++ (b ++ (c ++ (d ++ e)))
append-four a b c d e =
    append_assoc a (b ++ (c ++ d)) e
    ∙ ap (λ z. a ++ z) (append_assoc b (c ++ d) e ∙ ap (λ z. b ++ z) (append_assoc c d e))

pub write_nodes-Headers :
    (files : List ℕ → Option (List ℕ)) (m : Mem) (h offset : ℕ) (ss : List Supply) (rest : List ℕ)
    → Supplied files ss
    → offset + total ss < 2 ^ 32
    → Holds m h (write_nodes (nodes_of (entries offset ss)) ++ rest)
    → Headers m h (entries offset ss) × Holds m (h + header_bytes * length ss) rest
unfolding write_nodes
write_nodes-Headers files m h offset [] rest s fits held =
    (tt, (let e : h + 73 * 0 ≡ h = omega arith in rw e held))
write_nodes-Headers files m h offset (x ∷ ss) rest s fits held =
    let (head, later) =
      node_block m h (record { name = file_name x.path; offset = offset; size = length x.content })
        (write_nodes (nodes_of (entries (offset + length x.content) ss)) ++ rest) s.2 s.1
        (omega (arith, fits)) (omega (arith, fits))
        (subst (λ z. Holds m h z)
          (append-four
            (171 ∷ file_name x.path ++ replicate (max_file_name_len - length (file_name x.path)) 0)
            (word offset) (word (length x.content))
            (write_nodes (nodes_of (entries (offset + length x.content) ss))) rest)
          held) in
    let (headers, after) =
      write_nodes-Headers files m (h + header_bytes) (offset + length x.content) ss rest s.4
        (omega (arith, fits)) later in
    (
      (head.0, head.1, head.2, head.3, headers),
      (let e : h + 73 * suc (length ss) ≡ h + 73 + 73 * length ss = omega arith in rw e after),
    )
