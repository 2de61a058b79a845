-- ===== src/Initrd/Show.antt =====
-- The files of the initrd, as the kernel shows them.
use experimental_kernel.Common.{
  ℕ, zero, suc, ◌+◌, ◌*◌, ◌^◌, ◌≤◌, ◌<◌, ◌≡◌, refl, ap, ◌⊎◌, true, false, some, List, [], ◌∷◌,
  arith, ◌==◌, eq→==, length, get_elem?,
}
use mathlib.Core.Path.{subst}
use mathlib.Core.Option.{some-injective}
use experimental_kernel.Memory.{Mem}
use experimental_kernel.Cstring.Text.{Text, Text-frame}
use experimental_kernel.Initrd.{FileNode, InitrdFs, Places, child, header_bytes, max_name_len}
use experimental_kernel.Initrd.Names.{IsBytes}
use experimental_kernel.Initrd.Entries.{
  Entry, Headers, Headers-frame, moved, slot, child_of, Children,
}
use experimental_kernel.Initrd.Files.{dev_name, Apart}
use experimental_kernel.Initrd.Lookup.{same_text, find_entry}
use experimental_kernel.Initrd.Image.{file_name}
use experimental_kernel.Initrd.Packed.{
  Supply, IsName, total, entries, contents_of, Holds, length-entries,
}
use experimental_kernel.Initrd.Stored.{Holds-frame, length-moved, length-contents_of}
use experimental_kernel.Initrd.Listing.{ShortNames}
use experimental_kernel.Initrd.Vfs.{bytes_at}

-- The name differs from those of these files.
abbrev pub AllDiffer : List ℕ → List Supply → Type 0
AllDiffer xs [] = Unit
AllDiffer xs (s ∷ ss) = (same_text (file_name s.path) xs ≡ false) × AllDiffer xs ss

-- No two files have the same name, and each has contents without zero bytes.
abbrev pub Distinct : List Supply → Type 0
Distinct [] = Unit
Distinct (s ∷ ss) = AllDiffer (file_name s.path) ss × IsName s.content × Distinct ss

pub AllDiffer-get_elem? :
    (xs : List ℕ) (k : ℕ) (ss : List Supply) (s : Supply)
    → AllDiffer xs ss
    → get_elem? ss k ≡ some s
    → same_text (file_name s.path) xs ≡ false
AllDiffer-get_elem? xs k [] s d eq = absurd (ground (arith, eq))
AllDiffer-get_elem? xs zero (x ∷ ss) s d eq =
    subst (λ z. same_text (file_name z.path) xs ≡ false) (some-injective x s eq) d.0
AllDiffer-get_elem? xs (suc k) (x ∷ ss) s d eq = AllDiffer-get_elem? xs k ss s d.1 eq

pub Distinct-get_elem? :
    (k : ℕ) (ss : List Supply) (s : Supply)
    → Distinct ss
    → get_elem? ss k ≡ some s
    → IsName s.content
Distinct-get_elem? k [] s d eq = absurd (ground (arith, eq))
Distinct-get_elem? zero (x ∷ ss) s d eq = subst (λ z. IsName z.content) (some-injective x s eq) d.1
Distinct-get_elem? (suc k) (x ∷ ss) s d eq = Distinct-get_elem? k ss s d.2 eq

same_text_self : (xs : List ℕ) → same_text xs xs ≡ true
same_text_self [] = refl
same_text_self (x ∷ xs) =
    let self : (x == x) ≡ true = eq→== _ _ refl in rw (self, same_text_self xs) refl

pub entries-get_elem? :
    (offset k : ℕ) (ss : List Supply) (s : Supply)
    → get_elem? ss k ≡ some s
    → (e : Entry) × (get_elem? (entries offset ss) k ≡ some e) × (e.name ≡ file_name s.path)
entries-get_elem? offset k [] s eq = absurd (ground (arith, eq))
entries-get_elem? offset zero (x ∷ ss) s eq =
    (_, refl, ap (λ (z : Supply). file_name z.path) (some-injective x s eq))
entries-get_elem? offset (suc k) (x ∷ ss) s eq =
    entries-get_elem? (offset + length x.content) k ss s eq

-- A file is found under its name.
pub find_entry-Distinct :
    (p : Places) (i offset k : ℕ) (ss : List Supply) (s : Supply) (e : Entry)
    → Distinct ss
    → get_elem? ss k ≡ some s
    → get_elem? (entries offset ss) k ≡ some e
    → find_entry p i (file_name s.path) (entries offset ss) ≡ child (child_of p (i + k) e)
find_entry-Distinct p i offset k [] s e d eq eq' = absurd (ground (arith, eq))
find_entry-Distinct p i offset zero (x ∷ ss) s e d eq eq' =
    let at : i + 0 ≡ i = omega arith in
    let self : same_text (file_name s.path) (file_name x.path) ≡ true =
      subst (λ z. same_text (file_name z.path) (file_name x.path) ≡ true) (some-injective x s eq)
        (same_text_self (file_name x.path)) in
    rw (at, self) (ap (λ z. child (child_of p i z)) (some-injective _ e eq'))
find_entry-Distinct p i offset (suc k) (x ∷ ss) s e d eq eq' =
    let at : i + suc k ≡ i + 1 + k = omega arith in
    let other : same_text (file_name s.path) (file_name x.path) ≡ false =
      AllDiffer-get_elem? (file_name x.path) k ss s d.0 eq in
    rw (at, other) (find_entry-Distinct p (i + 1) (offset + length x.content) k ss s e d.2 eq eq')

Children-frame :
    (m g : Mem) (cells : ℕ → FileNode) (p : Places) (i : ℕ) (es : List Entry)
    → ((a : ℕ) → slot p i ≤ a → a < slot p (i + length es) → g a ≡ m a)
    → ShortNames es
    → Children m cells p i es
    → Children g cells p i es
Children-frame m g cells p i [] same short c = tt
Children-frame m g cells p i (e ∷ es) same short c = (
  c.0,
  Text-frame m g (slot p i) e.name (λ a lo hi. same a (omega arith) (omega (arith, short.0))) c.1,
  Children-frame m g cells p (i + 1) es (λ a lo hi. same a (omega arith) (omega arith)) short.1 c.2,
)

pub bytes_at-Text : (m : Mem) (a : ℕ) (xs : List ℕ) → Text m a xs → bytes_at m a (length xs) ≡ xs
bytes_at-Text m a [] t = refl
bytes_at-Text m a (x ∷ xs) t = rw (t.0, bytes_at-Text m (a + 1) xs t.3) refl

-- A mounted image in memory.
pub record Ready (fs : InitrdFs) (location offset : ℕ) (ss : List Supply) (m : Mem) : Type 0 where
  pub bytes : IsBytes m
  pub headers : Headers m fs.headers_at (moved location (entries offset ss))
  pub nodes : Children m fs.children.cells fs.places 0 (entries offset ss)
  pub dev : Text m fs.places.dev_text dev_name
  pub held : Holds m (location + offset) (contents_of ss)

-- `n` bytes from `a` are apart from the image, the nodes and the text "dev".
pub record Free (fs : InitrdFs) (location offset : ℕ) (ss : List Supply) (a n : ℕ) : Type 0 where
  pub fits : a + n < 2 ^ 32
  pub headers : Apart a n fs.headers_at (header_bytes * length ss)
  pub nodes : (a + n ≤ slot fs.places 0) ⊎ (slot fs.places (length ss) ≤ a)
  pub dev : Apart a n fs.places.dev_text max_name_len
  pub contents : (a + n ≤ location + offset) ⊎ (location + offset + total ss < a)

-- What stays the same while the files are shown.
pub record Shows (fs : InitrdFs) (location offset dirent buf fuel : ℕ) (ss : List Supply)
    : Type 0 where
  pub size : fs.children.size ≡ length ss
  pub headers_size : fs.headers_size ≡ length ss
  pub distinct : Distinct ss
  pub no_dev : AllDiffer dev_name ss
  pub short : ShortNames (entries offset ss)
  pub fuelled : 64 ≤ fuel
  pub dirent_free : Free fs location offset ss dirent max_name_len
  pub buf_free : Free fs location offset ss buf 257
  pub count_fits : length ss < 2 ^ 31
  pub slots_fit : slot fs.places (length ss) + max_name_len < 2 ^ 32
  pub dirent_fits : dirent + 68 < 2 ^ 32
  pub dev_fits : fs.places.dev_text + max_name_len < 2 ^ 32
  pub contents_fit : location + offset + total ss + 1 < 2 ^ 31

pub Ready-frame :
    (fs : InitrdFs) (location offset a n : ℕ) (ss : List Supply) (m g : Mem)
    → ShortNames (entries offset ss)
    → Free fs location offset ss a n
    → ((x : ℕ) → (x < a) ⊎ (a + n ≤ x) → g x ≡ m x)
    → IsBytes g
    → Ready fs location offset ss m
    → Ready fs location offset ss g
Ready-frame fs location offset a n ss m g short free same bytes r =
    let count = length-entries offset ss in
    record {
      bytes = bytes;
      headers =
          Headers-frame m g fs.headers_at (moved location (entries offset ss))
            (λ x lo hi.
              same x
                (omega (arith, free.headers, count, length-moved location (entries offset ss))))
            r.headers;
      nodes =
          Children-frame m g fs.children.cells fs.places 0 (entries offset ss)
            (λ x lo hi. same x (omega (arith, free.nodes, count))) short r.nodes;
      dev =
          Text-frame m g fs.places.dev_text dev_name (λ x lo hi. same x (omega (arith, free.dev)))
            r.dev;
      held =
          Holds-frame m g (location + offset) (contents_of ss)
            (λ x lo hi. same x (omega (arith, free.contents, length-contents_of ss))) r.held;
    }
