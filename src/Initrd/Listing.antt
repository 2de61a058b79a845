-- ===== src/Initrd/Listing.antt =====
-- `readdir` of the root, entry by entry.
use experimental_kernel.Common.{
  ℕ, zero, suc, ◌+◌, ◌^◌, ◌≤◌, ◌<◌, ◌≡◌, refl, sym, ap, ◌∙◌, ◌⊎◌, inl, inr, true, false, Option,
  none, some, List, [], ◌∷◌, arith, ltb, ◌==◌, lt→ltb, ==→eq, eq→==, Bool-cases, Option-cases, ◌-ʷ◌,
  length, get_elem?,
}
use mathlib.Core.Path.{subst}
use mathlib.Core.Option.{some-injective}
use experimental_kernel.Memory.{Mem, store}
use experimental_kernel.Cstring.{strlen, strncpy}
use experimental_kernel.Cstring.Text.{Text, Text-frame}
use experimental_kernel.Cstring.Scan.{strlen-length}
use experimental_kernel.Array.{at}
use experimental_kernel.Initrd.{
  InitrdFs, FileNode, Places, Listed, no_entry, entry, readdir, max_name_len,
}
use experimental_kernel.Initrd.Names.{IsBytes, Copies, Copies-Text, strncpy-Copies, Text-nonzero}
use experimental_kernel.Initrd.Entries.{Entry, slot, child_of, Children}
use experimental_kernel.Initrd.Files.{dev_name}

abbrev pub listed : ℕ → Option Entry → Option (List ℕ × ℕ)
listed k none = none
listed k (some e) = some (e.name, k + 1)

-- dev, and then the files in their order.
abbrev pub listing : List Entry → ℕ → Option (List ℕ × ℕ)
listing es zero = some (dev_name, 0)
listing es (suc k) = listed k (get_elem? es k)

-- The result of `readdir` and the entry that it stands for.
abbrev pub Lists : ℕ → Mem → Option (Mem × Listed) → Option (List ℕ × ℕ) → Type 0
Lists dirent m r none = r ≡ some (m, no_entry)
Lists dirent m r (some (name, inode)) =
    (m' : Mem) × (r ≡ some (m', entry inode))
    × Text m' dirent name
    × IsBytes m'
    × ((a : ℕ) → (a < dirent) ⊎ (dirent + max_name_len ≤ a) → m' a ≡ m a)

abbrev pub ShortNames : List Entry → Type 0
ShortNames [] = Unit
ShortNames (e ∷ es) = (length e.name < max_name_len) × ShortNames es

-- The child of an entry.
record Child (m : Mem) (cells : ℕ → FileNode) (p : Places) (k n : ℕ) (e : Entry) : Type 0 where
  inside : k < n
  short : length e.name < max_name_len
  node : cells k ≡ child_of p k e
  name : Text m (slot p k) e.name

Children-Child :
    (m : Mem) (cells : ℕ → FileNode) (p : Places) (i k : ℕ) (es : List Entry) (e : Entry)
    → Children m cells p i es
    → ShortNames es
    → get_elem? es k ≡ some e
    → Child m cells p (i + k) (i + length es) e
Children-Child m cells p i k [] e c short eq = absurd (ground (arith, eq))
Children-Child m cells p i zero (x ∷ es) e c short eq =
    let at : i + 0 ≡ i = omega arith in
    rw at (
      subst (λ z. Child m cells p i (i + length (x ∷ es)) z) (some-injective x e eq)
        (record { inside = omega arith; short = short.0; node = c.0; name = c.1 }))
Children-Child m cells p i (suc k) (x ∷ es) e c short eq =
    let rest = Children-Child m cells p (i + 1) k es e c.2 short.1 eq in
    let a : i + suc k ≡ i + 1 + k = omega arith in
    let b : i + length (x ∷ es) ≡ i + 1 + length es = omega arith in rw (a, b) rest

store_zero : (m : Mem) (a x : ℕ) → m a ≡ 0 → store m a 0 x ≡ m x
unfolding store
store_zero m a x e = elim (Bool-cases (x == a)) [
  | inl here ↦ rw here (ground (arith, e, ap m (==→eq _ _ here)))
  | inr other ↦ rw other refl
]

-- A copied name with a terminator written behind it once more.
copied_name :
    (dirent src : ℕ) (xs : List ℕ) (m : Mem)
    → IsBytes m
    → Text m src xs
    → length xs < max_name_len
    → dirent + max_name_len < 2 ^ 32
    → src + max_name_len < 2 ^ 32
    → (dirent + max_name_len ≤ src) ⊎ (src + max_name_len ≤ dirent)
    → (let m' = strncpy dirent src (length xs) m in
        Text m' src xs
        × Text (store m' (dirent + length xs) 0) dirent xs
        × IsBytes (store m' (dirent + length xs) 0)
        × ((a : ℕ)
            → (a < dirent) ⊎ (dirent + max_name_len ≤ a)
            → store m' (dirent + length xs) 0 a ≡ m a))
copied_name dirent src xs m bytes t short hd hs apart =
    let m' = strncpy dirent src (length xs) m in
    let c : Copies dirent src xs m m' =
      strncpy-Copies dirent src (length xs) xs m bytes refl (omega (arith, short))
        (λ a lo hi. Text-nonzero m src a xs t lo hi) (omega (arith, short, hd))
        (omega (arith, short, hs)) (omega (arith, short, apart)) in
    (
      Text-frame m m' src xs (λ a lo hi. c.others a (omega (arith, short, apart))) t,
      Text-frame m' (store m' (dirent + length xs) 0) dirent xs
          (λ a lo hi. store_zero m' (dirent + length xs) a c.ended)
          (Copies-Text dirent src xs m m' c t),
      λ a. (rw (store_zero m' (dirent + length xs) a c.ended) (c.bytes a)),
      λ a out.
          store_zero m' (dirent + length xs) a c.ended ∙ c.others a (omega (arith, short, out)),
    )

readdir_dev :
    (fuel dirent : ℕ) (fs : InitrdFs) (m : Mem)
    → readdir fuel fs fs.places.root 0 dirent m
      ≡ some (store (strncpy dirent fs.places.dev_text 3 m) (dirent + 3) 0, entry 0)
unfolding readdir
readdir_dev fuel dirent fs m =
    let self : (fs.places.root == fs.places.root) ≡ true = eq→== _ _ refl in rw (readdir, self) refl

readdir_child :
    (fuel k dirent len : ℕ) (fs : InitrdFs) (f : FileNode) (m : Mem)
    → k < fs.children.size
    → k + 1 < 2 ^ 32
    → fs.children.cells k ≡ f
    → strlen fuel m f.name ≡ some len
    → strlen fuel (strncpy dirent f.name len m) f.name ≡ some len
    → readdir fuel fs fs.places.root (suc k) dirent m
      ≡ some (store (strncpy dirent f.name len m) (dirent + len) 0, entry f.inode)
unfolding readdir at
readdir_child fuel k dirent len fs f m inside small e1 e2 e3 =
    let self : (fs.places.root == fs.places.root) ≡ true = eq→== _ _ refl in
    let first : (suc k == 0) ≡ false = ground arith in
    let past : ltb fs.children.size (suc k) ≡ false = ground arith in
    let index : suc k -ʷ 1 ≡ k = omega arith in
    let within : ltb k fs.children.size ≡ true = lt→ltb _ _ inside in
    rw (readdir, self, first, past, index, within, e1, e2, e1, e3)
      (ap (λ g. some (store (strncpy dirent g.name len m) (dirent + len) 0, entry g.inode)) e1)

pub readdir_past :
    (fuel index dirent : ℕ) (fs : InitrdFs) (m : Mem)
    → fs.children.size < index
    → readdir fuel fs fs.places.root index dirent m ≡ some (m, no_entry)
unfolding readdir
readdir_past fuel index dirent fs m past =
    let first : (index == 0) ≡ false = ground arith in
    let out : ltb fs.children.size index ≡ true = lt→ltb _ _ past in ground (arith, first, out)

get_elem?-past : (es : List Entry) (k : ℕ) → get_elem? es k ≡ none → length es ≤ k
get_elem?-past [] k e = omega arith
get_elem?-past (x ∷ es) zero e = absurd (ground (arith, e))
get_elem?-past (x ∷ es) (suc k) e = omega (arith, get_elem?-past es k e)

-- `readdir` of the root gives dev at index 0, then each file in its order, with its name in the entry
-- and its number, and null behind the last. It writes nothing but the entry. Names are shorter than 64
-- bytes, there is fuel for them, and the entry does not meet the nodes or the text "dev".
pub readdir-Lists :
    (fuel index dirent : ℕ) (es : List Entry) (fs : InitrdFs) (m : Mem)
    → IsBytes m
    → Children m fs.children.cells fs.places 0 es
    → fs.children.size ≡ length es
    → ShortNames es
    → Text m fs.places.dev_text dev_name
    → 64 ≤ fuel
    → index < 2 ^ 32
    → dirent + max_name_len < 2 ^ 32
    → slot fs.places (length es) < 2 ^ 32
    → fs.places.dev_text + max_name_len < 2 ^ 32
    → (dirent + max_name_len ≤ slot fs.places 0) ⊎ (slot fs.places (length es) ≤ dirent)
    → (dirent + max_name_len ≤ fs.places.dev_text) ⊎ (fs.places.dev_text + max_name_len ≤ dirent)
    → Lists dirent m (readdir fuel fs fs.places.root index dirent m) (listing es index)
readdir-Lists fuel zero dirent es fs m bytes c size short text_d more small hd hs hp apart apart_d =
    let (_, text, bytes', others) =
      copied_name dirent fs.places.dev_text dev_name m bytes text_d (omega arith) hd hp apart_d in
    (_, readdir_dev fuel dirent fs m, text, bytes', others)
readdir-Lists fuel (suc k) dirent es fs m bytes c size short text_d more small hd hs hp apart
      apart_d =
    elim (Option-cases (get_elem? es k)) [
      | inl past ↦
          subst (λ o. Lists dirent m (readdir fuel fs fs.places.root (suc k) dirent m) (listed k o))
            (sym past)
            (readdir_past fuel (suc k) dirent fs m (omega (arith, size, get_elem?-past es k past)))
      | inr (e, there) ↦
          subst (λ o. Lists dirent m (readdir fuel fs fs.places.root (suc k) dirent m) (listed k o))
            (sym there) (given e there)
    ]
  where
    given :
        (e : Entry)
        → get_elem? es k ≡ some e
        → Lists dirent m (readdir fuel fs fs.places.root (suc k) dirent m) (some (e.name, k + 1))
    given e there =
        let here : 0 + k ≡ k = omega arith in
        let n : 0 + length es ≡ length es = omega arith in
        let ch =
          subst (λ j. Child m fs.children.cells fs.places j (0 + length es) e) here
            (Children-Child m fs.children.cells fs.places 0 k es e c short there) in
        let (kept, text, bytes', others) =
          copied_name dirent (slot fs.places k) e.name m bytes ch.name ch.short hd
            (omega (arith, ch.inside, hs)) (omega (arith, ch.inside, apart)) in
        (
          _,
          readdir_child fuel k dirent (length e.name) fs (child_of fs.places k e) m
              (omega (arith, ch.inside, size)) (omega (arith, small)) ch.node
              (strlen-length fuel m (slot fs.places k) e.name ch.name
                (omega (arith, ch.inside, ch.short, hs)) (omega (arith, ch.short, more)))
              (strlen-length fuel _ (slot fs.places k) e.name kept
                (omega (arith, ch.inside, ch.short, hs)) (omega (arith, ch.short, more))),
          text,
          bytes',
          others,
        )
