-- ===== src/Initrd/Stored.antt =====
-- Where the files of the image stand in memory.
use experimental_kernel.Common.{
  ℕ, zero, suc, ◌+◌, ◌^◌, ◌≤◌, ◌<◌, ◌≡◌, refl, ap, ◌∙◌, ◌⊎◌, some, List, [], ◌∷◌, arith, length,
  get_elem?, length-append,
}
use mathlib.Core.Path.{subst}
use mathlib.Core.Option.{some-injective}
use experimental_kernel.Memory.{Mem}
use experimental_kernel.Cstring.Text.{Text}
use experimental_kernel.Initrd.{FileNode, Places}
use experimental_kernel.Initrd.Entries.{Entry, moved, AllFit, slot, Children}
use experimental_kernel.Initrd.Files.{Layout, Apart}
use experimental_kernel.Initrd.Contents.{Content, take}
use experimental_kernel.Initrd.Image.{file_name}
use experimental_kernel.Initrd.Packed.{
  Supply, IsName, total, entries, contents_of, base, Holds, Holds-append,
}

-- The image, whole, is apart from where `init` writes.
pub record Placed (p : Places) (location : ℕ) (ss : List Supply) : Type 0 where
  pub layout : Layout p location (length ss)
  pub fits : location + base ss + total ss + 1 < 2 ^ 32
  pub root_image : Apart p.root 7 (location + base ss) (total ss)
  pub dev_image : Apart p.dev 4 (location + base ss) (total ss)
  pub local_image : Apart p.child_node 65 (location + base ss) (total ss)
  pub slots_image :
      (slot p (length ss) ≤ location + base ss) ⊎ (location + base ss + total ss ≤ slot p 0)

pub Holds-frame :
    (m g : Mem) (a : ℕ) (xs : List ℕ)
    → ((x : ℕ) → a ≤ x → x < a + length xs → g x ≡ m x)
    → Holds m a xs
    → Holds g a xs
Holds-frame m g a [] same h = tt
Holds-frame m g a (x ∷ xs) same h = (
  same a (omega arith) (omega arith) ∙ h.0,
  Holds-frame m g (a + 1) xs (λ x lo hi. same x (omega arith) (omega arith)) h.1,
)

pub Holds-Content : (m : Mem) (a : ℕ) (xs : List ℕ) → IsName xs → Holds m a xs → Content m a xs
Holds-Content m a [] n h = tt
Holds-Content m a (x ∷ xs) n h = (h.0, n.0, n.1, Holds-Content m (a + 1) xs n.2 h.1)

pub take_all : (xs : List ℕ) → take (length xs) xs ≡ xs
take_all [] = refl
take_all (x ∷ xs) = ap (λ z. x ∷ z) (take_all xs)

pub length-contents_of : (ss : List Supply) → length (contents_of ss) ≡ total ss
length-contents_of [] = refl
length-contents_of (s ∷ ss) =
    omega (arith, length-append s.content (contents_of ss), length-contents_of ss)

pub entries-AllFit :
    (location offset : ℕ) (ss : List Supply)
    → location + offset + total ss < 2 ^ 32
    → AllFit location (entries offset ss)
entries-AllFit location offset [] h = tt
entries-AllFit location offset (s ∷ ss) h =
    (omega arith, entries-AllFit location (offset + length s.content) ss (omega arith))

-- The entry of a file, and where its bytes are.
pub record Stored (m : Mem) (location offset i : ℕ) (ss : List Supply) (s : Supply) (e : Entry)
    : Type 0 where
  pub found : get_elem? (moved location (entries offset ss)) i ≡ some e
  pub size : e.size ≡ length s.content
  pub start : location + offset ≤ e.offset
  pub end : e.offset + e.size ≤ location + offset + total ss
  pub held : Holds m e.offset s.content

pub entries-Stored :
    (m : Mem) (location offset i : ℕ) (ss : List Supply) (s : Supply)
    → Holds m (location + offset) (contents_of ss)
    → get_elem? ss i ≡ some s
    → (e : Entry) × Stored m location offset i ss s e
entries-Stored m location offset i [] s h eq = absurd (ground (arith, eq))
entries-Stored m location offset zero (x ∷ ss) s h eq =
    let same : x ≡ s = some-injective x s eq in
    let at : location + offset ≡ offset + location = omega arith in
    let size : length x.content ≡ length s.content = ap (λ z. length z.content) same in
    (
      record { name = file_name x.path; offset = offset + location; size = length x.content },
      record {
        found = refl;
        size = size;
        start = omega arith;
        end = omega arith;
        held =
            subst (λ z. Holds m (offset + location) z.content) same
              (subst (λ a. Holds m a x.content) at
                (Holds-append m (location + offset) x.content (contents_of ss) h).0);
      },
    )
entries-Stored m location offset (suc i) (x ∷ ss) s h eq =
    let at : location + offset + length x.content ≡ location + (offset + length x.content) =
      omega arith in
    let (e, st) =
      entries-Stored m location (offset + length x.content) i ss s
        (subst (λ a. Holds m a (contents_of ss)) at
          (Holds-append m (location + offset) x.content (contents_of ss) h).1)
        eq in
    (
      e,
      record {
        found = st.found;
        size = st.size;
        start = omega (arith, st.start);
        end = omega (arith, st.end);
        held = st.held;
      },
    )

pub Children-get_elem? :
    (m : Mem) (cells : ℕ → FileNode) (p : Places) (k offset i : ℕ) (ss : List Supply) (s : Supply)
    → Children m cells p k (entries offset ss)
    → get_elem? ss i ≡ some s
    → ((cells (k + i)).inode ≡ k + i + 1) × Text m ((cells (k + i)).name) (file_name s.path)
Children-get_elem? m cells p k offset i [] s c eq = absurd (ground (arith, eq))
Children-get_elem? m cells p k offset zero (x ∷ ss) s c eq =
    let same : x ≡ s = some-injective x s eq in
    let at : k + 0 ≡ k = omega arith in
    let cell = c.0 in
    rw (at, cell) (refl, subst (λ z. Text m (slot p k) (file_name z.path)) same c.1)
Children-get_elem? m cells p k offset (suc i) (x ∷ ss) s c eq =
    let rest = Children-get_elem? m cells p (k + 1) (offset + length x.content) i ss s c.2 eq in
    let at : k + suc i ≡ k + 1 + i = omega arith in rw at rest

pub length-moved : (location : ℕ) (es : List Entry) → length (moved location es) ≡ length es
length-moved location [] = refl
length-moved location (e ∷ es) = ap suc (length-moved location es)
