-- ===== src/Initrd/Lookup.antt =====
-- `finddir` and `read` of the mounted image.
use experimental_kernel.Common.{
  ℕ, zero, suc, ◌+◌, ◌^◌, ◌≤◌, ◌<◌, ◌≡◌, refl, sym, ap, ◌∙◌, ◌↔◌, inl, inr, Bool, true, false, ◌&&◌,
  Option, none, some, List, [], ◌∷◌, arith, ◌==◌, if◌then◌else◌, ==→eq, eq→==, Bool-cases,
  Option-cases, ◌+ʷ◌, length,
}
use mathlib.Core.Bool.{true≢false}
use experimental_kernel.Memory.{Mem}
use experimental_kernel.Cstring.{strlen, strncmp}
use experimental_kernel.Cstring.Text.{Text}
use experimental_kernel.Cstring.Scan.{strlen-length}
use experimental_kernel.Cstring.Compare.{strncmp-agree_iff}
use experimental_kernel.Array.{Array}
use experimental_kernel.Initrd.{
  Places, InitrdFs, FileNode, Found, nothing, dev_node, child, find_child, finddir,
}
use experimental_kernel.Initrd.Entries.{Entry, slot, child_of, Children}
use experimental_kernel.Initrd.Files.{dev_name}

abbrev pub same_text : List ℕ → List ℕ → Bool
same_text [] [] = true
same_text [] (y ∷ ys) = false
same_text (x ∷ xs) [] = false
same_text (x ∷ xs) (y ∷ ys) = (x == y) && same_text xs ys

-- Texts that agree up to the terminator of the first are the same.
agree-same_text :
    (m : Mem) (p q : ℕ) (xs ys : List ℕ)
    → Text m p xs
    → Text m q ys
    → ((k : ℕ) → k ≤ length xs → m (p + k) ≡ m (q + k))
    → same_text xs ys ≡ true
agree-same_text m p q [] [] t u same = refl
agree-same_text m p q [] (y ∷ ys) t u same = absurd (ground (arith, t, u.0, u.1, same 0))
agree-same_text m p q (x ∷ xs) [] t u same = absurd (ground (arith, t.0, t.1, u, same 0))
agree-same_text m p q (x ∷ xs) (y ∷ ys) t u same =
    let rest : same_text xs ys ≡ true = agree-same_text m (p + 1) (q + 1) xs ys t.3 u.3 (λ k le.
      (let e : p + 1 + k ≡ p + (k + 1) = omega arith in
        let f : q + 1 + k ≡ q + (k + 1) = omega arith in rw (e, f) (same (k + 1) (omega arith)))) in
    let head : (x == y) ≡ true = eq→== _ _ (ground (arith, t.0, u.0, same 0)) in
    rw (head, rest) refl

same_text-agree :
    (m : Mem) (p q : ℕ) (xs ys : List ℕ)
    → Text m p xs
    → Text m q ys
    → same_text xs ys ≡ true
    → (k : ℕ) → k ≤ length xs
    → m (p + k) ≡ m (q + k)
same_text-agree m p q [] [] t u e k le =
    let z : k ≡ 0 = omega arith in
    let a : p + 0 ≡ p = omega arith in let b : q + 0 ≡ q = omega arith in rw (z, a, b) (t ∙ sym u)
same_text-agree m p q [] (y ∷ ys) t u e k le = absurd (ground (arith, e))
same_text-agree m p q (x ∷ xs) [] t u e k le = absurd (ground (arith, e))
same_text-agree m p q (x ∷ xs) (y ∷ ys) t u e zero le =
    let a : p + 0 ≡ p = omega arith in
    let b : q + 0 ≡ q = omega arith in rw (a, b) (t.0 ∙ ==→eq x y (ground (arith, e)) ∙ sym u.0)
same_text-agree m p q (x ∷ xs) (y ∷ ys) t u e (suc k) le =
    let a : p + suc k ≡ p + 1 + k = omega arith in
    let b : q + suc k ≡ q + 1 + k = omega arith in
    rw (a, b) (same_text-agree m (p + 1) (q + 1) xs ys t.3 u.3 (ground (arith, e)) k (omega arith))

same_text_comm : (xs ys : List ℕ) → same_text xs ys ≡ same_text ys xs
same_text_comm [] [] = refl
same_text_comm [] (y ∷ ys) = refl
same_text_comm (x ∷ xs) [] = refl
same_text_comm (x ∷ xs) (y ∷ ys) = ground (arith, same_text_comm xs ys)

-- A test for agreement up to the terminator of the first text compares the whole texts.
test-same_text :
    (m : Mem) (p q r : ℕ) (xs ys : List ℕ)
    → Text m p xs
    → Text m q ys
    → (r ≡ 0) ↔ ((k : ℕ) → k ≤ length xs → m (p + k) ≡ m (q + k))
    → (r == 0) ≡ same_text xs ys
test-same_text m p q r xs ys t u iff = elim (Bool-cases (same_text xs ys)) [
  | inl all_same ↦ eq→== _ _ (iff.1 (same_text-agree m p q xs ys t u all_same)) ∙ sym all_same
  | inr unlike ↦ elim (Bool-cases (r == 0)) [
    | inl e ↦
        absurd (true≢false (sym (agree-same_text m p q xs ys t u (iff.0 (==→eq _ _ e))) ∙ unlike))
    | inr ne ↦ ne ∙ sym unlike
  ]
]

strncmp-agree :
    (m : Mem) (p q n : ℕ)
    → ((a : ℕ) → m a < 256)
    → p + n + 1 < 2 ^ 32
    → q + n < 2 ^ 32
    → (strncmp m p q n ≡ 0) ↔ ((k : ℕ) → k ≤ n → m (p + k) ≡ m (q + k))
strncmp-agree m p q n bytes hp hq =
    let iff = strncmp-agree_iff m bytes p q n (omega (arith, hp)) in
    let at : (a k : ℕ) → a + n < 2 ^ 32 → k ≤ n → a +ʷ k ≡ a + k = λ a k h le. omega arith in
    (
      λ e k le. ap m (sym (at p k (omega arith) le)) ∙ iff.0 e k le ∙ ap m (at q k hq le),
      λ same.
          iff.1 (λ k le. ap m (at p k (omega arith) le) ∙ same k le ∙ ap m (sym (at q k hq le))),
    )

-- strncmp with the length of the first text, or of the second one, compares the whole texts.
strncmp-same_text :
    (m : Mem) (p q : ℕ) (xs ys : List ℕ)
    → ((a : ℕ) → m a < 256)
    → Text m p xs
    → Text m q ys
    → p + length xs + 1 < 2 ^ 32
    → q + length xs < 2 ^ 32
    → (strncmp m p q (length xs) == 0) ≡ same_text xs ys
strncmp-same_text m p q xs ys bytes t u hp hq =
    test-same_text m p q _ xs ys t u (strncmp-agree m p q (length xs) bytes hp hq)

strncmp-same_right :
    (m : Mem) (p q : ℕ) (xs ys : List ℕ)
    → ((a : ℕ) → m a < 256)
    → Text m p xs
    → Text m q ys
    → p + length ys + 1 < 2 ^ 32
    → q + length ys < 2 ^ 32
    → (strncmp m p q (length ys) == 0) ≡ same_text xs ys
strncmp-same_right m p q xs ys bytes t u hp hq =
    let iff = strncmp-agree m p q (length ys) bytes hp hq in
    test-same_text m q p _ ys xs u t
      (λ e k le. sym (iff.0 e k le), λ same. iff.1 (λ k le. sym (same k le)))
    ∙ same_text_comm ys xs

-- The first child, from number `i` on, whose entry has the name.
abbrev pub find_entry : Places → ℕ → List ℕ → List Entry → Found
find_entry p i name [] = nothing
find_entry p i name (e ∷ es) =
    let rest = find_entry p (i + 1) name es in
    if same_text name e.name then child (child_of p i e) else rest

found_child : Option FileNode → Found
found_child none = nothing
found_child (some f) = child f

find_child-find_entry :
    (p : Places) (i : ℕ) (name : ℕ) (xs : List ℕ) (es : List Entry) (children : Array FileNode)
    (m : Mem)
    → ((a : ℕ) → m a < 256)
    → Text m name xs
    → name + length xs + 1 < 2 ^ 32
    → Children m children.cells p i es
    → slot p (i + length es) + length xs < 2 ^ 32
    → found_child (find_child (length es) i (length xs) children name m) ≡ find_entry p i xs es
unfolding find_child found_child
find_child-find_entry p i name xs [] children m bytes t fits c room = refl
find_child-find_entry p i name xs (e ∷ es) children m bytes t fits c room =
    let at : children.cells i ≡ child_of p i e = c.0 in
    let test : (strncmp m name (slot p i) (length xs) == 0) ≡ same_text xs e.name =
      strncmp-same_text m name (slot p i) xs e.name bytes t c.1 fits (omega (arith, room)) in
    let rest =
      find_child-find_entry p (i + 1) name xs es children m bytes t fits c.2
        (omega (arith, room)) in
    elim (Bool-cases (same_text xs e.name)) [
      | inl all_same ↦ rw (find_child, at, test, all_same) refl
      | inr unlike ↦ rw (find_child, at, test, unlike) rest
    ]

finddir_lem :
    (fuel : ℕ) (fs : InitrdFs) (node name : ℕ) (m : Mem) (len n : ℕ) (dev : Bool) (found : Found)
    → strlen fuel m name ≡ some len
    → (strncmp m name fs.places.dev_text 3 == 0) ≡ dev
    → fs.children.size ≡ n
    → found_child (find_child n 0 len fs.children name m) ≡ found
    → finddir fuel fs node name m ≡ some (if node == fs.places.root && dev then dev_node else found)
unfolding finddir found_child
finddir_lem fuel fs node name m len n dev found e1 e2 e3 e4 =
    ground (arith, e1, e2, e3, e4, Option-cases (find_child n 0 len fs.children name m))

-- `finddir` over the children of these entries gives the node of dev for the name "dev" in the root,
-- and else the first child whose whole name is the one asked for, or nothing when no child has it.
-- There is fuel for the name, and no text ends behind the address space.
pub finddir-find_entry :
    (fuel node name : ℕ) (xs : List ℕ) (es : List Entry) (fs : InitrdFs) (m : Mem)
    → ((a : ℕ) → m a < 256)
    → Text m name xs
    → name + length xs + 4 < 2 ^ 32
    → length xs < fuel
    → Children m fs.children.cells fs.places 0 es
    → fs.children.size ≡ length es
    → slot fs.places (length es) + length xs < 2 ^ 32
    → Text m fs.places.dev_text dev_name
    → fs.places.dev_text + 4 < 2 ^ 32
    → finddir fuel fs node name m
      ≡ some (
          if node == fs.places.root && same_text xs dev_name
          then dev_node
          else find_entry fs.places 0 xs es)
finddir-find_entry fuel node name xs es fs m bytes t fits more c size room text_d d =
    let len : strlen fuel m name ≡ some (length xs) =
      strlen-length fuel m name xs t (omega (arith, fits)) more in
    let dev : (strncmp m name fs.places.dev_text 3 == 0) ≡ same_text xs dev_name =
      strncmp-same_right m name fs.places.dev_text xs dev_name bytes t text_d (omega (arith, fits))
        (omega (arith, d)) in
    let rest =
      find_child-find_entry fs.places 0 name xs es fs.children m bytes t (omega (arith, fits)) c
        (omega (arith, room)) in
    finddir_lem fuel fs node name m (length xs) (length es) _ _ len dev size rest
