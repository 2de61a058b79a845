-- ===== src/Initrd/Names.antt =====
-- Copying a name.
use experimental_kernel.Common.{
  ℕ, suc, ◌+◌, ◌-◌, ◌^◌, ◌≤◌, ◌<◌, ◌≡◌, refl, sym, ◌∙◌, ◌≢◌, ◌⊎◌, inl, inr, false, some, List, [],
  ◌∷◌, arith, ltb, ◌==◌, ==→eq, ==→ne, Bool-cases, length,
}
use experimental_kernel.Memory.{Mem, store, write32}
use experimental_kernel.Cstring.{strncpy}
use experimental_kernel.Cstring.Text.{Text}
use experimental_kernel.Cstring.Scan.{strlen-length}
use experimental_kernel.Cstring.Copy.{strncpy-within}
use experimental_kernel.Initrd.{copy_name, max_name_len}

abbrev pub IsBytes : Mem → Type 0
IsBytes m = (a : ℕ) → m a < 256

-- The same text at another place.
pub Text-moved :
    (m g : Mem) (p q : ℕ) (xs : List ℕ)
    → ((k : ℕ) → k ≤ length xs → g (q + k) ≡ m (p + k))
    → Text m p xs
    → Text g q xs
Text-moved m g p q [] same t = ground (arith, same 0)
Text-moved m g p q (x ∷ xs) same t = (
  ground (arith, same 0, t),
  t.1,
  t.2,
  Text-moved m g (p + 1) (q + 1) xs
      (λ k le.
        (let e : p + 1 + k ≡ p + (k + 1) = omega arith in
          let f : q + 1 + k ≡ q + (k + 1) = omega arith in rw (e, f) (same (k + 1) (omega arith))))
      t.3,
)

pub Text-nonzero :
    (m : Mem) (p a : ℕ) (xs : List ℕ) → Text m p xs → p ≤ a → a < p + length xs → m a ≢ 0
Text-nonzero m p a [] t lo hi = absurd (omega arith)
Text-nonzero m p a (x ∷ xs) t lo hi = elim (Bool-cases (p == a)) [
  | inl here ↦ rw (← ==→eq p a here) (omega (arith, t.0, t.1))
  | inr later ↦ Text-nonzero m (p + 1) a xs t.3 (omega (arith, ==→ne p a later)) (omega arith)
]

pub Text-end : (m : Mem) (p : ℕ) (xs : List ℕ) → Text m p xs → m (p + length xs) ≡ 0
Text-end m p [] t = (let e : p + 0 ≡ p = omega arith in rw e t)
Text-end m p (x ∷ xs) t =
    let e : p + suc (length xs) ≡ p + 1 + length xs = omega arith in
    rw e (Text-end m (p + 1) xs t.3)

-- What a copy of the text `xs` from `src` to `dest` leaves.
pub record Copies (dest src : ℕ) (xs : List ℕ) (m m' : Mem) : Type 0 where
  pub copied : (k : ℕ) → k < length xs → m' (dest + k) ≡ m (src + k)
  pub ended : m' (dest + length xs) ≡ 0
  pub others : (a : ℕ) → (a < dest) ⊎ (dest + length xs < a) → m' a ≡ m a
  pub bytes : IsBytes m'

-- strncpy of a text from the start of a longer one.
pub strncpy-Copies :
    (dest src num : ℕ) (xs : List ℕ) (m : Mem)
    → IsBytes m
    → num ≡ length xs
    → num < 2 ^ 31
    → ((a : ℕ) → src ≤ a → a < src + length xs → m a ≢ 0)
    → dest + length xs + 1 < 2 ^ 32
    → src + length xs + 1 < 2 ^ 32
    → (dest ≤ src) ⊎ (src + length xs + 1 ≤ dest)
    → Copies dest src xs m (strncpy dest src num m)
strncpy-Copies dest src num xs m bytes same small full hd hs apart =
    let at =
      strncpy-within num (length xs) dest src m bytes small (omega (arith, same)) full
        (inl (sym same)) hd hs apart in
    record {
      copied = λ k lt. at (dest + k) ∙ ground arith;
      ended = at (dest + length xs) ∙ ground arith;
      others = λ a out. at a ∙ ground arith;
      bytes = λ a. (rw (at a) (ground (arith, bytes a, bytes (src + (a - dest)))));
    }

pub Copies-Text :
    (dest src : ℕ) (xs : List ℕ) (m m' : Mem)
    → Copies dest src xs m m'
    → Text m src xs
    → Text m' dest xs
Copies-Text dest src xs m m' c t = Text-moved m m' src dest xs same t
  where
    same : (k : ℕ) → k ≤ length xs → m' (dest + k) ≡ m (src + k)
    same k le = elim (Bool-cases (k == length xs)) [
      | inl end ↦
          let e : k ≡ length xs = ==→eq _ _ end in rw e (c.ended ∙ sym (Text-end m src xs t))
      | inr before ↦ c.copied k (omega (arith, ==→ne _ _ before))
    ]

-- A name that fits is copied whole.
pub copy_name-Copies :
    (fuel dest src : ℕ) (xs : List ℕ) (m : Mem)
    → IsBytes m
    → Text m src xs
    → length xs < max_name_len
    → length xs < fuel
    → dest + length xs + 1 < 2 ^ 32
    → src + length xs + 1 < 2 ^ 32
    → (dest ≤ src) ⊎ (src + length xs + 1 ≤ dest)
    → (m' : Mem) × (copy_name fuel dest src m ≡ some m') × Copies dest src xs m m'
unfolding copy_name
copy_name-Copies fuel dest src xs m bytes t fits more hd hs apart =
    let short : ltb max_name_len (length xs) ≡ false = ground arith in
    (
      strncpy dest src (length xs) m,
      rw (copy_name, strlen-length fuel m src xs t (omega arith) more, short) refl,
      strncpy-Copies dest src (length xs) xs m bytes refl (omega arith)
          (λ a lo hi. Text-nonzero m src a xs t lo hi) hd hs apart,
    )

pub write32-IsBytes : (m : Mem) (a v : ℕ) → IsBytes m → IsBytes (write32 m a v)
unfolding write32 store
write32-IsBytes m a v bytes x = ground (arith, bytes x)
