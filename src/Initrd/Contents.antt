-- ===== src/Initrd/Contents.antt =====
-- `read` of a file of the mounted image.
use experimental_kernel.Common.{
  ℕ, zero, suc, ◌+◌, ◌-◌, ◌*◌, ◌^◌, ◌≤◌, ◌<◌, min, ◌≡◌, refl, sym, ap, ◌∙◌, ◌≢◌, ◌⊎◌, inl, inr,
  true, false, some, List, [], ◌∷◌, arith, ltb, ◌==◌, if◌then◌else◌, lt→ltb, ==→eq, ==→ne,
  Bool-cases, ◌+ʷ◌, ◌-ʷ◌, length, get_elem?,
}
use mathlib.Core.Option.{some-injective}
use experimental_kernel.Memory.{Mem}
use experimental_kernel.Cstring.{strncpy}
use experimental_kernel.Cstring.Text.{Text}
use experimental_kernel.Initrd.{InitrdFs, FileNode, read, header_bytes, get_offset, get_length}
use experimental_kernel.Initrd.Names.{IsBytes, Copies, strncpy-Copies}
use experimental_kernel.Initrd.Entries.{Entry, Headers}

-- The bytes from `a` on are these, and none of them is zero.
abbrev pub Content : Mem → ℕ → List ℕ → Type 0
Content m a [] = Unit
Content m a (x ∷ xs) = (m a ≡ x) × (x ≢ 0) × (x < 256) × Content m (a + 1) xs

abbrev pub take : ℕ → List ℕ → List ℕ
take zero xs = []
take (suc n) [] = []
take (suc n) (x ∷ xs) = x ∷ take n xs

abbrev pub drop : ℕ → List ℕ → List ℕ
drop zero xs = xs
drop (suc n) [] = []
drop (suc n) (x ∷ xs) = drop n xs

length-take : (n : ℕ) (xs : List ℕ) → length (take n xs) ≡ min n (length xs)
length-take zero xs = omega arith
length-take (suc n) [] = omega arith
length-take (suc n) (x ∷ xs) = ground (arith, length-take n xs)

length-drop : (n : ℕ) (xs : List ℕ) → length (drop n xs) ≡ length xs - n
length-drop zero xs = omega arith
length-drop (suc n) [] = omega arith
length-drop (suc n) (x ∷ xs) = ground (arith, length-drop n xs)

Content-drop :
    (m : Mem) (a n : ℕ) (xs : List ℕ)
    → Content m a xs
    → n ≤ length xs
    → Content m (a + n) (drop n xs)
Content-drop m a zero xs c le = (let e : a + 0 ≡ a = omega arith in rw e c)
Content-drop m a (suc n) [] c le = absurd (omega arith)
Content-drop m a (suc n) (x ∷ xs) c le =
    let e : a + suc n ≡ a + 1 + n = omega arith in
    rw e (Content-drop m (a + 1) n xs c.3 (omega arith))

Content-take : (m : Mem) (a n : ℕ) (xs : List ℕ) → Content m a xs → Content m a (take n xs)
Content-take m a zero xs c = tt
Content-take m a (suc n) [] c = tt
Content-take m a (suc n) (x ∷ xs) c = (c.0, c.1, c.2, Content-take m (a + 1) n xs c.3)

Content-nonzero :
    (m : Mem) (p a : ℕ) (xs : List ℕ) → Content m p xs → p ≤ a → a < p + length xs → m a ≢ 0
Content-nonzero m p a [] t lo hi = absurd (omega arith)
Content-nonzero m p a (x ∷ xs) t lo hi = elim (Bool-cases (p == a)) [
  | inl here ↦ rw (← ==→eq p a here) (omega (arith, t.0, t.1))
  | inr later ↦ Content-nonzero m (p + 1) a xs t.3 (omega (arith, ==→ne p a later)) (omega arith)
]

-- A copy with a terminator behind it is a text.
Content-Text :
    (m g : Mem) (p q : ℕ) (xs : List ℕ)
    → ((k : ℕ) → k < length xs → g (q + k) ≡ m (p + k))
    → g (q + length xs) ≡ 0
    → Content m p xs
    → Text g q xs
Content-Text m g p q [] same end c = (let e : q + 0 ≡ q = omega arith in rw e at end)
Content-Text m g p q (x ∷ xs) same end c = (
  ground (arith, same 0, c.0),
  c.1,
  c.2,
  Content-Text m g (p + 1) (q + 1) xs
      (λ k lt.
        (let e : p + 1 + k ≡ p + (k + 1) = omega arith in
          let f : q + 1 + k ≡ q + (k + 1) = omega arith in rw (e, f) (same (k + 1) (omega arith))))
      (let e : q + 1 + length xs ≡ q + suc (length xs) = omega arith in rw e end) c.3,
)

Headers-get_elem? :
    (m : Mem) (h i : ℕ) (es : List Entry) (e : Entry)
    → Headers m h es
    → get_elem? es i ≡ some e
    → (i < length es)
      × (get_offset m (h + header_bytes * i) ≡ e.offset)
      × (get_length m (h + header_bytes * i) ≡ e.size)
Headers-get_elem? m h i [] e hs eq = absurd (ground (arith, eq))
Headers-get_elem? m h zero (e' ∷ es) e hs eq =
    let same : e' ≡ e = some-injective e' e eq in
    let here : h + 73 * 0 ≡ h = omega arith in
    rw here (omega arith, hs.2 ∙ ap Entry.offset same, hs.3 ∙ ap Entry.size same)
Headers-get_elem? m h (suc i) (e' ∷ es) e hs eq =
    let rest = Headers-get_elem? m (h + header_bytes) i es e hs.4 eq in
    let here : h + 73 * suc i ≡ h + 73 + 73 * i = omega arith in
    rw here (omega (arith, rest.0), rest.1, rest.2)

read_lem :
    (fs : InitrdFs) (node : FileNode) (offset size buffer i at total : ℕ) (m : Mem)
    → node.inode ≡ i + 1
    → i + 1 < 2 ^ 32
    → i < fs.headers_size
    → get_offset m (fs.headers_at + header_bytes * i) ≡ at
    → get_length m (fs.headers_at + header_bytes * i) ≡ total
    → offset ≤ total
    → total < 2 ^ 32
    → offset + size < 2 ^ 32
    → at + total < 2 ^ 32
    → read fs node offset size buffer m
      ≡ some (strncpy buffer (at + offset) (min size (total - offset)) m, min size (total - offset))
unfolding read
read_lem fs node offset size buffer i at total m e1 e2 e3 e4 e5 e6 e7 e8 e9 =
    let index : node.inode -ʷ 1 ≡ i = omega (arith, e1, e2) in
    let inside : ltb i fs.headers_size ≡ true = lt→ltb _ _ e3 in
    let before : ltb total offset ≡ false = ground arith in
    let count : (if ltb total (offset +ʷ size) then total -ʷ offset else size)
        ≡ min size (total - offset) =
      ground arith in
    let from : at +ʷ offset ≡ at + offset = omega arith in
    rw (read, index, inside, e4, e5, before, count, from) refl

-- `read` of a file without zero bytes, from an offset that is not behind its end, puts the bytes asked
-- for, clipped to the end of the file, into the buffer with a terminator behind them, gives their
-- number, and writes nothing else. The file and the buffer do not meet.
pub read-Text :
    (fs : InitrdFs) (node : FileNode) (offset size buffer i : ℕ) (m : Mem) (es : List Entry)
    (e : Entry) (content : List ℕ)
    → IsBytes m
    → Headers m fs.headers_at es
    → fs.headers_size ≡ length es
    → length es < 2 ^ 32
    → get_elem? es i ≡ some e
    → node.inode ≡ i + 1
    → Content m e.offset content
    → length content ≡ e.size
    → e.size < 2 ^ 31
    → e.offset + e.size + 1 < 2 ^ 32
    → offset ≤ e.size
    → offset + size < 2 ^ 32
    → buffer + size + 1 < 2 ^ 32
    → (buffer + size < e.offset) ⊎ (e.offset + e.size < buffer)
    → (m' : Mem) × (read fs node offset size buffer m
        ≡ some (m', length (take size (drop offset content))))
      × Text m' buffer (take size (drop offset content))
      × IsBytes m'
      × ((a : ℕ) → (a < buffer) ⊎ (buffer + size < a) → m' a ≡ m a)
read-Text fs node offset size buffer i m es e content bytes hs n small e_i inode c full e_size room
      le wraps hb apart =
    let part = take size (drop offset content) in
    let len : length part ≡ min size (e.size - offset) =
      ground (arith, length-take size (drop offset content), length-drop offset content, full) in
    let got = Headers-get_elem? m fs.headers_at i es e hs e_i in
    let here : Content m (e.offset + offset) part =
      Content-take m (e.offset + offset) size (drop offset content)
        (Content-drop m e.offset offset content c (omega (arith, full))) in
    let m' = strncpy buffer (e.offset + offset) (min size (e.size - offset)) m in
    let copies : Copies buffer (e.offset + offset) part m m' =
      strncpy-Copies buffer (e.offset + offset) _ part m bytes (sym len) (omega arith)
        (λ a lo hi. Content-nonzero m (e.offset + offset) a part here lo hi) (omega (arith, len))
        (omega (arith, len)) (omega (arith, len)) in
    (
      m',
      read_lem fs node offset size buffer i e.offset e.size m inode (omega (arith, got.0))
            (omega (arith, got.0, n)) got.1 got.2 le (omega arith) wraps (omega arith)
          ∙ ap (λ k. some (m', k)) (sym len),
      Content-Text m m' (e.offset + offset) buffer part copies.copied copies.ended here,
      copies.bytes,
      λ a out. copies.others a (omega (arith, len, out)),
    )
