-- ===== src/Heap/Layout.antt =====
-- The heap as a list of segments, and the bytes that stand for it.
use experimental_kernel.Common.{
  ℕ, ◌+◌, ◌-◌, ◌≤◌, ◌<◌, ◌^◌, ◌≡◌, List, [], ◌∷◌, ◌++◌, arith, if◌then◌else◌, Bool, true, false,
  ◌∙◌,
}
use experimental_kernel.Memory.{Mem, read32}
use experimental_kernel.Heap.{KernelHeap, magic}
use experimental_kernel.Array.View.{to_list}

-- A hole or a block with its size, header and footer included.
pub record Seg : Type 0 where
  pub hole : Bool
  pub size : ℕ

abbrev pub free_seg : ℕ → Seg
free_seg n = record { hole = true; size = n }

abbrev pub used_seg : ℕ → Seg
used_seg n = record { hole = false; size = n }

abbrev pub total : List Seg → ℕ
total [] = 0
total (s ∷ ss) = s.size + total ss

-- The header of `s` stands at `a`, and leaves room for a footer.
pub record IsHeader (m : Mem) (a : ℕ) (s : Seg) : Type 0 where
  pub marked : read32 m a ≡ magic
  pub flag : m (a + 4) ≡ (if s.hole then 1 else 0)
  pub sized : read32 m (a + 8) ≡ s.size
  pub room : 20 ≤ s.size

-- A footer that leads back to `a` stands at the end of `s`.
pub record IsFooter (m : Mem) (a : ℕ) (s : Seg) : Type 0 where
  pub marked : read32 m (a + (s.size - 8)) ≡ magic
  pub back : read32 m (a + (s.size - 8) + 4) ≡ a

-- The segments `ss` stand from `a` up to `e`, each with its footer.
abbrev pub Front : Mem → ℕ → List Seg → ℕ → Type 0
Front m a [] e = a ≡ e
Front m a (s ∷ ss) e = IsHeader m a s × IsFooter m a s × Front m (a + s.size) ss e

-- The same, but a hole that stands last needs no footer: the initial hole has none.
abbrev pub Layout : Mem → ℕ → List Seg → ℕ → Type 0
Layout m a [] e = a ≡ e
Layout m a (s ∷ []) e = IsHeader m a s × (s.hole ≡ false → IsFooter m a s) × (a + s.size ≡ e)
Layout m a (s ∷ t ∷ ss) e = IsHeader m a s × IsFooter m a s × Layout m (a + s.size) (t ∷ ss) e

-- The addresses of the holes, in order.
abbrev pub holes : ℕ → List Seg → List ℕ
holes a [] = []
holes a (s ∷ ss) = if s.hole then a ∷ holes (a + s.size) ss else holes (a + s.size) ss

-- The heap's invariant: its memory is laid out as `segs`, and its index lists the holes in order.
pub record IsHeap (h : KernelHeap) (m : Mem) (segs : List Seg) : Type 0 where
  pub layout : Layout m h.start_address segs h.end_address
  pub indexed : to_list h.index ≡ holes h.start_address segs
  pub ends : h.end_address < 2 ^ 32

module _ (m g : Mem) where
  read32-same : (a : ℕ) → ((x : ℕ) → a ≤ x → x < a + 4 → g x ≡ m x) → read32 g a ≡ read32 m a
  unfolding read32
  read32-same a same = ground (arith, same a, same (a + 1), same (a + 2), same (a + 3))

  pub IsHeader-frame :
      (a : ℕ) (s : Seg)
      → ((x : ℕ) → a ≤ x → x < a + 12 → g x ≡ m x)
      → IsHeader m a s
      → IsHeader g a s
  IsHeader-frame a s same h = record {
    marked = read32-same a (λ x lo hi. same x (omega arith) (omega arith)) ∙ h.marked;
    flag = same (a + 4) (omega arith) (omega arith) ∙ h.flag;
    sized = read32-same (a + 8) (λ x lo hi. same x (omega arith) (omega arith)) ∙ h.sized;
    room = h.room;
  }

  pub IsFooter-frame :
      (a : ℕ) (s : Seg)
      → 20 ≤ s.size
      → ((x : ℕ) → a + (s.size - 8) ≤ x → x < a + s.size → g x ≡ m x)
      → IsFooter m a s
      → IsFooter g a s
  IsFooter-frame a s room same f = record {
    marked = read32-same _ (λ x lo hi. same x (omega arith) (omega arith)) ∙ f.marked;
    back = read32-same _ (λ x lo hi. same x (omega arith) (omega arith)) ∙ f.back;
  }

  -- A layout survives any change outside it.
  pub Front-frame :
      (a : ℕ) (ss : List Seg) (e : ℕ)
      → ((x : ℕ) → a ≤ x → x < a + total ss → g x ≡ m x)
      → Front m a ss e
      → Front g a ss e
  Front-frame a [] e same l = l
  Front-frame a (s ∷ ss) e same (h, f, l) = (
    IsHeader-frame a s (λ x lo hi. same x lo (omega (arith, h.room))) h,
    IsFooter-frame a s h.room (λ x lo hi. same x (omega (arith, h.room)) (omega arith)) f,
    Front-frame (a + s.size) ss e (λ x lo hi. same x (omega arith) (omega arith)) l,
  )

  pub Layout-frame :
      (a : ℕ) (ss : List Seg) (e : ℕ)
      → ((x : ℕ) → a ≤ x → x < a + total ss → g x ≡ m x)
      → Layout m a ss e
      → Layout g a ss e
  Layout-frame a [] e same l = l
  Layout-frame a (s ∷ []) e same (h, f, l) = (
    IsHeader-frame a s (λ x lo hi. same x lo (omega (arith, h.room))) h,
    λ used.
        IsFooter-frame a s h.room (λ x lo hi. same x (omega (arith, h.room)) (omega arith))
          (f used),
    l,
  )
  Layout-frame a (s ∷ t ∷ ss) e same (h, f, l) = (
    IsHeader-frame a s (λ x lo hi. same x lo (omega (arith, h.room))) h,
    IsFooter-frame a s h.room (λ x lo hi. same x (omega (arith, h.room)) (omega arith)) f,
    Layout-frame (a + s.size) (t ∷ ss) e (λ x lo hi. same x (omega arith) (omega arith)) l,
  )

module _ (m : Mem) where
  pub Layout-head :
      (a : ℕ) (s : Seg) (ss : List Seg) (e : ℕ) → Layout m a (s ∷ ss) e → IsHeader m a s
  Layout-head a s [] e l = l.0
  Layout-head a s (t ∷ ss) e l = l.0

  pub Layout-tail :
      (a : ℕ) (s : Seg) (ss : List Seg) (e : ℕ) → Layout m a (s ∷ ss) e → Layout m (a + s.size) ss e
  Layout-tail a s [] e l = l.2
  Layout-tail a s (t ∷ ss) e l = l.2

  pub Layout-cons :
      (a : ℕ) (s : Seg) (ss : List Seg) (e : ℕ)
      → IsHeader m a s
      → IsFooter m a s
      → Layout m (a + s.size) ss e
      → Layout m a (s ∷ ss) e
  Layout-cons a s [] e h f l = (h, λ used. f, l)
  Layout-cons a s (t ∷ ss) e h f l = (h, f, l)

  pub Layout-total : (a : ℕ) (ss : List Seg) (e : ℕ) → Layout m a ss e → a + total ss ≡ e
  Layout-total a [] e l = omega arith
  Layout-total a (s ∷ []) e l = omega arith
  Layout-total a (s ∷ t ∷ ss) e l = omega (arith, Layout-total (a + s.size) (t ∷ ss) e l.2)

  -- A layout splits in front of any segment, and is put together again.
  pub Front-of :
      (a : ℕ) (pre : List Seg) (s : Seg) (post : List Seg) (e : ℕ)
      → Layout m a (pre ++ s ∷ post) e
      → Front m a pre (a + total pre)
  Front-of a [] s post e l = omega arith
  Front-of a (p ∷ []) s post e l = (l.0, l.1, omega arith)
  Front-of a (p ∷ q ∷ pre) s post e l =
      let rest = Front-of (a + p.size) (q ∷ pre) s post e l.2 in
      let same : a + p.size + total (q ∷ pre) ≡ a + total (p ∷ q ∷ pre) = omega arith in
      (l.0, l.1, rw same at rest)

  pub Layout-of :
      (a : ℕ) (pre : List Seg) (s : Seg) (post : List Seg) (e : ℕ)
      → Layout m a (pre ++ s ∷ post) e
      → Layout m (a + total pre) (s ∷ post) e
  Layout-of a [] s post e l = let same : a ≡ a + total [] = omega arith in rw same at l
  Layout-of a (p ∷ []) s post e l =
      let same : a + p.size ≡ a + total (p ∷ []) = omega arith in rw same at l.2
  Layout-of a (p ∷ q ∷ pre) s post e l =
      let rest = Layout-of (a + p.size) (q ∷ pre) s post e l.2 in
      let same : a + p.size + total (q ∷ pre) ≡ a + total (p ∷ q ∷ pre) = omega arith in
      rw same at rest

  pub Layout-append :
      (a : ℕ) (pre : List Seg) (s : Seg) (post : List Seg) (b e : ℕ)
      → Front m a pre b
      → Layout m b (s ∷ post) e
      → Layout m a (pre ++ s ∷ post) e
  Layout-append a [] s post b e f l = rw f l
  Layout-append a (p ∷ []) s post b e (h, t, f) l = (h, t, rw f l)
  Layout-append a (p ∷ q ∷ pre) s post b e (h, t, f) l =
      (h, t, Layout-append (a + p.size) (q ∷ pre) s post b e f l)
