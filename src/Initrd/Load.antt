-- ===== src/Initrd/Load.antt =====
-- The loop of `init`.
use experimental_kernel.Common.{
  ℕ, suc, ◌+◌, ◌*◌, ◌^◌, ◌≤◌, ◌<◌, ◌≡◌, refl, ◌∙◌, ◌⊎◌, true, false, some, List, [], ◌∷◌, arith,
  ◌==◌, eq→==, ne→==, length,
}
use experimental_kernel.Memory.{Mem}
use experimental_kernel.Array.{Array}
use experimental_kernel.Cstring.Text.{Text-frame}
use experimental_kernel.Initrd.{FileNode, Places, header_bytes, init_loop}
use experimental_kernel.Initrd.Names.{IsBytes}
use experimental_kernel.Initrd.Entries.{
  Entry, Headers, Headers-frame, moved, AllFit, slot, Children, read32-same,
}
use experimental_kernel.Initrd.Header.{Room, Round, with_child, init_loop-Round}

-- An address that the rounds for them do not write.
abbrev pub Outside : Places → ℕ → ℕ → ℕ → ℕ → Type 0
Outside p i h n a =
    ((a < h) ⊎ (h + header_bytes * n ≤ a))
    × ((a < slot p i) ⊎ (slot p (i + n) ≤ a))
    × ((a < p.child_node) ⊎ (p.child_node + 65 ≤ a))

-- What the loop leaves from the header at `h` with number `i` on.
pub record Loads (location : ℕ) (p : Places) (i h : ℕ) (es : List Entry) (m : Mem)
    (children : Array FileNode) (m' : Mem) (children' : Array FileNode) : Type 0 where
  pub bytes : IsBytes m'
  pub headers : Headers m' h (moved location es)
  pub nodes : Children m' children'.cells p i es
  pub size : children'.size ≡ i + length es
  pub earlier : (k : ℕ) → k < i → children'.cells k ≡ children.cells k
  pub others : (a : ℕ) → Outside p i h (length es) a → m' a ≡ m a

Room-next : (p : Places) (i h n : ℕ) → Room p i h (suc n) → Room p (i + 1) (h + header_bytes) n
Room-next p i h n r = record {
  headers_fit = omega (arith, r.headers_fit);
  slots_fit = omega (arith, r.slots_fit);
  local_fits = r.local_fits;
  local_headers = omega (arith, r.local_headers);
  slots_headers = omega (arith, r.slots_headers);
  local_slots = omega (arith, r.local_slots);
}

Room-first : (p : Places) (i h n : ℕ) → Room p i h (suc n) → Room p i h 1
Room-first p i h n r = record {
  headers_fit = omega (arith, r.headers_fit);
  slots_fit = omega (arith, r.slots_fit);
  local_fits = r.local_fits;
  local_headers = omega (arith, r.local_headers);
  slots_headers = omega (arith, r.slots_headers);
  local_slots = omega (arith, r.local_slots);
}

-- A first round, and what the later rounds leave.
Loads-cons :
    (location : ℕ) (p : Places) (h : ℕ) (e : Entry) (es : List Entry) (m m1 m' : Mem)
    (children children' : Array FileNode)
    → Headers m h (e ∷ es)
    → Room p children.size h (length (e ∷ es))
    → Round location p children.size h e m m1
    → Loads location p
        (children.size + 1)
        (h + header_bytes)
        es
        m1
        (with_child p children e)
        m'
        children'
    → Loads location p children.size h (e ∷ es) m children m' children'
Loads-cons location p h e es m m1 m' children children' (name, short, offset, size, rest) room r l =
    record {
      bytes = l.bytes;
      headers = (
        Text-frame m m' (h + 1) e.name
            (λ a lo hi. both a (omega (arith, short)) (omega arith) (omega (arith, short))) name,
        short,
        read32-same m1 m' (h + 65) (λ a lo hi.
              l.others a
                (omega arith, omega (arith, room.slots_headers), omega (arith, room.local_headers)))
            ∙ r.offset,
        read32-same m m' (h + 69) (λ a lo hi. both a (omega arith) (omega arith) (omega arith))
            ∙ size,
        l.headers,
      );
      nodes = (
        l.earlier children.size (omega arith)
            ∙ (let self : (children.size == children.size) ≡ true = eq→== _ _ refl in rw self),
        Text-frame m1 m' (slot p children.size) e.name
            (λ a lo hi. l.others a (
              omega (arith, short, room.slots_headers),
              omega (arith, short),
              omega (arith, short, room.local_slots),
            ))
            r.name,
        l.nodes,
      );
      size = l.size ∙ omega arith;
      earlier = λ k lt.
          l.earlier k (omega arith)
          ∙ (let other : (k == children.size) ≡ false = ne→== _ _ (omega arith) in rw other);
      others = λ a (x, y, z).
          l.others a (omega (arith, x), omega (arith, y), z)
          ∙ r.others a (omega (arith, x)) (omega (arith, y)) (omega (arith, z));
    }
  where
    both : (a : ℕ) → h ≤ a → (a < h + 65) ⊎ (h + 69 ≤ a) → a < h + header_bytes → m' a ≡ m a
    both a lo mid hi =
        l.others a
          (omega arith, omega (arith, room.slots_headers), omega (arith, room.local_headers))
        ∙ r.others a mid (omega (arith, room.slots_headers)) (omega (arith, room.local_headers))

pub init_loop-Loads :
    (fuel location : ℕ) (p : Places) (h : ℕ) (es : List Entry) (children : Array FileNode) (m : Mem)
    → IsBytes m
    → Headers m h es
    → AllFit location es
    → 64 ≤ fuel
    → Room p children.size h (length es)
    → children.size + length es ≤ children.max_size
    → children.size + length es < 2 ^ 32
    → (m' : Mem) × (children' : Array FileNode) × (init_loop fuel location p
          (length es)
          children.size
          h
          children
          m
        ≡ some (m', children'))
      × Loads location p children.size h es m children m' children'
init_loop-Loads fuel location p h [] children m bytes headers fit fuelled room free small = (
  m,
  children,
  (unfold init_loop in refl),
  record {
    bytes = bytes;
    headers = tt;
    nodes = tt;
    size = omega arith;
    earlier = λ k lt. refl;
    others = λ a out. refl;
  },
)
init_loop-Loads fuel location p h (e ∷ es) children m bytes headers fit fuelled room free small =
    let (m1, r, step) =
      init_loop-Round fuel location p (length es) h e children m bytes
        (headers.0, headers.1, headers.2, headers.3, tt) fit.0 fuelled
        (Room-first p children.size h (length es) room) (omega arith) (omega arith) in
    let rest : Headers m1 (h + header_bytes) es =
      Headers-frame m m1 (h + header_bytes) es
        (λ a lo hi.
          r.others a (omega arith) (omega (arith, room.slots_headers))
            (omega (arith, room.local_headers)))
        headers.4 in
    let (m', children', done, l) =
      init_loop-Loads fuel location p (h + header_bytes) es (with_child p children e) m1 r.bytes
        rest fit.1 fuelled (Room-next p children.size h (length es) room) (omega arith)
        (omega arith) in
    (
      m',
      children',
      step ∙ done,
      Loads-cons location p h e es m m1 m' children children' headers room r l,
    )
