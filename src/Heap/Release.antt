-- ===== src/Heap/Release.antt =====
-- "Merge right" and the end of `free`, over a hole that is already in place.
use experimental_kernel.Common.{
  ℕ, ◌+◌, ◌-◌, ◌<◌, ◌≤◌, ◌^◌, ◌≡◌, List, [], ◌∷◌, ◌++◌, arith, length, refl, ap, sym, ◌∙◌, eq→==,
  length-append, if◌then◌else◌, Bool, true, false, ◌&&◌, ◌+ʷ◌, ◌==◌,
}
use mathlib.Core.Path.{subst}
use mathlib.Core.List.{append-nil, append_assoc}
use experimental_kernel.Memory.{Mem, read32, write32}
use experimental_kernel.Array.{Array, erase, add_ordered}
use experimental_kernel.Array.View.{to_list}
use experimental_kernel.Array.Insert.{insert, to_list-add_ordered}
use experimental_kernel.Heap.{KernelHeap, ok, magic, is_hole, get_magic, merge_right}
use experimental_kernel.Heap.Layout.{
  Seg, free_seg, Front, Layout, IsHeader, IsFooter, IsHeap, holes, total, Layout-append,
  Layout-total, Layout-cons, Layout-head, Layout-tail,
}
use experimental_kernel.Heap.Index.{holes-append, insert-append, holes-Below, holes-Above}
use experimental_kernel.Heap.Search.{length-to_list}
use experimental_kernel.Heap.Lookup.{
  Lacks, Below-Lacks, Above-Lacks, Lacks-append, erase_if_there-none, index_of-some,
  to_list-erase_listed,
}

-- The addresses that the hole at `a` adds to the index: none if it is listed already.
abbrev pub listing : Bool → ℕ → List ℕ → List ℕ
listing true a l = l
listing false a l = a ∷ l

-- A hole of `n` bytes at `a`, written out in memory, between `pre` and `post`; the index has yet to
-- hear of it if `add_hole` says so.
pub record IsPending (h : KernelHeap) (m : Mem) (pre post : List Seg) (a n : ℕ) (add_hole : Bool)
    : Type 0 where
  pub front : Front m h.start_address pre a
  pub header : IsHeader m a (free_seg n)
  pub footer : IsFooter m a (free_seg n)
  pub after : Layout m (a + n) post h.end_address
  pub indexed :
      to_list h.index ≡ holes h.start_address pre ++ listing add_hole a (holes (a + n) post)
  pub small : h.index.size + 1 < 2 ^ 32
  pub spot : a ≡ h.start_address + total pre
  pub inside : a + n ≤ h.end_address
  pub ends : h.end_address < 2 ^ 32

module _ (h : KernelHeap) (m : Mem) (pre post : List Seg) (a n : ℕ) (add_hole : Bool)
    (v : IsPending h m pre post a n add_hole) where
  -- The index at the end of `free`.
  abbrev final_index : Array ℕ → Array ℕ
  final_index index = if add_hole then add_ordered index a else index

  to_list-final :
      (index : Array ℕ) (b : ℕ) (rest : List Seg)
      → a < b
      → Layout m b rest h.end_address
      → index.size + 1 < 2 ^ 32
      → to_list index ≡ holes h.start_address pre ++ listing add_hole a (holes b rest)
      → to_list (final_index index) ≡ holes h.start_address pre ++ a ∷ holes b rest
  to_list-final index b rest lt l small e = final add_hole e
    where
      final :
          (add : Bool)
          → to_list index ≡ holes h.start_address pre ++ listing add a (holes b rest)
          → to_list (if add then add_ordered index a else index)
            ≡ holes h.start_address pre ++ a ∷ holes b rest
      final true e =
          to_list-add_ordered index a small
          ∙ ap (insert a) e
          ∙ insert-append a (holes h.start_address pre) (holes b rest)
              (holes-Below m h.start_address pre a a v.front (omega arith))
              (holes-Above m a b rest h.end_address l lt)
      final false e = e

  listed :
      holes h.start_address (pre ++ free_seg n ∷ post)
      ≡ holes h.start_address pre ++ a ∷ holes (a + n) post
  listed =
      holes-append h.start_address pre (free_seg n ∷ post)
      ∙ ap (λ t. holes h.start_address pre ++ t ∷ holes (t + n) post) (sym v.spot)

  Lacks-behind : Lacks (a + n) (holes (a + n) post) → Lacks (a + n) (to_list h.index)
  Lacks-behind free = subst (Lacks (a + n)) (sym v.indexed) (
      Lacks-append (a + n) (holes h.start_address pre) (listing add_hole a (holes (a + n) post))
        (Below-Lacks (a + n) (holes h.start_address pre)
          (holes-Below m h.start_address pre a (a + n) v.front (omega arith)))
        (Lacks-listing add_hole))
    where
      Lacks-listing : (add : Bool) → Lacks (a + n) (listing add a (holes (a + n) post))
      Lacks-listing true = free
      Lacks-listing false = (omega (arith, v.header.room), free)

  -- With no hole behind, the hole is indexed and that is all.
  pub merge_right_none :
      (get_magic m (a + n) == magic && is_hole m (a + n)) ≡ false
      → Lacks (a + n) (holes (a + n) post)
      → (h' : KernelHeap) × (merge_right h m a (a + n - 8) add_hole ≡ ok (h', m))
        × IsHeap h' m (pre ++ free_seg n ∷ post)
        × (h'.start_address ≡ h.start_address)
        × (h'.end_address ≡ h.end_address)
  unfolding merge_right
  merge_right_none plain free =
      let test : a + n - 8 +ʷ 8 ≡ a + n = omega (arith, v.inside, v.ends, v.header.room) in
      (
        record h { index = final_index h.index },
        rw (test, plain, erase_if_there-none h.index (a + n) (Lacks-behind free)),
        record {
          layout =
              Layout-append m h.start_address pre (free_seg n) post a h.end_address v.front
                (Layout-cons m a (free_seg n) post h.end_address v.header v.footer v.after);
          indexed =
              to_list-final h.index (a + n) post (omega (arith, v.header.room)) v.after v.small
                v.indexed
              ∙ sym listed;
          ends = v.ends;
        },
        refl,
        refl,
      )

-- A hole of `k` bytes stands behind the pending one.
module _ (h : KernelHeap) (m : Mem) (pre rest : List Seg) (a n k : ℕ) (add_hole : Bool)
    (v : IsPending h m pre (free_seg k ∷ rest) a n add_hole) where
  abbrev front_list : List ℕ
  front_list = holes h.start_address pre ++ listing add_hole a []

  right : IsHeader m (a + n) (free_seg k)
  right = Layout-head m (a + n) (free_seg k) rest h.end_address v.after

  beyond : Layout m (a + n + k) rest h.end_address
  beyond = Layout-tail m (a + n) (free_seg k) rest h.end_address v.after

  right_listed : to_list h.index ≡ front_list ++ (a + n) ∷ holes (a + n + k) rest
  right_listed = v.indexed ∙ regroup add_hole
    where
      regroup :
          (add : Bool)
          → holes h.start_address pre ++ listing add a ((a + n) ∷ holes (a + n + k) rest)
            ≡ (holes h.start_address pre ++ listing add a []) ++ (a + n) ∷ holes (a + n + k) rest
      regroup true = rw append-nil
      regroup false = sym (append_assoc (holes h.start_address pre) (a ∷ []) _)

  front_Lacks : Lacks (a + n) front_list
  front_Lacks =
      Lacks-append (a + n) (holes h.start_address pre) (listing add_hole a [])
        (Below-Lacks (a + n) (holes h.start_address pre)
          (holes-Below m h.start_address pre a (a + n) v.front (omega arith)))
        (single add_hole)
    where
      single : (add : Bool) → Lacks (a + n) (listing add a [])
      single true = tt
      single false = (omega (arith, v.header.room), tt)

  -- The index once the right hole is dropped.
  abbrev dropped : Array ℕ
  dropped = erase h.index (length front_list)

  to_list-dropped :
      to_list dropped ≡ holes h.start_address pre ++ listing add_hole a (holes (a + n + k) rest)
  to_list-dropped =
      to_list-erase_listed h.index (a + n) front_list (holes (a + n + k) rest) right_listed
        (omega (arith, v.small))
      ∙ regroup add_hole
    where
      regroup :
          (add : Bool)
          → (holes h.start_address pre ++ listing add a []) ++ holes (a + n + k) rest
            ≡ holes h.start_address pre ++ listing add a (holes (a + n + k) rest)
      regroup true = rw append-nil
      regroup false = append_assoc (holes h.start_address pre) (a ∷ []) _

  dropped_small : dropped.size + 1 < 2 ^ 32
  unfolding erase
  dropped_small =
      let size : h.index.size ≡ length front_list + length ((a + n) ∷ holes (a + n + k) rest) =
        sym (length-to_list h.index) ∙ ap length right_listed ∙ length-append front_list _ in
      omega (arith, v.small, size)

  dropped-Lacks : Lacks (a + n) (to_list dropped)
  dropped-Lacks = subst (Lacks (a + n)) (sym to_list-dropped) (
      Lacks-append (a + n) (holes h.start_address pre) (listing add_hole a (holes (a + n + k) rest))
        (Below-Lacks (a + n) (holes h.start_address pre)
          (holes-Below m h.start_address pre a (a + n) v.front (omega arith)))
        (Lacks-listing add_hole))
    where
      others : Lacks (a + n) (holes (a + n + k) rest)
      others =
          Above-Lacks (a + n) (holes (a + n + k) rest) (
            holes-Above m (a + n) (a + n + k) rest h.end_address beyond (omega (arith, right.room)))

      Lacks-listing : (add : Bool) → Lacks (a + n) (listing add a (holes (a + n + k) rest))
      Lacks-listing true = others
      Lacks-listing false = (omega (arith, v.header.room), others)

  abbrev merged : Mem
  merged = write32 m (a + 8) (n + k)

  -- With a hole behind, only the size in the left header is written: the footer at the end of the
  -- merged hole keeps its pointer to the right header.
  pub merge_right_some :
      (h' : KernelHeap) × (merge_right h m a (a + n - 8) add_hole ≡ ok (h', merged))
      × (to_list h'.index ≡ holes h.start_address pre ++ a ∷ holes (a + n + k) rest)
      × (h'.start_address ≡ h.start_address)
      × (h'.end_address ≡ h.end_address)
  unfolding merge_right
  merge_right_some =
      let fits : a + n + k + total rest ≡ h.end_address =
        Layout-total m (a + n + k) rest h.end_address beyond in
      let test : a + n - 8 +ʷ 8 ≡ a + n = omega (arith, v.inside, v.ends, v.header.room) in
      let sum : n +ʷ k ≡ n + k = omega (arith, fits, v.ends) in
      let marked : (read32 m (a + n) == magic) ≡ true = eq→== _ _ right.marked in
      let found = index_of-some h.index (a + n) front_list _ right_listed front_Lacks in
      let gone = erase_if_there-none dropped (a + n) dropped-Lacks in
      (
        record h { index = if add_hole then add_ordered dropped a else dropped },
        rw (test, marked, right.flag, found, test, v.header.sized, right.sized, sum, gone),
        to_list-final h m pre (free_seg k ∷ rest) a n add_hole v dropped (a + n + k) rest
            (omega (arith, v.header.room)) beyond dropped_small to_list-dropped,
        refl,
        refl,
      )
