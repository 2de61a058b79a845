-- ===== src/Heap/Init.antt =====
-- `init` of the kernel heap.
use experimental_kernel.Common.{
  ℕ, ◌+◌, ◌-◌, ◌*◌, ◌%◌, ◌<◌, ◌≤◌, ◌^◌, ◌≡◌, [], ◌∷◌, arith, refl, ◌∙◌, Bool, true, false, ◌⊎◌,
  ◌==◌, ◌-ʷ◌, ◌+ʷ◌,
}
use experimental_kernel.Memory.{Mem}
use experimental_kernel.Array.{zeroed, add_ordered}
use experimental_kernel.Array.Insert.{insert, to_list-add_ordered}
use experimental_kernel.Array.View.{to_list, view}
use experimental_kernel.Heap.{KernelHeap, ok, hang, init, set_header, index_size, page_size}
use experimental_kernel.Heap.Layout.{free_seg, IsHeap}
use experimental_kernel.Heap.Write.{set_header-IsHeader}

-- `init` with page-aligned ends, and room for the index and one hole between them, gives a
-- well-formed and enabled heap: one hole from behind the index to the end.
pub init-IsHeap :
    (start end max : ℕ) (supervisor read_only : Bool) (cells : ℕ → ℕ) (m : Mem)
    → start % page_size ≡ 0
    → end % page_size ≡ 0
    → start + 4 * index_size + 20 ≤ end
    → end < 2 ^ 32
    → (h : KernelHeap) × (g : Mem) × (init start end max supervisor read_only cells m ≡ ok (h, g))
      × IsHeap h g (free_seg (end - (start + 4 * index_size)) ∷ [])
      × (h.enabled ≡ true)
      × (h.start_address ≡ start + 4 * index_size)
      × (h.end_address ≡ end)
unfolding init
init-IsHeap start end max supervisor read_only cells m s e room small =
    let first = start + 4 * index_size in
    let behind : start +ʷ 4 * index_size ≡ first = omega arith in
    let even : first % 2 ≡ 0 = omega (arith, s) in
    let size : end -ʷ first ≡ end - first = omega arith in
    (
      record {
        index = add_ordered (zeroed 0 cells index_size) first;
        start_address = first;
        end_address = end;
        max_address = max;
        supervisor = supervisor;
        read_only = read_only;
        enabled = true;
      },
      set_header first true (end - first) m,
      rw (s, e, behind, even, size),
      record {
        layout = (
          set_header-IsHeader m first (free_seg (end - first)) (omega arith) (omega arith),
          λ used. cc,
          omega arith,
        );
        indexed =
            to_list-add_ordered (zeroed 0 cells index_size) first (unfold zeroed in omega arith)
            ∙ (unfold insert to_list view zeroed in refl);
        ends = small;
      },
      refl,
      refl,
      refl,
    )

-- With an end that is not page aligned `init` hangs.
pub init-hang :
    (start end max : ℕ) (supervisor read_only : Bool) (cells : ℕ → ℕ) (m : Mem)
    → ((start % page_size == 0) ≡ false) ⊎ ((end % page_size == 0) ≡ false)
    → init start end max supervisor read_only cells m ≡ hang
unfolding init
init-hang start end max supervisor read_only cells m bad = ground arith
