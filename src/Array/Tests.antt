-- ===== src/Array/Tests.antt =====
-- An array of three elements with room for eight.
use experimental_kernel.Common.{ℕ, ◌≡◌, ◌==◌, if◌then◌else◌, refl, arith, [], ◌∷◌}
use experimental_kernel.Array.{
  Array, erase, erase_loop, erase_range, erase_range_loop, add_ordered, insert_pos, shift_loop,
}
use experimental_kernel.Array.View.{to_list, view, remove_at}
use experimental_kernel.Array.Erase.{to_list-erase}
use experimental_kernel.Array.Insert.{insert, to_list-add_ordered, add_ordered-IsSorted, IsSorted}

abbrev three : Array ℕ
three = record {
  cells = λ i. if i == 0 then 10 else if i == 1 then 20 else 40;
  size = 3;
  max_size = 8;
}

erased : to_list (erase three 1) ≡ 10 ∷ 40 ∷ []
unfolding erase erase_loop to_list view
erased = refl

-- Erasing the elements 1 to 1 drops the element 2 too.
erased_range : to_list (erase_range three 1 1) ≡ 10 ∷ []
unfolding erase_range erase_range_loop to_list view
erased_range = refl

added : to_list (add_ordered three 30) ≡ 10 ∷ 20 ∷ 30 ∷ 40 ∷ []
unfolding add_ordered insert_pos shift_loop to_list view
added = refl

to_list-erase_example : to_list (erase three 1) ≡ remove_at 1 (to_list three)
to_list-erase_example = to_list-erase three 1 (omega arith) (omega arith)

to_list-add_ordered_example : to_list (add_ordered three 30) ≡ insert 30 (to_list three)
to_list-add_ordered_example = to_list-add_ordered three 30 (omega arith)

three-IsSorted : IsSorted (to_list three)
unfolding to_list view
three-IsSorted = ((omega arith, (omega arith, tt)), ((omega arith, tt), (tt, tt)))

add_ordered-IsSorted_example : IsSorted (to_list (add_ordered three 30))
add_ordered-IsSorted_example =
    add_ordered-IsSorted three 30 (omega arith) (unfold to_list view in refl) three-IsSorted
