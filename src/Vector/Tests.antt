-- ===== src/Vector/Tests.antt =====
-- Three items in a zeroed vector with room for eight.
use experimental_kernel.Common.{ℕ, ◌<◌, ◌≡◌, arith, List, [], ◌∷◌, length, get_or}
use experimental_kernel.Vector.{Vector, zeroed_vector, item_at}
use experimental_kernel.Vector.Pushed.{push_items, push_items-item_at}

abbrev items : List ℕ
items = 20 ∷ 40 ∷ []

abbrev room_for_8 : Vector ℕ
room_for_8 = zeroed_vector 0 (λ i. 1) 8 0

push_items-item_at_example :
    (let v = push_items room_for_8 (10 ∷ items) in
      (v.size ≡ length (10 ∷ items))
      × ((i : ℕ) → i < length items → item_at v i ≡ get_or items i 0)
      × (item_at v (length items) ≡ 0))
push_items-item_at_example = push_items-item_at 0 10 (λ i. 1) 8 items (omega arith) (omega arith)
