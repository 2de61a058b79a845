-- ===== src/Vector.antt =====
-- source/vector_.cpp and source/include/vector_.h. The items stand in `cells`, a function of the index,
-- which wraps around at 2 ^ 32 as the address does.
pub mod Pushed
pub mod Erased
pub mod Tests
use experimental_kernel.Common.{ℕ, zero, suc, ◌+◌, ◌-◌, ◌^◌, ◌==◌, ltb, if◌then◌else◌, ◌+ʷ◌, ◌-ʷ◌}

pub record Vector (A : Type 0) : Type 0 where
  pub cells : ℕ → A
  pub size : ℕ
  pub element_max_size : ℕ

module _ {A : Type 0} where
  -- vector(): no memory, whose content is an argument all the same.
  unfoldable pub empty_vector : (ℕ → A) → Vector A
  empty_vector c = record { cells = c; size = 0; element_max_size = 0 }

  -- vector(placeAddress, elementMaxSize, size), and vector(elementMaxSize, size) with memory of the heap:
  -- the items are zeroed.
  unfoldable pub zeroed_vector : A → (ℕ → A) → ℕ → ℕ → Vector A
  zeroed_vector z c element_max_size size = record {
    cells = λ k. if ltb k element_max_size then z else c k;
    size = size;
    element_max_size = element_max_size;
  }

  -- allocate leaves the items as they are.
  unfoldable pub allocate_vector : (ℕ → A) → ℕ → ℕ → Vector A
  allocate_vector c element_max_size size = record {
    cells = c;
    size = size;
    element_max_size = element_max_size;
  }

  abbrev pub put_item : (ℕ → A) → ℕ → A → ℕ → A
  put_item c i item = λ k. if k == i then item else c k

  -- push_back: array_[size_ - 1] = item; size_++;
  unfoldable pub push_item : Vector A → A → Vector A
  push_item v item = record v { cells = put_item v.cells (v.size -ʷ 1) item; size = v.size +ʷ 1 }

  -- erase(position): for (i = position; i < size_ - 1; i++), with the rounds left.
  unfoldable pub erase_item_loop : ℕ → ℕ → (ℕ → A) → ℕ → A
  erase_item_loop zero i c = c
  erase_item_loop (suc left) i c = erase_item_loop left (i + 1) (put_item c i (c (i + 1)))

  unfoldable pub erase_item : Vector A → ℕ → Vector A
  erase_item v position = record v {
    cells = erase_item_loop (v.size -ʷ 1 - position) position v.cells;
    size = v.size -ʷ 1;
  }

  -- erase(first, last): for (i = first; i + last + 1 < size_; i++), with the rounds left.
  unfoldable pub erase_items_loop : ℕ → ℕ → ℕ → (ℕ → A) → ℕ → A
  erase_items_loop last zero i c = c
  erase_items_loop last (suc left) i c =
      erase_items_loop last left (i + 1) (put_item c i (c (i + last + 1)))

  unfoldable pub erase_items : Vector A → ℕ → ℕ → Vector A
  erase_items v first last =
      let rounds = v.size - (first + last + 1) in
      record v { cells = erase_items_loop last rounds first v.cells; size = first + rounds }

  -- operator[]: past the size, the first item.
  unfoldable pub item_at : Vector A → ℕ → A
  item_at v index = if ltb index v.size then v.cells index else v.cells 0
