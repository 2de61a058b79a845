-- ===== src/Array.antt =====
-- source/utils/array.cpp: Array and OrderedArray. The elements stand in `cells`, a function of the
-- index, since the code reads and writes past `size` and `max_size` when it is told to.
pub mod View
pub mod Erase
pub mod Insert
pub mod Tests
use experimental_kernel.Common.{
  ℕ, zero, suc, ◌+◌, ◌-◌, ◌^◌, ◌==◌, ltb, if◌then◌else◌, ◌+ʷ◌, ◌-ʷ◌, Option, none, some, u32,
}

pub record Array (A : Type 0) : Type 0 where
  pub cells : ℕ → A
  pub size : ℕ
  pub max_size : ℕ

module _ {A : Type 0} where
  abbrev pub put : (ℕ → A) → ℕ → A → ℕ → A
  put c i v = λ k. if k == i then v else c k

  -- Array(placeAddress, maxSize) zeroes the elements; `place` leaves what is there.
  unfoldable pub zeroed : A → (ℕ → A) → ℕ → Array A
  zeroed z c max_size = record {
    cells = λ k. if ltb k max_size then z else c k;
    size = 0;
    max_size = max_size;
  }

  unfoldable pub place : (ℕ → A) → ℕ → ℕ → Array A
  place c max_size size = record { cells = c; size = size; max_size = max_size }

  -- The result is the new size, or the pattern of -1 when the array is full.
  unfoldable pub add : Array A → A → Array A × ℕ
  add a item =
      if a.size == a.max_size
      then (a, u32 (2 ^ 32 - 1))
      else (record a { cells = put a.cells a.size item; size = a.size +ʷ 1 }, a.size +ʷ 1)

  -- for (int i = position; i < size_ - 1; i++) array_[i] = array_[i+1]; with the rounds left.
  unfoldable pub erase_loop : ℕ → ℕ → (ℕ → A) → ℕ → A
  erase_loop zero i c = c
  erase_loop (suc left) i c = erase_loop left (i + 1) (put c i (c (i + 1)))

  -- `size_ - 1` is unsigned: at size 0 it is 2 ^ 32 - 1.
  unfoldable pub erase : Array A → ℕ → Array A
  unfolding erase_loop
  erase a position = record a {
    cells = erase_loop (a.size -ʷ 1 - position) position a.cells;
    size = a.size -ʷ 1;
  }

  -- for (i = first; i+last+1 < size_; i++) array_[i] = array_[i+last+1];
  unfoldable pub erase_range_loop : ℕ → ℕ → ℕ → (ℕ → A) → ℕ → A
  erase_range_loop last zero i c = c
  erase_range_loop last (suc left) i c =
      erase_range_loop last left (i + 1) (put c i (c (i + last + 1)))

  unfoldable pub erase_range : Array A → ℕ → ℕ → Array A
  unfolding erase_range_loop
  erase_range a first last =
      let rounds = a.size - (first + last + 1) in
      record a { cells = erase_range_loop last rounds first a.cells; size = first + rounds }

  -- Array::operator[]: past the size the function ends without a return.
  unfoldable pub at : Array A → ℕ → Option A
  at a index = if ltb index a.size then some (a.cells index) else none

-- OrderedArray<void*>: while (i < size_ && array_[i] < item) i++;
unfoldable pub insert_pos : ℕ → ℕ → (ℕ → ℕ) → ℕ → ℕ
insert_pos zero i c item = i
insert_pos (suc left) i c item =
    let rest = insert_pos left (i + 1) c item in if ltb (c i) item then rest else i

-- while (i < size_) { i++; tmp2 = array_[i]; array_[i] = tmp; tmp = tmp2; }
unfoldable pub shift_loop : ℕ → ℕ → ℕ → (ℕ → ℕ) → ℕ → ℕ
shift_loop zero i tmp c = c
shift_loop (suc left) i tmp c = shift_loop left (i + 1) (c (i + 1)) (put c (i + 1) tmp)

-- OrderedArray::add compares no size with `max_size`.
unfoldable pub add_ordered : Array ℕ → ℕ → Array ℕ
unfolding insert_pos shift_loop
add_ordered a item =
    let i = insert_pos a.size 0 a.cells item in
    if i == a.size then record a { cells = put a.cells i item; size = a.size +ʷ 1 } else record a {
      cells = shift_loop (a.size - i) i (a.cells i) (put a.cells i item);
      size = a.size +ʷ 1;
    }

-- OrderedArray::operator[] gives 0 past the size.
unfoldable pub at_ordered : Array ℕ → ℕ → ℕ
at_ordered a index = if ltb index a.size then a.cells index else 0
