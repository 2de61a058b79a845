-- ===== src/Vector/Erased.antt =====
-- erase of a vector does what erase of an array does.
use experimental_kernel.Common.{ℕ, zero, suc, ◌+◌, ◌-◌, ◌^◌, ◌<◌, ◌≡◌, refl, ap, ◌∙◌, ◌-ʷ◌}
use experimental_kernel.Array.{Array, erase, erase_loop, erase_range, erase_range_loop}
use experimental_kernel.Array.View.{to_list, remove_at}
use experimental_kernel.Array.Erase.{to_list-erase}
use experimental_kernel.Vector.{Vector, erase_item, erase_item_loop, erase_items, erase_items_loop}

module _ {A : Type 0} where
  -- The same items as an array.
  abbrev pub array_of : Vector A → Array A
  array_of v = record { cells = v.cells; size = v.size; max_size = v.element_max_size }

  erase_item_loop-erase_loop :
      (left i : ℕ) (c : ℕ → A) → erase_item_loop left i c ≡ erase_loop left i c
  unfolding erase_item_loop erase_loop
  erase_item_loop-erase_loop zero i c = refl
  erase_item_loop-erase_loop (suc left) i c = erase_item_loop-erase_loop left (i + 1) _

  erase_items_loop-erase_range_loop :
      (last left i : ℕ) (c : ℕ → A)
      → erase_items_loop last left i c ≡ erase_range_loop last left i c
  unfolding erase_items_loop erase_range_loop
  erase_items_loop-erase_range_loop last zero i c = refl
  erase_items_loop-erase_range_loop last (suc left) i c =
      erase_items_loop-erase_range_loop last left (i + 1) _

  pub erase_items-erase_range :
      (v : Vector A) (first last : ℕ)
      → array_of (erase_items v first last) ≡ erase_range (array_of v) first last
  unfolding erase_items erase_range
  erase_items-erase_range v first last =
      ap
        (λ c. record {
          cells = c;
          size = first + (v.size - (first + last + 1));
          max_size = v.element_max_size;
        })
        (erase_items_loop-erase_range_loop last (v.size - (first + last + 1)) first v.cells)

  erase_item-erase : (v : Vector A) (p : ℕ) → array_of (erase_item v p) ≡ erase (array_of v) p
  unfolding erase_item erase
  erase_item-erase v p =
      ap (λ c. record { cells = c; size = v.size -ʷ 1; max_size = v.element_max_size })
        (erase_item_loop-erase_loop (v.size -ʷ 1 - p) p v.cells)

  -- Erasing an item of a vector leaves the list without it.
  pub to_list-erase_item :
      (v : Vector A) (p : ℕ)
      → p < v.size
      → v.size < 2 ^ 32
      → to_list (array_of (erase_item v p)) ≡ remove_at p (to_list (array_of v))
  to_list-erase_item v p inside fits =
      ap to_list (erase_item-erase v p) ∙ to_list-erase (array_of v) p inside fits
