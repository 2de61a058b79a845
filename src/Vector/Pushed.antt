-- ===== src/Vector/Pushed.antt =====
-- What push_back leaves.
use experimental_kernel.Common.{
  ℕ, zero, suc, ◌+◌, ◌-◌, ◌^◌, ◌<◌, ◌≤◌, ◌≡◌, ◌⊎◌, refl, ap, ◌∙◌, arith, ◌==◌, ne→==, List, [], ◌∷◌,
  length, get_or, ◌-ʷ◌, ltb, lt→ltb, true, false,
}
use experimental_kernel.Vector.{Vector, push_item, zeroed_vector, item_at}

module _ {A : Type 0} where
  abbrev pub push_items : Vector A → List A → Vector A
  push_items v [] = v
  push_items v (x ∷ xs) = push_items (push_item v x) xs

  -- The items went to the places from `size - 1` on.
  record Pushes (v : Vector A) (xs : List A) (d : A) (v' : Vector A) : Type 0 where
    size : v'.size ≡ v.size + length xs
    items : (i : ℕ) → i < length xs → v'.cells (v.size - 1 + i) ≡ get_or xs i d
    others : (i : ℕ) → (i < v.size - 1) ⊎ (v.size - 1 + length xs ≤ i) → v'.cells i ≡ v.cells i

  push_item-here :
      (v : Vector A) (x : A) → 0 < v.size → v.size < 2 ^ 32 → (push_item v x).cells (v.size - 1) ≡ x
  unfolding push_item
  push_item-here v x some_ fits =
      let place : (v.size - 1 == v.size -ʷ 1) ≡ true = ground (arith, some_, fits) in rw place refl

  push_item-other :
      (v : Vector A) (x : A) (i : ℕ)
      → 0 < v.size
      → v.size < 2 ^ 32
      → (i < v.size - 1) ⊎ (v.size ≤ i)
      → (push_item v x).cells i ≡ v.cells i
  unfolding push_item
  push_item-other v x i some_ fits away =
      let place : (i == v.size -ʷ 1) ≡ false = ground (arith, some_, fits, away) in rw place refl

  push_item-size : (v : Vector A) (x : A) → v.size + 1 < 2 ^ 32 → (push_item v x).size ≡ v.size + 1
  unfolding push_item
  push_item-size v x fits = ground (arith, fits)

  push_items-Pushes :
      (xs : List A) (v : Vector A) (d : A)
      → 0 < v.size
      → v.size + length xs < 2 ^ 32
      → Pushes v xs d (push_items v xs)
  push_items-Pushes [] v d some_ fits = record {
    size = omega arith;
    items = λ i lt. absurd (omega arith);
    others = λ i away. refl;
  }
  push_items-Pushes (x ∷ xs) v d some_ fits =
      let grown : (push_item v x).size ≡ v.size + 1 = push_item-size v x (omega arith) in
      let p =
        push_items-Pushes xs (push_item v x) d (omega (arith, grown)) (omega (arith, grown)) in
      record {
        size = omega (arith, p.size, grown);
        items = λ i lt. item i p grown lt;
        others = λ i away.
            p.others i (omega (arith, away, grown))
            ∙ push_item-other v x i some_ (omega arith) (omega (arith, away));
      }
    where
      item :
          (i : ℕ)
          → Pushes (push_item v x) xs d (push_items (push_item v x) xs)
          → (push_item v x).size ≡ v.size + 1
          → i < length (x ∷ xs)
          → (push_items (push_item v x) xs).cells (v.size - 1 + i) ≡ get_or (x ∷ xs) i d
      item zero p grown lt =
          let place : v.size - 1 + 0 ≡ v.size - 1 = omega arith in
          ap (push_items (push_item v x) xs).cells place
          ∙ p.others (v.size - 1) (omega (arith, grown))
          ∙ push_item-here v x some_ (omega arith)
      item (suc i) p grown lt =
          let place : v.size - 1 + suc i ≡ (push_item v x).size - 1 + i = omega (arith, grown) in
          ap (push_items (push_item v x) xs).cells place ∙ p.items i (omega arith)

  -- The first item goes to the place before the vector.
  push_item-first :
      (z x : A) (c : ℕ → A) (element_max_size : ℕ)
      → ((push_item (zeroed_vector z c element_max_size 0) x).size ≡ 1)
        × ((i : ℕ)
            → i < element_max_size
            → i < 2 ^ 32 - 1
            → (push_item (zeroed_vector z c element_max_size 0) x).cells i ≡ z)
  unfolding push_item zeroed_vector
  push_item-first z x c element_max_size = (
    refl,
    λ i inside low.
        let away : (i == 2 ^ 32 - 1) ≡ false = ne→== _ _ (omega arith) in
        let zeroed : ltb i element_max_size ≡ true = lt→ltb _ _ inside in rw (away, zeroed) refl,
  )

  item_at-inside : (v : Vector A) (i : ℕ) → i < v.size → item_at v i ≡ v.cells i
  unfolding item_at
  item_at-inside v i lt = (let e : ltb i v.size ≡ true = lt→ltb _ _ lt in rw e refl)

  -- A zeroed vector of no items, after `push_item` of some items for which it has room: there are as many
  -- items as were pushed, but the first is lost, each other one stands one place too low, and the last place
  -- holds the zero.
  pub push_items-item_at :
      (z x : A) (c : ℕ → A) (element_max_size : ℕ) (xs : List A)
      → length (x ∷ xs) ≤ element_max_size
      → element_max_size < 2 ^ 32 - 1
      → (let v = push_items (zeroed_vector z c element_max_size 0) (x ∷ xs) in
          (v.size ≡ length (x ∷ xs))
          × ((i : ℕ) → i < length xs → item_at v i ≡ get_or xs i z)
          × (item_at v (length xs) ≡ z))
  push_items-item_at z x c element_max_size xs room small =
      let (one, zeros) = push_item-first z x c element_max_size in
      let v1 = push_item (zeroed_vector z c element_max_size 0) x in
      let v = push_items v1 xs in
      let p = push_items-Pushes xs v1 z (omega (arith, one)) (omega (arith, one)) in
      let size : v.size ≡ length (x ∷ xs) = omega (arith, p.size, one) in
      (
        size,
        λ i lt.
            let place : i ≡ v1.size - 1 + i = omega (arith, one) in
            item_at-inside v i (omega (arith, size)) ∙ ap v.cells place ∙ p.items i lt,
        item_at-inside v (length xs) (omega (arith, size))
            ∙ p.others (length xs) (omega (arith, one))
            ∙ zeros (length xs) (omega arith) (omega arith),
      )
