-- ===== src/Crafting/Output/Made.antt =====
-- What `getCraftingOutput` of crafting.c can answer.
use macintosh_craft.Base.{
  ℕ, ◌≤◌, ◌≡◌, refl, Bool, true, false, Option, none, some, List, [], ◌∷◌, arith, if◌then◌else◌,
  ◌==◌, Bool-cases, ◌⊎◌, inl, inr, leb, ◌&&◌,
}
use macintosh_craft.Registry.{Registry, Item}
use macintosh_craft.Players.{PlayerData}
use macintosh_craft.Crafting.Recipes.{
  switch_item, one_item, two_items, tool_column, three_items, four_items,
}
use macintosh_craft.Crafting.Recipes.Large.{
  or_else, helmet, five_items, seven_items, eight_items, nine_items,
}
use macintosh_craft.Crafting.Output.{Filling, filling, find_product, get_crafting_output}

-- Nothing, or between one and nine of an item.
data IsMade : Option (ℕ × ℕ) → Type 0 where
  nothing : IsMade none
  made : (item count : ℕ) → 1 ≤ count → count ≤ 9 → IsMade (some (item, count))

IsMade-if : (b : Bool) {x y : Option (ℕ × ℕ)} → IsMade x → IsMade y → IsMade (if b then x else y)
IsMade-if true u v = u
IsMade-if false u v = v

IsMade-or_else : {x y : Option (ℕ × ℕ)} → IsMade x → IsMade y → IsMade (or_else x y)
unfolding or_else
IsMade-or_else nothing v = v
IsMade-or_else (made item count lo hi) v = made item count lo hi

-- A table's counts are between one and nine.
unfoldable are_small : List (Item × Item × ℕ) → Bool
are_small [] = true
are_small ((_, _, n) ∷ rest) = leb 1 n && (leb n 9 && are_small rest)

small_parts :
    (n : ℕ) (rest : Bool)
    → (leb 1 n && (leb n 9 && rest)) ≡ true
    → (1 ≤ n) × (n ≤ 9) × (rest ≡ true)
small_parts n rest h = (ground arith, ground arith, ground arith)

switch_item-IsMade :
    (r : Registry) (item : ℕ) (table : List (Item × Item × ℕ))
    → are_small table ≡ true
    → IsMade (switch_item r item table)
unfolding switch_item are_small
switch_item-IsMade r item [] h = nothing
switch_item-IsMade r item ((a, b, n) ∷ rest) h =
    let (lo, hi, t) = small_parts n (are_small rest) h in
    IsMade-if (item == r.item a) (made (r.item b) n lo hi) (switch_item-IsMade r item rest t)

one_item-IsMade : (r : Registry) (item : ℕ) → IsMade (one_item r item)
unfolding one_item are_small
one_item-IsMade r item = switch_item-IsMade r item _ refl

module _ (r : Registry) (g : ℕ → ℕ) (first : ℕ) where
  -- One or four of an item, as the recipes write it.
  one_of : (item : ℕ) → IsMade (some (item, 1))
  one_of item = made item 1 (omega arith) (omega arith)

  four_of : (item : ℕ) → IsMade (some (item, 4))
  four_of item = made item 4 (omega arith) (omega arith)

  two_items-IsMade : IsMade (two_items r g first)
  unfolding two_items
  two_items-IsMade = search (IsMade-if, one_of, four_of, nothing)

  six_of : (item : ℕ) → IsMade (some (item, 6))
  six_of item = made item 6 (omega arith) (omega arith)

  module _ (old : ℕ) where
    tool_column-IsMade : IsMade (tool_column r g first old)
    unfolding tool_column
    tool_column-IsMade = search (IsMade-if, one_of, nothing)

    three_items-IsMade : IsMade (three_items r g first old)
    unfolding three_items
    three_items-IsMade = search (IsMade-if, six_of, nothing, tool_column-IsMade)

    four_items-IsMade : IsMade (four_items r g first old)
    unfolding four_items are_small
    four_items-IsMade = search (IsMade-if, one_of, nothing, switch_item-IsMade)

    helmet-IsMade : IsMade (helmet r g first old)
    unfolding helmet
    helmet-IsMade = search (IsMade-if, one_of, nothing)

    five_items-IsMade : IsMade (five_items r g first old)
    unfolding five_items
    five_items-IsMade = search (IsMade-if, one_of, nothing, helmet-IsMade)

  module _ (identical : Bool) where
    seven_items-IsMade : IsMade (seven_items r g first identical)
    unfolding seven_items are_small
    seven_items-IsMade = search (IsMade-if, IsMade-or_else, one_of, nothing, switch_item-IsMade)

    eight_items-IsMade : IsMade (eight_items r g first identical)
    unfolding eight_items are_small
    eight_items-IsMade = search (IsMade-if, nothing, switch_item-IsMade)

    nine_items-IsMade : IsMade (nine_items r g first identical)
    unfolding nine_items are_small
    nine_items-IsMade = search (IsMade-if, nothing, switch_item-IsMade)

find_product-IsMade :
    (r : Registry) (g : ℕ → ℕ) (s : Filling) (old : ℕ) → IsMade (find_product r g s old)
unfolding find_product
find_product-IsMade r g s old =
    search
      (
        IsMade-if, nothing, one_item-IsMade, two_items-IsMade, three_items-IsMade,
        four_items-IsMade, five_items-IsMade, seven_items-IsMade, eight_items-IsMade,
        nine_items-IsMade,
      )
      depth 12

product_counts :
    {o : Option (ℕ × ℕ)}
    → IsMade o
    → let result = elim o as (λ _. ℕ × ℕ) [ some x ↦ x | none ↦ (0, 0) ] in
      (result ≡ (0, 0)) ⊎ ((1 ≤ result.1) × (result.1 ≤ 9))
product_counts nothing = inl refl
product_counts (made item count lo hi) = inr (lo, hi)

-- Whatever lies in the grid, `getCraftingOutput` answers with no item at all, both numbers 0, or
-- with between one and nine items. A locked grid is never answered with an item.
pub get_crafting_output-count :
    (r : Registry) (p : PlayerData) (old : ℕ)
    → let result = get_crafting_output r p old in
      (result ≡ (0, 0)) ⊎ ((p.flags.locked ≡ false) × (1 ≤ result.1) × (result.1 ≤ 9))
unfolding get_crafting_output
get_crafting_output-count r p old = elim (Bool-cases p.flags.locked) [
  | inl locked ↦ rw locked (inl refl)
  | inr free ↦
      rw free
        (elim (product_counts (find_product-IsMade r p.craft_items (filling p.craft_items) old)) [
          | inl none_made ↦ inl none_made
          | inr (lo, hi) ↦ inr (refl, lo, hi)
        ])
]
