-- ===== src/Crafting/Output.antt =====
-- `getCraftingOutput` of crafting.c: the loop over the grid, and the choice of the recipes by the
-- number of slots that are filled.
pub mod Made
use macintosh_craft.Base.{
  ℕ, zero, suc, ◌+◌, ◌/◌, ◌%◌, Bool, true, false, not, ◌&&◌, ◌||◌, Option, none, some, List, [],
  ◌∷◌, ltb, ◌==◌, if◌then◌else◌,
}
use macintosh_craft.Registry.{Registry, Item}
use macintosh_craft.Items.{is_one_of}
use macintosh_craft.Players.{PlayerData}
use macintosh_craft.Crafting.Recipes.{one_item, two_items, three_items, four_items}
use macintosh_craft.Crafting.Recipes.Large.{five_items, seven_items, eight_items, nine_items}

-- The variables of the first loop.
pub record Filling : Type 0 where
  pub filled : ℕ
  pub first : ℕ
  pub identical : Bool

unfoldable pub count_slot : (ℕ → ℕ) → ℕ → Filling → Filling
count_slot g i s =
    if g i == 0
    then s
    else if s.first == 10
    then record { filled = s.filled + 1; first = i; identical = s.identical }
    else if g i == g s.first
    then record s { filled = s.filled + 1 }
    else record s { filled = s.filled + 1; identical = false }

-- `n` slots are left, from slot `i` on.
unfoldable pub count_slots : ℕ → (ℕ → ℕ) → ℕ → Filling → Filling
count_slots zero g i s = s
count_slots (suc n) g i s = count_slots n g (i + 1) (count_slot g i s)

abbrev pub filling : (ℕ → ℕ) → Filling
filling g = count_slots 9 g 0 (record { filled = 0; first = 10; identical = true })

-- No case for no item, for six or for more than nine.
unfoldable pub find_product : Registry → (ℕ → ℕ) → Filling → ℕ → Option (ℕ × ℕ)
find_product r g s old =
    if s.filled == 1
    then one_item r (g s.first)
    else if s.filled == 2
    then two_items r g s.first
    else if s.filled == 3
    then three_items r g s.first old
    else if s.filled == 4
    then four_items r g s.first old
    else if s.filled == 5
    then five_items r g s.first old
    else if s.filled == 7
    then seven_items r g s.first s.identical
    else if s.filled == 8
    then eight_items r g s.first s.identical
    else if s.filled == 9
    then nine_items r g s.first s.identical
    else none

-- `*item` and `*count` after the call. A locked grid gives nothing.
unfoldable pub get_crafting_output : Registry → PlayerData → ℕ → ℕ × ℕ
get_crafting_output r p old =
    let product = find_product r p.craft_items (filling p.craft_items) old in
    if p.flags.locked then (0, 0) else elim product [ some made ↦ made | none ↦ (0, 0) ]
