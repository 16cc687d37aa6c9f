-- ===== src/Crafting/Recipes.antt =====
-- The recipes of `getCraftingOutput` in crafting.c for up to four items. A recipe that applies gives
-- the product's item and count; a `break` out of the recipes gives nothing. `g` is `craft_items`,
-- and `old` is what `*item` held before the call, which some branches leave there.
pub mod Large
use macintosh_craft.Base.{
  ℕ, zero, suc, ◌+◌, ◌/◌, ◌%◌, Bool, true, false, not, ◌&&◌, ◌||◌, Option, none, some, List, [],
  ◌∷◌, ltb, ◌==◌, if◌then◌else◌,
}
use macintosh_craft.Registry.{Registry, Item}
use macintosh_craft.Items.{is_one_of}
use macintosh_craft.Players.{PlayerData}

-- `if (first_item == I_a) *item = I_b; else if ...`
unfoldable pub item_for : Registry → ℕ → ℕ → List (Item × Item) → ℕ
item_for r first_item old [] = old
item_for r first_item old ((a, b) ∷ rest) =
    let others = item_for r first_item old rest in
    if first_item == r.item a then r.item b else others

-- `switch (first_item) { case I_a: *item = I_b; *count = n; return; ... }`
unfoldable pub switch_item : Registry → ℕ → List (Item × Item × ℕ) → Option (ℕ × ℕ)
switch_item r first_item [] = none
switch_item r first_item ((a, b, n) ∷ rest) =
    let others = switch_item r first_item rest in
    if first_item == r.item a then some (r.item b, n) else others

unfoldable pub one_item : Registry → ℕ → Option (ℕ × ℕ)
one_item r first_item = switch_item r first_item (
    (Item.oak_log, Item.oak_planks, 4)
    ∷ (Item.oak_planks, Item.oak_button, 1)
    ∷ (Item.iron_block, Item.iron_ingot, 9)
    ∷ (Item.gold_block, Item.gold_ingot, 9)
    ∷ (Item.diamond_block, Item.diamond, 9)
    ∷ (Item.redstone_block, Item.redstone, 9)
    ∷ (Item.coal_block, Item.coal, 9)
    ∷ (Item.copper_block, Item.copper_ingot, 9)
    ∷ [])

unfoldable pub two_items : Registry → (ℕ → ℕ) → ℕ → Option (ℕ × ℕ)
two_items r g first =
    let col = first % 3 in
    let row = first / 3 in
    let planks = r.item Item.oak_planks in
    let iron = r.item Item.iron_ingot in
    if g first == planks
    then (if not (col == 2) && g (first + 1) == planks
        then some (r.item Item.oak_pressure_plate, 1)
        else if not (row == 2) && g (first + 3) == planks
        then some (r.item Item.stick, 4)
        else none)
    else if is_one_of r (g first) (Item.charcoal ∷ Item.coal ∷ [])
    then (if not (row == 2) && g (first + 3) == r.item Item.stick
        then some (r.item Item.torch, 4)
        else none)
    else if g first == iron
    then (if not (row == 2) && not (col == 2) && g (first + 4) == iron
          || not (row == 2) && not (col == 0) && g (first + 2) == iron
        then some (r.item Item.shears, 1)
        else none)
    else none

-- The recipes for shovels and swords.
unfoldable pub tool_column : Registry → (ℕ → ℕ) → ℕ → ℕ → Option (ℕ × ℕ)
tool_column r g first old =
    let stick = r.item Item.stick in
    if first / 3 == 0 && g (first + 3) == stick && g (first + 6) == stick
    then some (
      item_for r (g first) old (
          (Item.oak_planks, Item.wooden_shovel)
          ∷ (Item.cobblestone, Item.stone_shovel)
          ∷ (Item.iron_ingot, Item.iron_shovel)
          ∷ (Item.gold_ingot, Item.golden_shovel)
          ∷ (Item.diamond, Item.diamond_shovel)
          ∷ (Item.netherite_ingot, Item.netherite_shovel)
          ∷ []),
      1,
    )
    else if first / 3 == 0 && g (first + 3) == g first && g (first + 6) == stick
    then some (
      item_for r (g first) old (
          (Item.oak_planks, Item.wooden_sword)
          ∷ (Item.cobblestone, Item.stone_sword)
          ∷ (Item.iron_ingot, Item.iron_sword)
          ∷ (Item.gold_ingot, Item.golden_sword)
          ∷ (Item.diamond, Item.diamond_sword)
          ∷ (Item.netherite_ingot, Item.netherite_sword)
          ∷ []),
      1,
    )
    else none

-- The slabs' labels fall through to those of the tools.
unfoldable pub three_items : Registry → (ℕ → ℕ) → ℕ → ℕ → Option (ℕ × ℕ)
three_items r g first old =
    if is_one_of r (g first)
      (Item.oak_planks ∷ Item.cobblestone ∷ Item.stone ∷ Item.snow_block ∷ [])
    then (if first % 3 == 0 && g (first + 1) == g first && g (first + 2) == g first
        then some (
          item_for r (g first) old (
              (Item.oak_planks, Item.oak_slab)
              ∷ (Item.cobblestone, Item.cobblestone_slab)
              ∷ (Item.stone, Item.stone_slab)
              ∷ (Item.snow_block, Item.snow)
              ∷ []),
          6,
        )
        else tool_column r g first old)
    else if is_one_of r (g first)
        (Item.iron_ingot ∷ Item.gold_ingot ∷ Item.diamond ∷ Item.netherite_ingot ∷ [])
    then tool_column r g first old
    else none

unfoldable pub four_items : Registry → (ℕ → ℕ) → ℕ → ℕ → Option (ℕ × ℕ)
four_items r g first old =
    let item = g first in
    if is_one_of r item (Item.oak_planks ∷ Item.oak_log ∷ Item.snowball ∷ [])
    then (if not (first % 3 == 2)
          && not (first / 3 == 2)
          && g (first + 1) == item
          && g (first + 3) == item
          && g (first + 4) == item
        then switch_item r item (
            (Item.oak_planks, Item.crafting_table, 1)
            ∷ (Item.oak_log, Item.oak_wood, 3)
            ∷ (Item.snowball, Item.snow_block, 3)
            ∷ [])
        else none)
    else if is_one_of r item (
        Item.leather ∷ Item.iron_ingot ∷ Item.gold_ingot ∷ Item.diamond ∷ Item.netherite_ingot ∷ [])
    then (if first % 3 == 0
          && ltb (first / 3) 2
          && g (first + 2) == item
          && g (first + 3) == item
          && g (first + 5) == item
        then some (
          item_for r item old (
              (Item.leather, Item.leather_boots)
              ∷ (Item.iron_ingot, Item.iron_boots)
              ∷ (Item.gold_ingot, Item.golden_boots)
              ∷ (Item.diamond, Item.diamond_boots)
              ∷ (Item.netherite_ingot, Item.netherite_boots)
              ∷ []),
          1,
        )
        else none)
    else none
