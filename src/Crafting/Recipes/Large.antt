-- ===== src/Crafting/Recipes/Large.antt =====
-- The recipes of `getCraftingOutput` for five to nine items.
use macintosh_craft.Base.{
  ℕ, ◌+◌, ◌/◌, ◌%◌, Bool, not, ◌&&◌, ◌||◌, Option, none, some, [], ◌∷◌, ltb, ◌==◌, if◌then◌else◌,
}
use macintosh_craft.Registry.{Registry, Item}
use macintosh_craft.Items.{is_one_of}
use macintosh_craft.Crafting.Recipes.{item_for, switch_item}

unfoldable pub helmet : Registry → (ℕ → ℕ) → ℕ → ℕ → Option (ℕ × ℕ)
helmet r g first old =
    let item = g first in
    if first % 3 == 0
      && ltb (first / 3) 2
      && g (first + 1) == item
      && g (first + 2) == item
      && g (first + 3) == item
      && g (first + 5) == item
    then some (
      item_for r item old (
          (Item.leather, Item.leather_helmet)
          ∷ (Item.iron_ingot, Item.iron_helmet)
          ∷ (Item.gold_ingot, Item.golden_helmet)
          ∷ (Item.diamond, Item.diamond_helmet)
          ∷ (Item.netherite_ingot, Item.netherite_helmet)
          ∷ []),
      1,
    )
    else none

-- The tools' labels fall through to the helmets', but for planks and cobblestone.
unfoldable pub five_items : Registry → (ℕ → ℕ) → ℕ → ℕ → Option (ℕ × ℕ)
five_items r g first old =
    let item = g first in
    let stick = r.item Item.stick in
    if is_one_of r item (
      Item.oak_planks ∷ Item.cobblestone ∷ Item.iron_ingot ∷ Item.gold_ingot ∷ Item.diamond
      ∷ Item.netherite_ingot ∷ [])
    then (if first == 0
          && g (first + 1) == item
          && g (first + 2) == item
          && g (first + 4) == stick
          && g (first + 7) == stick
        then some (
          item_for r item old (
              (Item.oak_planks, Item.wooden_pickaxe)
              ∷ (Item.cobblestone, Item.stone_pickaxe)
              ∷ (Item.iron_ingot, Item.iron_pickaxe)
              ∷ (Item.gold_ingot, Item.golden_pickaxe)
              ∷ (Item.diamond, Item.diamond_pickaxe)
              ∷ (Item.netherite_ingot, Item.netherite_pickaxe)
              ∷ []),
          1,
        )
        else if ltb first 2
            && g (first + 1) == item
            && (g (first + 3) == item && g (first + 4) == stick && g (first + 7) == stick
                || g (first + 4) == item && g (first + 3) == stick && g (first + 6) == stick)
        then some (
          item_for r item old (
              (Item.oak_planks, Item.wooden_axe)
              ∷ (Item.cobblestone, Item.stone_axe)
              ∷ (Item.iron_ingot, Item.iron_axe)
              ∷ (Item.gold_ingot, Item.golden_axe)
              ∷ (Item.diamond, Item.diamond_axe)
              ∷ (Item.netherite_ingot, Item.netherite_axe)
              ∷ []),
          1,
        )
        else if is_one_of r item (Item.oak_planks ∷ Item.cobblestone ∷ [])
        then none
        else helmet r g first old)
    else if item == r.item Item.leather
    then helmet r g first old
    else none

-- What follows a `switch` that gave nothing.
unfoldable pub or_else : Option (ℕ × ℕ) → Option (ℕ × ℕ) → Option (ℕ × ℕ)
or_else (some x) y = some x
or_else none y = y

-- Leggings, and the composter.
unfoldable pub seven_items : Registry → (ℕ → ℕ) → ℕ → Bool → Option (ℕ × ℕ)
seven_items r g first identical =
    let item = g first in
    let leggings : Option (ℕ × ℕ) =
      if identical && g 4 == 0 && g 7 == 0
      then switch_item r item (
          (Item.leather, Item.leather_leggings, 1)
          ∷ (Item.iron_ingot, Item.iron_leggings, 1)
          ∷ (Item.gold_ingot, Item.golden_leggings, 1)
          ∷ (Item.diamond, Item.diamond_leggings, 1)
          ∷ (Item.netherite_ingot, Item.netherite_leggings, 1)
          ∷ [])
      else none in
    or_else leggings (
      if item == r.item Item.oak_slab && identical && g 1 == 0 && g 4 == 0
      then some (r.item Item.composter, 1)
      else none)

-- With ALLOW_CHESTS.
unfoldable pub eight_items : Registry → (ℕ → ℕ) → ℕ → Bool → Option (ℕ × ℕ)
eight_items r g first identical =
    let item = g first in
    if not identical
    then none
    else if g 4 == 0
    then switch_item r item
        ((Item.cobblestone, Item.furnace, 1) ∷ (Item.oak_planks, Item.chest, 1) ∷ [])
    else if g 1 == 0
    then switch_item r item (
        (Item.leather, Item.leather_chestplate, 1)
        ∷ (Item.iron_ingot, Item.iron_chestplate, 1)
        ∷ (Item.gold_ingot, Item.golden_chestplate, 1)
        ∷ (Item.diamond, Item.diamond_chestplate, 1)
        ∷ (Item.netherite_ingot, Item.netherite_chestplate, 1)
        ∷ [])
    else none

unfoldable pub nine_items : Registry → (ℕ → ℕ) → ℕ → Bool → Option (ℕ × ℕ)
nine_items r g first identical =
    if identical
    then switch_item r (g first) (
        (Item.iron_ingot, Item.iron_block, 1)
        ∷ (Item.gold_ingot, Item.gold_block, 1)
        ∷ (Item.diamond, Item.diamond_block, 1)
        ∷ (Item.redstone, Item.redstone_block, 1)
        ∷ (Item.coal, Item.coal_block, 1)
        ∷ (Item.copper_ingot, Item.copper_block, 1)
        ∷ [])
    else none
