-- ===== src/Items.antt =====
-- The tables of items and blocks in procedures.c.
pub mod Armor
use macintosh_craft.Base.{ℕ, ◌+◌, ◌-◌, ◌^◌, Bool, true, false, not, ◌&&◌, ◌||◌, List, [], ◌∷◌}
use macintosh_craft.Base.{ltb, leb, ◌==◌, if◌then◌else◌}
use macintosh_craft.Registry.{Registry, Block, Item}

-- The chains of comparisons `item == I_a || item == I_b || ...`
unfoldable pub is_one_of : Registry → ℕ → List Item → Bool
is_one_of r item [] = false
is_one_of r item (i ∷ is) = item == r.item i || is_one_of r item is

unfoldable pub is_block : Registry → ℕ → List Block → Bool
is_block r block [] = false
is_block r block (b ∷ bs) = block == r.block b || is_block r block bs

abbrev pub pickaxes : List Item
pickaxes =
    Item.wooden_pickaxe ∷ Item.stone_pickaxe ∷ Item.iron_pickaxe ∷ Item.golden_pickaxe
    ∷ Item.diamond_pickaxe ∷ Item.netherite_pickaxe ∷ []

abbrev pub iron_pickaxes : List Item
iron_pickaxes =
    Item.iron_pickaxe ∷ Item.golden_pickaxe ∷ Item.diamond_pickaxe ∷ Item.netherite_pickaxe ∷ []

abbrev pub axes : List Item
axes =
    Item.wooden_axe ∷ Item.stone_axe ∷ Item.iron_axe ∷ Item.golden_axe ∷ Item.diamond_axe
    ∷ Item.netherite_axe ∷ []

abbrev pub shovels : List Item
shovels =
    Item.wooden_shovel ∷ Item.stone_shovel ∷ Item.iron_shovel ∷ Item.golden_shovel
    ∷ Item.diamond_shovel ∷ Item.netherite_shovel ∷ []

abbrev pub swords : List Item
swords =
    Item.wooden_sword ∷ Item.stone_sword ∷ Item.iron_sword ∷ Item.golden_sword ∷ Item.diamond_sword
    ∷ Item.netherite_sword ∷ []

abbrev pub hoes : List Item
hoes =
    Item.wooden_hoe ∷ Item.stone_hoe ∷ Item.iron_hoe ∷ Item.golden_hoe ∷ Item.diamond_hoe
    ∷ Item.netherite_hoe ∷ []

unfoldable pub get_item_stack_size : Registry → ℕ → ℕ
get_item_stack_size r item =
    if is_one_of r item pickaxes
      || is_one_of r item axes
      || is_one_of r item shovels
      || is_one_of r item swords
      || is_one_of r item hoes
      || item == r.item Item.shears
    then 1
    else if item == r.item Item.snowball
    then 16
    else 64

-- Items that are mined by hand or with any tool give `block_to_item`; 0 is nothing. `r` is the
-- random number that leaves draw, or what a tool-bound block does not look at.
unfoldable pub get_mining_result : Registry → ℕ → ℕ → ℕ → ℕ
get_mining_result g random held_item block =
    if block == g.block Block.oak_leaves
    then (if held_item == g.item Item.shears
        then g.item Item.oak_leaves
        else if ltb random 21474836
        then g.item Item.apple
        else if ltb random 85899345
        then g.item Item.stick
        else if ltb random 214748364
        then g.item Item.oak_sapling
        else 0)
    else if is_block g block (
          Block.stone ∷ Block.cobblestone ∷ Block.stone_slab ∷ Block.cobblestone_slab
          ∷ Block.sandstone ∷ Block.furnace ∷ Block.coal_ore ∷ Block.iron_ore ∷ Block.iron_block
          ∷ Block.gold_block ∷ Block.diamond_block ∷ Block.redstone_block ∷ Block.coal_block ∷ [])
        && not (is_one_of g held_item pickaxes)
    then 0
    else if is_block g block (Block.gold_ore ∷ Block.redstone_ore ∷ Block.diamond_ore ∷ [])
        && not (is_one_of g held_item iron_pickaxes)
    then 0
    else if block == g.block Block.snow && not (is_one_of g held_item shovels)
    then 0
    else g.block_to_item block

-- The chance, out of 2 ^ 32, that the held tool breaks.
unfoldable pub breaks : Registry → ℕ → ℕ → Bool
breaks g held_item random =
    (is_one_of g held_item (Item.wooden_pickaxe ∷ Item.wooden_axe ∷ Item.wooden_shovel ∷ [])
      && ltb random 72796055)
    || (is_one_of g held_item (Item.stone_pickaxe ∷ Item.stone_axe ∷ Item.stone_shovel ∷ [])
        && ltb random 32786009)
    || (is_one_of g held_item (Item.iron_pickaxe ∷ Item.iron_axe ∷ Item.iron_shovel ∷ [])
        && ltb random 17179869)
    || (is_one_of g held_item (Item.golden_pickaxe ∷ Item.golden_axe ∷ Item.golden_shovel ∷ [])
        && ltb random 134217728)
    || (is_one_of g held_item (Item.diamond_pickaxe ∷ Item.diamond_axe ∷ Item.diamond_shovel ∷ [])
        && ltb random 2751420)
    || (is_one_of g held_item
          (Item.netherite_pickaxe ∷ Item.netherite_axe ∷ Item.netherite_shovel ∷ [])
        && ltb random 2114705)
    || (held_item == g.item Item.shears && ltb random 18046081)

unfoldable pub is_instantly_mined : Registry → ℕ → ℕ → Bool
is_instantly_mined g held_item block =
    if block == g.block Block.snow || block == g.block Block.snow_block
    then is_one_of g held_item (
        Item.stone_shovel ∷ Item.iron_shovel ∷ Item.diamond_shovel ∷ Item.netherite_shovel
        ∷ Item.golden_shovel ∷ [])
    else if block == g.block Block.oak_leaves
    then held_item == g.item Item.shears
    else is_block g block (
        Block.dead_bush ∷ Block.short_grass ∷ Block.torch ∷ Block.lily_pad ∷ Block.oak_sapling ∷ [])

unfoldable pub is_column_block : Registry → ℕ → Bool
is_column_block g block = is_block g block (
    Block.snow ∷ Block.moss_carpet ∷ Block.cactus ∷ Block.short_grass ∷ Block.dead_bush ∷ Block.sand
    ∷ Block.torch ∷ Block.oak_sapling ∷ [])

-- Eight levels of water, four of lava.
abbrev pub is_water : Registry → ℕ → Bool
is_water g block = leb (g.block Block.water) block && ltb block (g.block Block.water + 8)

abbrev pub is_lava : Registry → ℕ → Bool
is_lava g block = leb (g.block Block.lava) block && ltb block (g.block Block.lava + 4)

unfoldable pub is_passable_block : Registry → ℕ → Bool
is_passable_block g block =
    block == g.block Block.air
    || is_water g block
    || is_lava g block
    || is_block g block
        (Block.snow ∷ Block.moss_carpet ∷ Block.short_grass ∷ Block.dead_bush ∷ Block.torch ∷ [])

unfoldable pub is_passable_spawn_block : Registry → ℕ → Bool
is_passable_spawn_block g block =
    if is_water g block || is_lava g block then false else is_passable_block g block

unfoldable pub is_replaceable_block : Registry → ℕ → Bool
is_replaceable_block g block =
    block == g.block Block.air
    || is_water g block
    || is_lava g block
    || is_block g block (Block.short_grass ∷ Block.snow ∷ [])

unfoldable pub is_replaceable_fluid : Registry → ℕ → ℕ → ℕ → Bool
is_replaceable_fluid g block level fluid =
    if leb fluid block && ltb (block - fluid) 8
    then ltb level (block - fluid)
    else is_replaceable_block g block

-- The chance, out of 2 ^ 32, that a composter returns bone meal.
unfoldable pub is_compost_item : Registry → ℕ → ℕ
is_compost_item g item =
    if is_one_of g item (
      Item.oak_leaves ∷ Item.short_grass ∷ Item.wheat_seeds ∷ Item.oak_sapling ∷ Item.moss_carpet
      ∷ [])
    then 184070026
    else if is_one_of g item (Item.cactus ∷ Item.sugar_cane ∷ [])
    then 306783378
    else if is_one_of g item (Item.apple ∷ Item.lily_pad ∷ [])
    then 398818392
    else 0
