-- ===== src/Registry.antt =====
-- What the generated `registries.h` gives the program: the numbers of blocks, items and biomes.
-- The file is made by build_registries.js from the game's own data and is not in the repository,
-- so the numbers are a parameter, and theorems name what they need of it.
use macintosh_craft.Base.{ℕ}

-- The `B_*` names that the program uses.
pub data Block : Type 0 where
  air bedrock cactus chest coal_block coal_ore cobblestone cobblestone_slab composter : Block
  copper_ore crafting_table dead_bush diamond_block diamond_ore dirt furnace gold_block : Block
  gold_ore grass_block ice iron_block iron_ore lava lily_pad moss_carpet mud oak_leaves : Block
  oak_log oak_sapling redstone_block redstone_ore sand sandstone short_grass snow : Block
  snow_block snowy_grass_block stone stone_slab torch water : Block

-- The `I_*` names that the program uses.
pub data Item : Type 0 where
  apple beef bone_meal cactus charcoal chest chicken coal coal_block cobblestone : Item
  cobblestone_slab composter cooked_beef cooked_chicken cooked_mutton cooked_porkchop : Item
  copper_block copper_ingot crafting_table diamond diamond_axe diamond_block diamond_boots : Item
  diamond_chestplate diamond_helmet diamond_hoe diamond_leggings diamond_pickaxe : Item
  diamond_shovel diamond_sword furnace glass gold_block gold_ingot golden_axe golden_boots : Item
  golden_chestplate golden_helmet golden_hoe golden_leggings golden_pickaxe golden_shovel : Item
  golden_sword iron_axe iron_block iron_boots iron_chestplate iron_helmet iron_hoe : Item
  iron_ingot iron_leggings iron_pickaxe iron_shovel iron_sword leather leather_boots : Item
  leather_chestplate leather_helmet leather_leggings lily_pad moss_carpet mutton : Item
  netherite_axe netherite_boots netherite_chestplate netherite_helmet netherite_hoe : Item
  netherite_ingot netherite_leggings netherite_pickaxe netherite_shovel netherite_sword : Item
  oak_button oak_leaves oak_log oak_planks oak_pressure_plate oak_sapling oak_slab : Item
  oak_wood porkchop raw_gold raw_iron redstone redstone_block rotten_flesh sand shears : Item
  short_grass snow snow_block snowball stick stone stone_axe stone_hoe stone_pickaxe : Item
  stone_shovel stone_slab stone_sword sugar_cane torch wheat_seeds white_wool wooden_axe : Item
  wooden_hoe wooden_pickaxe wooden_shovel wooden_sword : Item

-- The `W_*` names that the program uses.
pub data Biome : Type 0 where
  beach desert mangrove_swamp plains snowy_plains : Biome

pub record Registry : Type 0 where
  pub block : Block → ℕ
  pub item : Item → ℕ
  pub biome : Biome → ℕ
  -- `B_to_I`
  pub block_to_item : ℕ → ℕ
