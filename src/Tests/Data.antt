-- ===== src/Tests/Data.antt =====
-- A world for the tests: numbers for a few blocks, a seed, and one change among gaps.
use macintosh_craft.Base.{
  ℕ, ◌≡◌, refl, sym, ◌∙◌, Bool-cases, inl, inr, arith, true, false, if◌then◌else◌, ◌==◌,
}
use native.Mathlib.Decide.{ℕ_discrete}
use macintosh_craft.Base.Int.{pos, negsuc}
use macintosh_craft.Registry.{Registry, Block, Item, Biome}
use macintosh_craft.Terrain.{Generator}
use macintosh_craft.Players.{PlayerData}
use macintosh_craft.Base.{[]}
use macintosh_craft.World.Changes.{Changes, Place, gap, blank, change_at, set_block}
use macintosh_craft.World.Changes.Plain.{IsPlain, IsLive}
use macintosh_craft.World.Cache.{Cache, CachedSection}

abbrev pub block_number : Block → ℕ
block_number Block.stone = 1
block_number Block.dirt = 2
block_number Block.grass_block = 3
block_number Block.bedrock = 4
block_number Block.water = 5
block_number Block.sand = 6
block_number Block.torch = 7
block_number Block.chest = 8
block_number _ = 0

abbrev pub item_number : Item → ℕ
item_number Item.snowball = 50
item_number Item.diamond = 51
item_number Item.iron_sword = 52
item_number Item.raw_iron = 53
item_number Item.coal = 54
item_number Item.iron_ingot = 55
item_number Item.stick = 56
item_number Item.diamond_sword = 57
item_number Item.stone = 58
item_number _ = 60

abbrev pub biome_number : Biome → ℕ
biome_number Biome.beach = 0
biome_number Biome.desert = 1
biome_number Biome.mangrove_swamp = 2
biome_number Biome.plains = 3
biome_number Biome.snowy_plains = 4

abbrev pub numbers : Registry
numbers = record {
  block = block_number;
  item = item_number;
  biome = biome_number;
  block_to_item = λ b. b;
}

abbrev pub generator : Generator
generator = record {
  registry = numbers;
  world_seed = 0xA103DE6C;
  big_endian = true;
  wild_shift = λ h n. 0;
}

-- A gap, and sand at (17, 70, -3).
abbrev pub sand_place : Place
sand_place = record { x = pos 17; y = 70; z = negsuc 2 }

abbrev pub one_change : Changes
one_change = record {
  entries = λ i. if i == 1 then change_at sand_place 6 else set_block gap blank;
  count = 2;
}

only_one : (i : ℕ) → IsLive one_change i → i ≡ 1
only_one i live = elim (ℕ_discrete i 1) [
  | yes e ↦ e
  | no ne ↦ let off : (i == 1) ≡ false = ground arith in absurd (live (rw off refl))
]

sand_only : (i : ℕ) → ¬ ((one_change.entries i).block ≡ 8)
sand_only i e = elim (Bool-cases (i == 1)) [ inl t ↦ ground arith | inr t ↦ ground arith ]

pub one_change-IsPlain : IsPlain 8 one_change
one_change-IsPlain = record {
  bounded = omega arith;
  no_chest = λ i h e. sand_only i e;
  distinct = λ i j p hi hj li lj ai aj. only_one i li ∙ sym (only_one j lj);
}

abbrev pub no_section : CachedSection
no_section = record {
  key = record { cx = pos 0; cy = pos 0; cz = pos 0 };
  section = record { blocks = λ k. 0; biome = 0 };
  valid = false;
  lru_counter = 0;
}

abbrev pub empty_cache : Cache
empty_cache = record { entries = λ i. no_section; size = 64; clock = 0 }

-- A player with 10 diamonds in slot 3.
abbrev pub miner : PlayerData
miner = record {
  uuid = [];
  name = [];
  client_fd = pos 4;
  x = pos 8;
  y = 80;
  z = pos 8;
  visited_x = λ i. pos 0;
  visited_z = λ i. pos 0;
  yaw = pos 0;
  pitch = pos 0;
  grounded_y = 0;
  health = 20;
  hunger = 20;
  saturation = 2500;
  hotbar = 0;
  inventory_items = λ i. if i == 3 then 51 else 0;
  craft_items = λ i. 0;
  inventory_count = λ i. if i == 3 then 10 else 0;
  craft_count = λ i. 0;
  last_bx = pos 0;
  last_by = pos 0;
  last_bz = pos 0;
  flagval_16 = 0;
  flagval_8 = 0;
  flags = record { new = false; loading = false; locked = false; other = 0 };
}

-- A player with 20 raw iron and 2 coal in a furnace.
abbrev pub smith : PlayerData
smith = record miner {
  craft_items = λ i. if i == 0 then 53 else if i == 1 then 54 else 0;
  craft_count = λ i. if i == 0 then 20 else if i == 1 then 2 else 0;
}
