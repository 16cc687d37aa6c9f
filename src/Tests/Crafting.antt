-- ===== src/Tests/Crafting.antt =====
-- Furnaces and crafting grids, at concrete values.
use macintosh_craft.Base.{◌*◌, ℕ, ◌+◌, ◌≤◌, ◌≡◌, refl, some, false, ◌⊎◌, if◌then◌else◌, ◌==◌}
use macintosh_craft.Players.{PlayerData}
use macintosh_craft.Items.{is_one_of}
use macintosh_craft.Crafting.Smelting.{
  get_smelting_output, smelt_loop, smelt_round, burn, find_recipe, fuel_value, Furnace, furnace_of,
}
use macintosh_craft.Crafting.Smelting.Balance
use macintosh_craft.Crafting.Recipes.{item_for, three_items, tool_column}
use macintosh_craft.Crafting.Output.{get_crafting_output, find_product, count_slots, count_slot}
use macintosh_craft.Crafting.Output.Made
use macintosh_craft.Tests.Data.{numbers, miner, smith}

-- Two pieces of coal turn 16 of 20 raw iron into ingots.
abbrev smelted : Furnace
smelted = record {
  material = 53;
  fuel = 0;
  output_item = 55;
  material_count = 4;
  fuel_count = 0;
  output_count = 16;
  rng_seed = 7;
}

smelt_iron : smelt_loop 3 numbers (furnace_of smith 7) ≡ some smelted
unfolding smelt_loop smelt_round burn find_recipe fuel_value is_one_of
smelt_iron = refl

get_smelting_output-balance_example :
    (q : PlayerData) × (seed' : ℕ) × (wraps : ℕ) × (get_smelting_output numbers smith 7
      ≡ some (q, seed'))
    × (q.craft_count 0 + q.craft_count 2 + 256 * wraps ≡ 20)
    × (q.craft_count 0 ≤ 20)
    × (q.craft_count 1 ≤ 2)
get_smelting_output-balance_example = Balance.get_smelting_output-balance numbers smith 7

-- A sword's grid: two diamonds above a stick, in the middle column.
abbrev sword_smith : PlayerData
sword_smith = record miner {
  craft_items = λ i. if i == 1 then 51 else if i == 4 then 51 else if i == 7 then 56 else 0;
}

craft_sword : get_crafting_output numbers sword_smith 0 ≡ (57, 1)
unfolding get_crafting_output find_product count_slots count_slot three_items tool_column is_one_of
    item_for
craft_sword = refl

-- A stone above two sticks is answered with one item of whatever number was there before.
abbrev stone_smith : PlayerData
stone_smith = record miner {
  craft_items = λ i. if i == 1 then 58 else if i == 4 then 56 else if i == 7 then 56 else 0;
}

craft_stone : get_crafting_output numbers stone_smith 1234 ≡ (1234, 1)
unfolding get_crafting_output find_product count_slots count_slot three_items tool_column is_one_of
    item_for
craft_stone = refl

get_crafting_output-count_example :
    let result = get_crafting_output numbers sword_smith 0 in
    (result ≡ (0, 0)) ⊎ ((sword_smith.flags.locked ≡ false) × (1 ≤ result.1) × (result.1 ≤ 9))
get_crafting_output-count_example = Made.get_crafting_output-count numbers sword_smith 0
