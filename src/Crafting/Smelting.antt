-- ===== src/Crafting/Smelting.antt =====
-- `getSmeltingOutput` of crafting.c.
pub mod Balance
use macintosh_craft.Base.{
  ℕ, zero, suc, ◌+◌, ◌-◌, ◌*◌, ◌%◌, Bool, ◌&&◌, ◌||◌, Option, none, some, List, [], ◌∷◌, ltb, ◌==◌,
  if◌then◌else◌,
}
use macintosh_craft.Base.Array.{update}
use macintosh_craft.Registry.{Registry, Item}
use macintosh_craft.Tools.{fast_rand}
use macintosh_craft.Items.{is_one_of}
use macintosh_craft.Players.{PlayerData}

-- What the pointers into `craft_items` and `craft_count` point at, and `rng_seed`.
pub record Furnace : Type 0 where
  pub material : ℕ
  pub fuel : ℕ
  pub output_item : ℕ
  pub material_count : ℕ
  pub fuel_count : ℕ
  pub output_count : ℕ
  pub rng_seed : ℕ

-- The fuel's value and the seed after it was drawn, or nothing for what does not burn.
unfoldable pub fuel_value : Registry → ℕ → ℕ → Option (ℕ × ℕ)
fuel_value r fuel seed =
    let drawn = fast_rand seed in
    if is_one_of r fuel (Item.coal ∷ Item.charcoal ∷ [])
    then some (8, seed)
    else if fuel == r.item Item.coal_block
    then some (80, seed)
    else if is_one_of r fuel (Item.oak_planks ∷ Item.oak_log ∷ Item.crafting_table ∷ [])
    then some (1 + drawn % 2, drawn)
    else if is_one_of r fuel (Item.stick ∷ Item.oak_sapling ∷ [])
    then some (drawn % 2, drawn)
    else if is_one_of r fuel (
        Item.wooden_axe ∷ Item.wooden_pickaxe ∷ Item.wooden_shovel ∷ Item.wooden_sword
        ∷ Item.wooden_hoe ∷ [])
    then some (1, seed)
    else none

-- The calls of `registerSmeltingRecipe`, in their order.
abbrev pub recipes : List (Item × Item)
recipes =
    (Item.cobblestone, Item.stone)
    ∷ (Item.oak_log, Item.charcoal)
    ∷ (Item.oak_wood, Item.charcoal)
    ∷ (Item.raw_iron, Item.iron_ingot)
    ∷ (Item.raw_gold, Item.gold_ingot)
    ∷ (Item.sand, Item.glass)
    ∷ (Item.chicken, Item.cooked_chicken)
    ∷ (Item.beef, Item.cooked_beef)
    ∷ (Item.porkchop, Item.cooked_porkchop)
    ∷ (Item.mutton, Item.cooked_mutton)
    ∷ []

-- The first recipe for the material whose product may join what lies in the output slot.
unfoldable pub find_recipe : Registry → ℕ → ℕ → List (Item × Item) → Option ℕ
find_recipe r material output_item [] = none
find_recipe r material output_item ((a, b) ∷ rest) =
    let others = find_recipe r material output_item rest in
    if material == r.item a && (output_item == r.item b || output_item == 0)
    then some (r.item b)
    else others

-- One run of the body: it returns, or calls itself.
pub data Round : Type 0 where
  returns : Furnace → Round
  again : Furnace → Round

-- One piece of fuel turns at most its value of the material into output.
unfoldable pub burn : Furnace → ℕ → ℕ → Round
burn f value product =
    let exchange : ℕ = if ltb value f.material_count then value else f.material_count in
    let fuel_left = f.fuel_count - 1 in
    let burnt : Furnace = record f {
      output_item = product;
      output_count = (f.output_count + exchange) % 256;
      material_count = f.material_count - exchange;
      fuel_count = fuel_left;
      fuel = if fuel_left == 0 then 0 else f.fuel;
    } in
    if f.material_count - exchange == 0
    then returns (record burnt { material = 0 })
    else again burnt

unfoldable pub smelt_round : Registry → Furnace → Round
smelt_round r f =
    if f.material_count == 0 || f.fuel_count == 0
    then returns f
    else if f.material == 0 || f.fuel == 0
    then returns f
    else elim (fuel_value r f.fuel f.rng_seed) [
      | none ↦ returns f
      | some (value, seed) ↦ elim (find_recipe r f.material f.output_item recipes) [
        | none ↦ returns (record f { rng_seed = seed })
        | some product ↦ burn (record f { rng_seed = seed }) value product
      ]
    ]

-- The recursion, for at most `n` rounds.
unfoldable pub smelt_loop : ℕ → Registry → Furnace → Option Furnace
smelt_loop zero r f = none
smelt_loop (suc n) r f = elim (smelt_round r f) [ returns g ↦ some g | again g ↦ smelt_loop n r g ]

abbrev pub furnace_of : PlayerData → ℕ → Furnace
furnace_of p seed = record {
  material = p.craft_items 0;
  fuel = p.craft_items 1;
  output_item = p.craft_items 2;
  material_count = p.craft_count 0;
  fuel_count = p.craft_count 1;
  output_count = p.craft_count 2;
  rng_seed = seed;
}

abbrev pub put_furnace : PlayerData → Furnace → PlayerData
put_furnace p f = record p {
  craft_items = update (update (update p.craft_items 0 f.material) 1 f.fuel) 2 f.output_item;
  craft_count =
      update (update (update p.craft_count 0 f.material_count) 1 f.fuel_count) 2 f.output_count;
}

-- The player and `rng_seed` after the call. The loop has one round more than there are pieces of
-- fuel.
unfoldable pub get_smelting_output : Registry → PlayerData → ℕ → Option (PlayerData × ℕ)
get_smelting_output r p seed = elim (smelt_loop (p.craft_count 1 + 1) r (furnace_of p seed)) [
  | some f ↦ some (put_furnace p f, f.rng_seed)
  | none ↦ none
]
