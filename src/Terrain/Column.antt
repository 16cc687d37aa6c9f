-- ===== src/Terrain/Column.antt =====
-- `getTerrainAtFromCache` of worldgen.c: the block at a place, given the height of its column and
-- the anchor and the feature of its minichunk. Comparisons with a difference are written as sums.
use macintosh_craft.Base.{ℕ, ◌+◌, ◌-◌, ◌*◌, ◌/◌, ◌%◌, ◌^◌, Bool, not, ◌&&◌, ◌||◌}
use macintosh_craft.Base.{Option, none, some, ltb, leb, ◌==◌, if◌then◌else◌}
use macintosh_craft.Base.Int.{ℤ, pos_part, neg_part, eq_ℤ}
use macintosh_craft.Registry.{Block, Biome}
use macintosh_craft.Terrain.{Generator, block, biome}
use macintosh_craft.Terrain.Height.{ChunkAnchor}
use Prim.Native.Nat.{bit_xor}

-- `short x, z; uint8_t y, variant`; y is 255 where there is no feature.
pub record ChunkFeature : Type 0 where
  pub x : ℤ
  pub y : ℕ
  pub z : ℤ
  pub variant : ℕ

-- The distance of two coordinates, as a `uint8_t`.
abbrev pub distance : ℤ → ℤ → ℕ
distance a b =
    let p = pos_part a + neg_part b in
    let n = pos_part b + neg_part a in (if ltb n p then p - n else n - p) % 256

-- A tree: the dirt and the stem, two clusters of leaves, and the grass and the air around.
-- `none` is the `break` to the code behind the `switch`.
unfoldable pub plains_block : Generator → ℤ → ℕ → ℤ → ChunkFeature → ℕ → Option ℕ
plains_block g x y z f height =
    let stem = eq_ℤ x f.x && eq_ℤ z f.z in
    let dx = distance x f.x in
    let dz = distance z f.z in
    let v = y + f.variant in
    if ltb f.y 64
    then none
    else if stem && y + 1 == f.y
    then some (block g Block.dirt)
    else if stem && leb f.y y && ltb v (f.y + 6)
    then some (block g Block.oak_log)
    else if ltb dx 3 && ltb dz 3 && ltb (f.y + 2) v && ltb v (f.y + 5)
    then (if v == f.y + 4 && dx == 2 && dz == 2 then none else some (block g Block.oak_leaves))
    else if ltb dx 2 && ltb dz 2 && leb (f.y + 5) v && leb v (f.y + 6)
    then (if v == f.y + 6 && dx == 1 && dz == 1 then none else some (block g Block.oak_leaves))
    else if y == height
    then some (block g Block.grass_block)
    else some (block g Block.air)

-- A dead bush, or a cactus of two or three blocks.
unfoldable pub desert_block : Generator → ℤ → ℕ → ℤ → ChunkFeature → ℕ → Option ℕ
desert_block g x y z f height =
    if not (eq_ℤ x f.x) || not (eq_ℤ z f.z)
    then none
    else if f.variant == 0
    then (if y == height + 1 then some (block g Block.dead_bush) else none)
    else if ltb height y
    then (if height % 2 == 1 && leb y (height + 3)
        then some (block g Block.cactus)
        else if leb y (height + 2)
        then some (block g Block.cactus)
        else none)
    else none

unfoldable pub swamp_block : Generator → ℤ → ℕ → ℤ → ChunkFeature → ℕ → Option ℕ
swamp_block g x y z f height =
    if eq_ℤ x f.x && eq_ℤ z f.z && y == 64 && ltb height 63
    then some (block g Block.lily_pad)
    else if y == height + 1 && ltb (distance x f.x + distance z f.z) 4
    then some (block g Block.moss_carpet)
    else none

unfoldable pub snowy_block : Generator → ℤ → ℕ → ℤ → ChunkFeature → ℕ → Option ℕ
snowy_block g x y z f height =
    if eq_ℤ x f.x && eq_ℤ z f.z && y == height + 1 && leb 64 height
    then some (block g Block.short_grass)
    else none

-- The `switch` on the biome, from sea level up.
unfoldable pub feature_block : Generator → ℤ → ℕ → ℤ → ℕ → ChunkFeature → ℕ → Option ℕ
feature_block g x y z b f height =
    if leb 64 y && leb height y && not (f.y == 255)
    then (if b == biome g Biome.plains
        then plains_block g x y z f height
        else if b == biome g Biome.desert
        then desert_block g x y z f height
        else if b == biome g Biome.mangrove_swamp
        then swamp_block g x y z f height
        else if b == biome g Biome.snowy_plains
        then snowy_block g x y z f height
        else none)
    else none

-- The topmost blocks.
unfoldable pub surface_block : Generator → ℕ → ℕ → ℕ → Option ℕ
surface_block g y b height =
    if leb 63 height && y == height
    then some (
        if b == biome g Biome.mangrove_swamp
        then block g Block.mud
        else if b == biome g Biome.snowy_plains
        then block g Block.snowy_grass_block
        else if b == biome g Biome.desert
        then block g Block.sand
        else if b == biome g Biome.beach
        then block g Block.sand
        else block g Block.grass_block)
    else if leb 63 height && b == biome g Biome.snowy_plains && y == height + 1
    then some (block g Block.snow)
    else none

-- The byte that both the caves and the ore start from.
abbrev pub column_seed : ℕ → ℕ → ℕ
column_seed rx rz = (rx % 16 * 16 + rz % 16) % 256

unfoldable pub cave_hash : ℕ → ℕ → ℕ
cave_hash rx rz =
    let a = column_seed rx rz in
    let b = bit_xor a (a * 8 % 256) in let c = bit_xor b (b / 32) in bit_xor c (c * 4 % 256)

unfoldable pub ore_y : ℕ → ℕ → ℕ
ore_y rx rz =
    let a = column_seed rx rz in
    let b = bit_xor a (a * 16 % 256) in let c = bit_xor b (b / 32) in bit_xor c (c * 2 % 256) % 64

-- Whether the primary or the secondary cave takes the block out.
unfoldable pub is_cave : ℕ → ℕ → ℕ → ℕ → Bool
is_cave hash c y height =
    let center = c % 32 + 12 in
    let radius = 1 + hash / 2 ^ (c % 16) % 4 in
    let center2 = c / 16 % 32 + 8 in
    let in_range = ltb 4 y && ltb (y + 6) height in
    (leb center (y + radius) && leb y (center + radius) && in_range)
    || (hash / 2 ^ 28 % 2 == 1 && leb center2 (y + 1) && leb y (center2 + 1) && in_range)

-- The block at the ore's place, by depth and probability.
unfoldable pub ore_block : Generator → ℕ → ℕ → ℕ
ore_block g probability y =
    if ltb y 15 && ltb probability 10
    then block g Block.diamond_ore
    else if ltb y 15 && ltb probability 12
    then block g Block.gold_ore
    else if ltb y 15 && ltb probability 15
    then block g Block.redstone_ore
    else if ltb y 30 && ltb probability 3
    then block g Block.gold_ore
    else if ltb y 30 && ltb probability 8
    then block g Block.redstone_ore
    else if ltb y 54 && ltb probability 30
    then block g Block.iron_ore
    else if ltb y 54 && ltb probability 40
    then block g Block.copper_ore
    else if ltb probability 60
    then block g Block.coal_ore
    else if ltb y 5
    then block g Block.lava
    else block g Block.cobblestone

-- From four blocks below the surface down.
unfoldable pub underground_block : Generator → ℕ → ℕ → ℕ → ℕ → ℕ → ℕ
underground_block g y rx rz hash height =
    let ore = ore_y rx rz in
    if is_cave hash (cave_hash rx rz) y height
    then block g Block.air
    else if y == ore
    then ore_block g (hash / 2 ^ (ore % 24) % 256) y
    else block g Block.stone

-- The code behind the `switch`.
unfoldable pub ground_block : Generator → ℕ → ℕ → ℕ → ℕ → ℕ → ℕ → ℕ
ground_block g y rx rz hash b height = elim (surface_block g y b height) [
  | some top ↦ top
  | none ↦
      if leb (y + 4) height
      then underground_block g y rx rz hash height
      else if leb y height
      then (if b == biome g Biome.desert
          then block g Block.sandstone
          else if b == biome g Biome.mangrove_swamp
          then block g Block.mud
          else if b == biome g Biome.beach && ltb 64 height
          then block g Block.sandstone
          else block g Block.dirt)
      else if y == 63 && b == biome g Biome.snowy_plains
      then block g Block.ice
      else if ltb y 64
      then block g Block.water
      else block g Block.air
]

unfoldable pub get_terrain_at_from_cache :
    Generator → ℤ → ℕ → ℤ → ℕ → ℕ → ChunkAnchor → ChunkFeature → ℕ → ℕ
get_terrain_at_from_cache g x y z rx rz anchor feature height =
    elim (feature_block g x y z anchor.biome feature height) [
      | some b ↦ b
      | none ↦ ground_block g y rx rz anchor.hash anchor.biome height
    ]
