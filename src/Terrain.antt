-- ===== src/Terrain.antt =====
-- Terrain generation, worldgen.c: what the generator is given, and the hash and the biome of a
-- minichunk of 8 by 8 columns.
pub mod Height
pub mod Column
pub mod Feature
pub mod Section
use macintosh_craft.Base.{
  ℕ, ◌+◌, ◌-◌, ◌*◌, ◌/◌, ◌%◌, ◌^◌, Bool, true, false, if◌then◌else◌, ltb, leb, ◌&&◌,
}
use macintosh_craft.Base.Int.{
  ℤ, pos, negsuc, pos_part, ◌+ℤ◌, ◌-ℤ◌, ◌*ℤ◌, leb_ℤ, ltb_ℤ, wrap, to_i16,
}
use macintosh_craft.Registry.{Registry, Block, Biome}
use macintosh_craft.Tools.{mod_abs, div_floor, splitmix64}

-- `world_seed`, the numbers of blocks and biomes, and what C leaves to the machine: the order of
-- the bytes in memory, and the result of `>>` on a `uint32_t` by a count outside 0 to 31.
pub record Generator : Type 0 where
  pub registry : Registry
  pub world_seed : ℕ
  pub big_endian : Bool
  pub wild_shift : ℕ → ℤ → ℕ

abbrev pub block : Generator → Block → ℕ
block g b = g.registry.block b

abbrev pub biome : Generator → Biome → ℕ
biome g b = g.registry.biome b

-- `h >> n` for an `int` n.
unfoldable pub shift_right : Generator → ℕ → ℤ → ℕ
shift_right g h n =
    if leb_ℤ (pos 0) n && ltb_ℤ n (pos 32) then h / 2 ^ pos_part n else g.wild_shift h n

-- Two bytes each of x and z, then four of the seed, read back as one `uint64_t`.
unfoldable pub get_chunk_hash : Generator → ℤ → ℤ → ℕ
get_chunk_hash g x z =
    let a = wrap 65536 x in
    let b = wrap 65536 z in
    splitmix64 (
      if g.big_endian
      then a * 2 ^ 48 + b * 2 ^ 32 + g.world_seed
      else a + b * 2 ^ 16 + g.world_seed * 2 ^ 32)
    % 2 ^ 32

-- The biome at "biome coordinates", out of the seed as a 4 by 4 matrix. `& 3` and `& 15` of a
-- negative number are its remainder rounded down.
unfoldable pub seed_biome : Generator → ℤ → ℤ → ℕ
seed_biome g biome_x biome_z =
    let index = wrap 4 biome_x + wrap 16 (biome_z *ℤ pos 4) in g.world_seed / 2 ^ (index * 2) % 4

-- BIOME_SIZE is 64. The differences lie between -31 and 32, and fit an `int8_t`.
unfoldable pub get_chunk_biome : Generator → ℤ → ℤ → ℕ
get_chunk_biome g x z =
    let x' = to_i16 (x +ℤ pos 32) in
    let z' = to_i16 (z +ℤ pos 32) in
    let dx = pos 32 -ℤ mod_abs x' 64 in
    let dz = pos 32 -ℤ mod_abs z' 64 in
    if ltb_ℤ (pos 1024) (dx *ℤ dx +ℤ dz *ℤ dz)
    then biome g Biome.beach
    else seed_biome g (div_floor x' 64) (div_floor z' 64)
