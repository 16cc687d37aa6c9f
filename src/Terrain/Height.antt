-- ===== src/Terrain/Height.antt =====
-- The terrain height of a column, interpolated between the corners of its minichunk.
pub mod Bounds
use macintosh_craft.Base.{
  ℕ, ◌+◌, ◌-◌, ◌*◌, ◌/◌, ◌%◌, ◌^◌, Bool, true, false, if◌then◌else◌, ltb, ◌==◌, ◌&&◌,
}
use macintosh_craft.Base.Int.{ℤ, pos, pos_part, ◌+ℤ◌, to_i16}
use macintosh_craft.Registry.{Biome}
use macintosh_craft.Tools.{mod_abs, div_floor}
use macintosh_craft.Terrain.{Generator, biome, get_chunk_hash, get_chunk_biome}

-- The large-scale part: 60, and between -7 and +7.
abbrev pub continent_height : ℕ → ℕ
continent_height hash = 60 + (hash / 2 ^ 16 % 8 + hash / 2 ^ 20 % 8) - 7

abbrev pub swamp_height : ℕ → ℕ
swamp_height hash =
    let height =
      continent_height hash
      + (hash % 3 + hash / 2 ^ 4 % 3 + hash / 2 ^ 8 % 3 + hash / 2 ^ 12 % 3) in
    if ltb height 64 then height - hash / 2 ^ 24 % 4 else height

-- The `switch` on the biome. No height goes below 0, so `-` is the source's.
unfoldable pub biome_height : Generator → ℕ → ℕ → ℕ
biome_height g hash b =
    if b == biome g Biome.mangrove_swamp
    then swamp_height hash
    else if b == biome g Biome.plains
    then continent_height hash
      + (hash % 4 + hash / 2 ^ 4 % 4 + hash / 2 ^ 8 % 4 + hash / 2 ^ 12 % 4)
    else if b == biome g Biome.desert
    then continent_height hash + (4 + (hash % 4 + hash / 2 ^ 4 % 4))
    else if b == biome g Biome.beach
    then 62 - (hash % 4 + hash / 2 ^ 4 % 4 + hash / 2 ^ 8 % 4)
    else if b == biome g Biome.snowy_plains
    then continent_height hash + (hash % 8 + hash / 2 ^ 4 % 8)
    else continent_height hash

unfoldable pub get_corner_height : Generator → ℕ → ℕ → ℕ
get_corner_height g hash b =
    let height = biome_height g hash b in
    if ltb height 1 then 1 else if ltb 255 height then 255 else height

-- Bilinear, over 8 by 8 columns; `x` and `z` are at most 8. `top` and `bottom` are `uint16_t`.
unfoldable pub interpolate : ℕ → ℕ → ℕ → ℕ → ℕ → ℕ → ℕ
interpolate a b c d x z =
    let top = (a * (8 - x) + b * x) % 65536 in
    let bottom = (c * (8 - x) + d * x) % 65536 in (top * (8 - z) + bottom * z) / 64 % 256

-- The corner itself lies one lower where it is above 67.
unfoldable pub height_between : ℕ → ℕ → ℕ → ℕ → ℕ → ℕ → ℕ
height_between a b c d rx rz =
    if rx == 0 && rz == 0 && ltb 67 a then a - 1 else interpolate a b c d rx rz

-- `short x, z; uint32_t hash; uint8_t biome`
pub record ChunkAnchor : Type 0 where
  pub x : ℤ
  pub z : ℤ
  pub hash : ℕ
  pub biome : ℕ

abbrev pub anchor_height : Generator → ChunkAnchor → ℕ
anchor_height g a = get_corner_height g a.hash a.biome

-- `anchor_ptr` is `anchors + i`, in rows of three.
unfoldable pub get_height_at_from_anchors : Generator → ℕ → ℕ → (ℕ → ChunkAnchor) → ℕ → ℕ
get_height_at_from_anchors g rx rz anchors i =
    height_between (anchor_height g (anchors i)) (anchor_height g (anchors (i + 1)))
      (anchor_height g (anchors (i + 3))) (anchor_height g (anchors (i + 4))) rx rz

-- The corner of the minichunk at the `int` coordinates, which become `short` parameters.
unfoldable pub corner_at : Generator → ℤ → ℤ → ℕ
corner_at g x z =
    get_corner_height g (get_chunk_hash g (to_i16 x) (to_i16 z))
      (get_chunk_biome g (to_i16 x) (to_i16 z))

unfoldable pub get_height_at_from_hash : Generator → ℕ → ℕ → ℤ → ℤ → ℕ → ℕ → ℕ
get_height_at_from_hash g rx rz x z chunk_hash b =
    height_between (get_corner_height g chunk_hash b) (corner_at g (x +ℤ pos 1) z)
      (corner_at g x (z +ℤ pos 1)) (corner_at g (x +ℤ pos 1) (z +ℤ pos 1)) rx rz

-- The terrain height at world coordinates, without block changes.
unfoldable pub get_height_at : Generator → ℤ → ℤ → ℕ
get_height_at g x z =
    let x' = div_floor x 8 in
    let z' = div_floor z 8 in
    get_height_at_from_hash g (pos_part (mod_abs x 8)) (pos_part (mod_abs z 8)) x' z'
      (get_chunk_hash g (to_i16 x') (to_i16 z')) (get_chunk_biome g (to_i16 x') (to_i16 z'))
