-- ===== src/Terrain/Feature.antt =====
-- The feature of a minichunk, and the block at a place from the seed alone.
use macintosh_craft.Base.{ℕ, ◌+◌, ◌/◌, ◌%◌, Bool, not, ◌&&◌, ◌||◌, ltb, ◌==◌}
use macintosh_craft.Base.{if◌then◌else◌}
use macintosh_craft.Base.Int.{ℤ, pos, pos_part, ltb_ℤ, ◌+ℤ◌, ◌*ℤ◌, c_mod, to_i16}
use macintosh_craft.Registry.{Block, Biome}
use macintosh_craft.Tools.{mod_abs, div_floor}
use macintosh_craft.Terrain.{Generator, block, biome, shift_right, get_chunk_hash, get_chunk_biome}
use macintosh_craft.Terrain.Height.{ChunkAnchor, get_height_at_from_hash}
use macintosh_craft.Terrain.Column.{ChunkFeature, get_terrain_at_from_cache}

-- Whether a position within the minichunk is too near to its border for a tree.
abbrev pub near_border : ℕ → Bool
near_border p = ltb p 3 || ltb 5 p

-- A skipped feature has y = 255; its variant is left unset and never read.
unfoldable pub get_feature_from_anchor : Generator → ChunkAnchor → ChunkFeature
get_feature_from_anchor g a =
    let position = a.hash % 64 in
    let px = position % 8 in
    let pz = position / 8 in
    let x = to_i16 (pos px +ℤ a.x *ℤ pos 8) in
    let z = to_i16 (pos pz +ℤ a.z *ℤ pos 8) in
    let height =
      get_height_at_from_hash g (pos_part (mod_abs x 8)) (pos_part (mod_abs z 8)) a.x a.z a.hash
        a.biome in
    if not (a.biome == biome g Biome.mangrove_swamp) && (near_border px || near_border pz)
    then record { x = pos px; y = 255; z = pos pz; variant = 0 }
    else record {
      x = x;
      y = (height + 1) % 256;
      z = z;
      variant = shift_right g a.hash (x +ℤ z) % 2;
    }

-- `x % 8`, made non-negative.
unfoldable pub column_in_chunk : ℤ → ℕ
column_in_chunk x = let r = c_mod x 8 in pos_part (if ltb_ℤ r (pos 0) then r +ℤ pos 8 else r)

unfoldable pub get_terrain_at : Generator → ℤ → ℕ → ℤ → ChunkAnchor → ℕ
get_terrain_at g x y z a =
    let rx = column_in_chunk x in
    let rz = column_in_chunk z in
    let feature = get_feature_from_anchor g a in
    let height = get_height_at_from_hash g rx rz a.x a.z a.hash a.biome in
    if ltb 80 y then block g Block.air else get_terrain_at_from_cache g x y z rx rz a feature height

-- The anchor of the minichunk of a place, as `getBlockAt` builds it.
unfoldable pub anchor_of : Generator → ℤ → ℤ → ChunkAnchor
anchor_of g x z =
    let ax = to_i16 (div_floor x 8) in
    let az = to_i16 (div_floor z 8) in
    record { x = ax; z = az; hash = get_chunk_hash g ax az; biome = get_chunk_biome g ax az }
