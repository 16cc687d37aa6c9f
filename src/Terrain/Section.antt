-- ===== src/Terrain/Section.antt =====
-- The 16 by 16 by 16 blocks that are sent to clients: the terrain part of
-- `buildChunkSectionInternal` of worldgen.c.
pub mod Layout
pub mod Agreement
use macintosh_craft.Base.{ℕ, ◌+◌, ◌-◌, ◌*◌, ◌/◌, ◌%◌}
use macintosh_craft.Base.Int.{ℤ, pos, ◌+ℤ◌, c_div, to_i16}
use macintosh_craft.Terrain.{Generator, get_chunk_hash, get_chunk_biome}
use macintosh_craft.Terrain.Height.{ChunkAnchor, get_height_at_from_anchors}
use macintosh_craft.Terrain.Column.{ChunkFeature, get_terrain_at_from_cache}
use macintosh_craft.Terrain.Feature.{get_feature_from_anchor}

-- The quotient `j / CHUNK_SIZE` where the loop over j has come to `cx + 8 * n`.
unfoldable pub section_coordinate : ℤ → ℕ → ℤ
section_coordinate cx n = to_i16 (c_div (cx +ℤ pos (8 * n)) 8)

-- `chunk_anchors[n]`: three rows of three, along x first.
unfoldable pub section_anchor : Generator → ℤ → ℤ → ℕ → ChunkAnchor
section_anchor g cx cz n =
    let x = section_coordinate cx (n % 3) in
    let z = section_coordinate cz (n / 3) in
    record { x = x; z = z; hash = get_chunk_hash g x z; biome = get_chunk_biome g x z }

-- `chunk_features[n]`: two rows of two, for the anchors that are not in the last row or column.
unfoldable pub section_feature : Generator → ℤ → ℤ → ℕ → ChunkFeature
section_feature g cx cz n = get_feature_from_anchor g (section_anchor g cx cz (n / 2 * 3 + n % 2))

-- `chunk_section_height[j][i]`
unfoldable pub section_height : Generator → ℤ → ℤ → ℕ → ℕ → ℕ
section_height g cx cz j i =
    get_height_at_from_anchors g (j % 8) (i % 8) (section_anchor g cx cz) (j / 8 + i / 8 * 3)

-- `chunk_section[k]` before the block changes. The loop goes over the multiples `j` of 8, and its
-- unrolled body stores the column at offset 7, 6, ..., 0 at j + 0, j + 1, ..., j + 7.
unfoldable pub section_terrain : Generator → ℤ → ℕ → ℤ → ℕ → ℕ
section_terrain g cx cy cz k =
    let j = k / 8 * 8 in
    let rx = (j % 16 + (7 - k % 8)) % 16 in
    let rz = j / 16 % 16 in
    get_terrain_at_from_cache g (cx +ℤ pos rx) (j / 256 + cy) (cz +ℤ pos rz) (rx % 8) (rz % 8)
      (section_anchor g cx cz (j % 16 / 8 + rz / 8 * 3))
      (section_feature g cx cz (j % 16 / 8 + rz / 8 * 2)) (section_height g cx cz rx rz)

-- `dx + (dz << 4) + (dy << 8)`, and `(address & ~7u) | (7u - (address & 7u))`.
unfoldable pub section_index : ℕ → ℕ → ℕ → ℕ
section_index dx dy dz =
    let address = dx + dz * 16 + dy * 256 in address / 8 * 8 + (7 - address % 8)
