-- ===== src/Terrain/Section/Agreement.antt =====
-- `buildChunkSectionInternal` next to `getTerrainAt` of worldgen.c: two ways to the same blocks.
use macintosh_craft.Base.{ℕ, ◌+◌, ◌*◌, ◌/◌, ◌%◌, ◌≤◌, ◌<◌, ◌≡◌, ap, arith, ltb, false}
use macintosh_craft.Base.Int.{
  ℤ, pos, pos_part, neg_part, ◌+ℤ◌, c_div, c_mod, to_i16, to_i16_id, to_i16-IsShort,
}
use macintosh_craft.Tools.{div_floor}
use macintosh_craft.Terrain.{Generator}
use macintosh_craft.Terrain.Height.{
  anchor_height, get_height_at_from_anchors, get_height_at_from_hash, corner_at,
}
use macintosh_craft.Terrain.Column.{get_terrain_at_from_cache}
use macintosh_craft.Terrain.Feature.{
  get_feature_from_anchor, column_in_chunk, anchor_of, get_terrain_at,
}
use macintosh_craft.Terrain.Section.{section_coordinate, section_anchor, section_feature}
use macintosh_craft.Terrain.Section.{section_height, section_terrain, section_index}
use macintosh_craft.Terrain.Section.Layout.{index_parts}

-- A multiple of 16.
abbrev pub IsAligned : ℤ → Type 0
IsAligned a = (pos_part a + neg_part a) % 16 ≡ 0

section_coordinate-div_floor :
    (cx : ℤ) (d : ℕ)
    → IsAligned cx
    → d < 16
    → section_coordinate cx (d / 8) ≡ to_i16 (div_floor (cx +ℤ pos d) 8)
unfolding section_coordinate div_floor ◌+ℤ◌ c_div c_mod
section_coordinate-div_floor cx d h k = ap to_i16 (ground arith)

column_in_chunk-mod :
    (cx : ℤ) (d : ℕ) → IsAligned cx → d < 16 → column_in_chunk (cx +ℤ pos d) ≡ d % 8
unfolding column_in_chunk ◌+ℤ◌ c_mod
column_in_chunk-mod cx d h k = ground arith

section_coordinate_next :
    (cx : ℤ) (n : ℕ)
    → IsAligned cx
    → to_i16 (section_coordinate cx n +ℤ pos 1) ≡ section_coordinate cx (n + 1)
unfolding section_coordinate ◌+ℤ◌ c_div to_i16
section_coordinate_next cx n h = ground arith

-- The anchor of the minichunk that holds the column (dx, dz).
anchor_agrees :
    (g : Generator) (cx cz : ℤ) (dx dz : ℕ)
    → IsAligned cx
    → IsAligned cz
    → dx < 16
    → dz < 16
    → section_anchor g cx cz (dx / 8 + dz / 8 * 3) ≡ anchor_of g (cx +ℤ pos dx) (cz +ℤ pos dz)
unfolding section_anchor anchor_of
anchor_agrees g cx cz dx dz ax az hx hz =
    let col : (dx / 8 + dz / 8 * 3) % 3 ≡ dx / 8 = omega arith in
    let row : (dx / 8 + dz / 8 * 3) / 3 ≡ dz / 8 = omega arith in
    rw
      (col, row, section_coordinate-div_floor cx dx ax hx, section_coordinate-div_floor cz dz az hz)

feature_agrees :
    (g : Generator) (cx cz : ℤ) (dx dz : ℕ)
    → dx < 16
    → dz < 16
    → section_feature g cx cz (dx / 8 + dz / 8 * 2)
      ≡ get_feature_from_anchor g (section_anchor g cx cz (dx / 8 + dz / 8 * 3))
unfolding section_feature
feature_agrees g cx cz dx dz hx hz =
    let e : (dx / 8 + dz / 8 * 2) / 2 * 3 + (dx / 8 + dz / 8 * 2) % 2 ≡ dx / 8 + dz / 8 * 3 =
      omega arith in
    rw e

-- The corner of a neighbouring minichunk, from its anchor.
corner_agrees :
    (g : Generator) (cx cz : ℤ) (n c r : ℕ) (x z : ℤ)
    → n % 3 ≡ c
    → n / 3 ≡ r
    → to_i16 x ≡ section_coordinate cx c
    → to_i16 z ≡ section_coordinate cz r
    → anchor_height g (section_anchor g cx cz n) ≡ corner_at g x z
unfolding section_anchor corner_at
corner_agrees g cx cz n c r x z hc hr hx hz = rw (hc, hr, hx, hz)

to_i16_coordinate : (cx : ℤ) (n : ℕ) → to_i16 (section_coordinate cx n) ≡ section_coordinate cx n
unfolding section_coordinate
to_i16_coordinate cx n = to_i16_id _ (to_i16-IsShort _)

-- The heights of the three neighbours of an anchor.
neighbours_agree :
    (g : Generator) (cx cz : ℤ) (i j : ℕ)
    → IsAligned cx
    → IsAligned cz
    → i < 2
    → let n = i + j * 3 in
      let x = section_coordinate cx i in
      let z = section_coordinate cz j in
      (anchor_height g (section_anchor g cx cz (n + 1)) ≡ corner_at g (x +ℤ pos 1) z)
      × (anchor_height g (section_anchor g cx cz (n + 3)) ≡ corner_at g x (z +ℤ pos 1))
      × (anchor_height g (section_anchor g cx cz (n + 4)) ≡ corner_at g (x +ℤ pos 1) (z +ℤ pos 1))
neighbours_agree g cx cz i j ax az h = (
  corner_agrees g cx cz _ (i + 1) j _ _ (omega arith) (omega arith)
      (section_coordinate_next cx i ax) (to_i16_coordinate cz j),
  corner_agrees g cx cz _ i (j + 1) _ _ (omega arith) (omega arith) (to_i16_coordinate cx i)
      (section_coordinate_next cz j az),
  corner_agrees g cx cz _ (i + 1) (j + 1) _ _ (omega arith) (omega arith)
      (section_coordinate_next cx i ax) (section_coordinate_next cz j az),
)

anchor_place :
    (g : Generator) (cx cz : ℤ) (i j : ℕ)
    → i < 2
    → ((section_anchor g cx cz (i + j * 3)).x ≡ section_coordinate cx i)
      × ((section_anchor g cx cz (i + j * 3)).z ≡ section_coordinate cz j)
unfolding section_anchor
anchor_place g cx cz i j h =
    let c : (i + j * 3) % 3 ≡ i = omega arith in
    let r : (i + j * 3) / 3 ≡ j = omega arith in
    (ap (section_coordinate cx) c, ap (section_coordinate cz) r)

height_agrees :
    (g : Generator) (cx cz : ℤ) (dx dz : ℕ)
    → IsAligned cx
    → IsAligned cz
    → dx < 16
    → dz < 16
    → let a = section_anchor g cx cz (dx / 8 + dz / 8 * 3) in
      section_height g cx cz dx dz
      ≡ get_height_at_from_hash g (dx % 8) (dz % 8) a.x a.z a.hash a.biome
unfolding section_height get_height_at_from_anchors get_height_at_from_hash
height_agrees g cx cz dx dz ax az hx hz =
    let e = neighbours_agree g cx cz (dx / 8) (dz / 8) ax az (omega arith) in
    let p = anchor_place g cx cz (dx / 8) (dz / 8) (omega arith) in rw (p.0, p.1, e.0, e.1, e.2)

section_block :
    (g : Generator) (cx cz : ℤ) (cy dx dy dz : ℕ)
    → dx < 16
    → dz < 16
    → section_terrain g cx cy cz (section_index dx dy dz)
      ≡ get_terrain_at_from_cache g
          (cx +ℤ pos dx)
          (dy + cy)
          (cz +ℤ pos dz)
          (dx % 8)
          (dz % 8)
          (section_anchor g cx cz (dx / 8 + dz / 8 * 3))
          (section_feature g cx cz (dx / 8 + dz / 8 * 2))
          (section_height g cx cz dx dz)
unfolding section_terrain
section_block g cx cz cy dx dy dz hx hz =
    let e = index_parts dx dy dz hx hz in rw (e.0, e.1, e.2, e.3)

-- Up to level 80, every block of an aligned section is stored where clients look for it, and is
-- the block that `getTerrainAt` gives for its world coordinates.
pub section_terrain-get_terrain_at :
    (g : Generator) (cx cz : ℤ) (cy dx dy dz : ℕ)
    → IsAligned cx
    → IsAligned cz
    → dx < 16
    → dz < 16
    → dy + cy ≤ 80
    → let x = cx +ℤ pos dx in
      let z = cz +ℤ pos dz in
      section_terrain g cx cy cz (section_index dx dy dz)
      ≡ get_terrain_at g x (dy + cy) z (anchor_of g x z)
unfolding get_terrain_at
section_terrain-get_terrain_at g cx cz cy dx dy dz ax az hx hz hy =
    let low : ltb 80 (dy + cy) ≡ false = ground arith in
    rw (
      low,
      section_block g cx cz cy dx dy dz hx hz,
      ← anchor_agrees g cx cz dx dz ax az hx hz,
      feature_agrees g cx cz dx dz hx hz,
      height_agrees g cx cz dx dz ax az hx hz,
      column_in_chunk-mod cx dx ax hx,
      column_in_chunk-mod cz dz az hz,
    )
