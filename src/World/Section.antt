-- ===== src/World/Section.antt =====
-- `buildChunkSectionInternal` of worldgen.c: terrain, with the block changes on top.
pub mod Overlay
pub mod Faithful
use macintosh_craft.Base.{ℕ, zero, suc, ◌+◌, ◌-◌, Bool, ◌&&◌, ◌||◌, ltb, leb, ◌==◌, if◌then◌else◌}
use macintosh_craft.Base.Int.{ℤ, pos, pos_part, leb_ℤ, ltb_ℤ, ◌+ℤ◌, ◌-ℤ◌}
use macintosh_craft.Base.Array.{update}
use macintosh_craft.Registry.{Block}
use macintosh_craft.Terrain.{Generator, block}
use macintosh_craft.Terrain.Section.{section_anchor, section_terrain, section_index}
use macintosh_craft.World.Changes.{BlockChange, Changes, gap}

-- Gaps, torches and chests are skipped.
abbrev pub is_skipped : Generator → ℕ → Bool
is_skipped g b = b == gap || (b == block g Block.torch || b == block g Block.chest)

-- The 16 coordinates from `from` on.
unfoldable pub in_axis : ℤ → ℤ → Bool
in_axis from c = leb_ℤ from c && ltb_ℤ c (from +ℤ pos 16)

abbrev pub in_section : ℤ → ℕ → ℤ → BlockChange → Bool
in_section cx cy cz e = in_axis cx e.x && (leb cy e.y && ltb e.y (cy + 16) && in_axis cz e.z)

-- One round of the loop over the block changes.
unfoldable pub apply_change : Generator → ℤ → ℕ → ℤ → BlockChange → (ℕ → ℕ) → ℕ → ℕ
apply_change g cx cy cz e section =
    if is_skipped g e.block
    then section
    else if in_section cx cy cz e
    then update section (section_index (pos_part (e.x -ℤ cx)) (e.y - cy) (pos_part (e.z -ℤ cz)))
        e.block
    else section

-- `n` entries are left, from index `i` on.
unfoldable pub apply_changes : Generator → ℤ → ℕ → ℤ → Changes → ℕ → ℕ → (ℕ → ℕ) → ℕ → ℕ
apply_changes g cx cy cz s zero i section = section
apply_changes g cx cy cz s (suc n) i section =
    apply_changes g cx cy cz s n (i + 1) (apply_change g cx cy cz (s.entries i) section)

-- `chunk_section`, and the biome of the first anchor, which is returned.
pub record Section : Type 0 where
  pub blocks : ℕ → ℕ
  pub biome : ℕ

unfoldable pub build_chunk_section_internal : Generator → Changes → ℤ → ℕ → ℤ → Section
build_chunk_section_internal g s cx cy cz = record {
  blocks = apply_changes g cx cy cz s s.count 0 (section_terrain g cx cy cz);
  biome = (section_anchor g cx cz 0).biome;
}
