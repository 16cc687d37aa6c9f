-- ===== src/World/Cache/Stale.antt =====
-- The cache of worldgen.c and the unsorted array of the default build, where no operation calls
-- `invalidateChunkCache`.
use macintosh_craft.Base.{ℕ, ◌<◌, ◌≡◌, ◌≢◌, true, none, ◌∙◌, ap, arith}
use mathlib.Core.Path.{subst}
use macintosh_craft.Base.Int.{ℤ}
use macintosh_craft.Registry.{Block}
use macintosh_craft.Terrain.{Generator, block}
use macintosh_craft.Terrain.Section.{section_index}
use macintosh_craft.World.Changes.{Changes, gap, get_block_change, store_change, stored}
use macintosh_craft.World.Changes.Plain.{IsPlain, Finds, Finds-get}
use macintosh_craft.World.Changes.Write.{same_place}
use macintosh_craft.World.Changes.MapLaw.{get-store_change, store_change-IsPlain}
use macintosh_craft.World.Section.Overlay.{place_in}
use macintosh_craft.World.Section.Faithful.{shown_change, shown_below}
use macintosh_craft.World.Cache.{Cache, key_of, find_cache_entry, build_chunk_section}
use macintosh_craft.World.Cache.Repeat.{build_chunk_section_cached}

-- A block `b` was changed at a place, its section was built and cached, and the place was then
-- restored to the terrain. The section that is served next still shows `b`, while `getBlockChange`
-- finds no change at the place.
pub build_chunk_section_stale :
    (g : Generator) (s t : Changes) (c : Cache) (cx cz : ℤ) (cy dx dy dz b restored : ℕ)
    (hx : dx < 16) (hy : dy < 16) (hz : dz < 16)
    → IsPlain (block g Block.chest) s
    → block g Block.chest ≢ gap
    → find_cache_entry c (key_of cx cy cz) ≡ none
    → get_block_change (block g Block.chest) s (place_in g cx cz cy dx dy dz hx hy hz) ≡ b
    → b ≢ gap
    → b ≢ block g Block.torch
    → restored ≢ block g Block.chest
    → store_change (block g Block.chest) true s (place_in g cx cz cy dx dy dz hx hy hz) restored
      ≡ stored t
    → ((build_chunk_section g t (build_chunk_section g s c cx cy cz).1 cx cy cz).0.blocks
          (section_index dx dy dz)
        ≡ b)
      × (get_block_change (block g Block.chest) t (place_in g cx cz cy dx dy dz hx hy hz) ≡ gap)
build_chunk_section_stale g s t c cx cz cy dx dy dz b restored hx hy hz v solid absent at live torch
      plain h =
    let chest = block g Block.chest in
    let p = place_in g cx cz cy dx dy dz hx hy hz in
    let same : same_place p p ≡ true = ground arith in
    let gone : get_block_change chest t p ≡ gap =
      get-store_change chest true s t p p restored v plain solid h ∙ rw same in
    let u = store_change-IsPlain chest true s t p restored v plain solid h in
    let (first, second) = build_chunk_section_cached g s t c cx cz cy absent in
    let idx : ℕ = section_index dx dy dz in
    let before = subst (Finds s p) at (Finds-get chest s p v) in
    let after = subst (Finds t p) gone (Finds-get chest t p u) in
    (
      ap (λ x. x.blocks idx) second
          ∙ shown_below g t cx cz cy dx dy dz hx hy hz u _ after
          ∙ ap (λ x. x.blocks idx) first
          ∙ shown_change g s cx cz cy dx dy dz hx hy hz v b torch live before,
      gone,
    )
