-- ===== src/Tests/Cache.antt =====
-- The section cache, in the test world.
use macintosh_craft.Base.{◌≡◌, refl, true, none, some, arith}
use macintosh_craft.Base.Int.{pos, negsuc, ◌+ℤ◌, ◌*ℤ◌, to_u32, to_i16}
use macintosh_craft.Base.Array.{update}
use macintosh_craft.Terrain.Section.{section_index}
use macintosh_craft.World.Changes.{Changes, get_block_change, store_change, stored, set_block, gap}
use macintosh_craft.World.Cache.{
  Cache, SectionKey, key_of, chunk_cache_hash, find_cache_entry, build_chunk_section,
}
use macintosh_craft.World.Cache.{find_loop}
use macintosh_craft.World.Cache.Probe
use macintosh_craft.World.Cache.{invalidate_chunk_cache, section_corner}
use macintosh_craft.World.Cache.Kept
use macintosh_craft.World.Cache.Invalid
use macintosh_craft.Base.{false}
use macintosh_craft.Base.Int.{c_div, ◌-ℤ◌}
use macintosh_craft.World.Cache.Repeat
use macintosh_craft.World.Cache.Stale
use macintosh_craft.World.Cache.Served
use macintosh_craft.World.Changes.Plain.{IsPlain}
use macintosh_craft.World.Blocks.{get_block_at}
use macintosh_craft.Base.{inl}
use macintosh_craft.Tests.Data.{
  generator, one_change, one_change-IsPlain, sand_place, empty_cache, no_section,
}

abbrev key : SectionKey
key = key_of (pos 16) 64 (negsuc 15)

-- The section is cached in entry 5; its hash is 0, and the five entries between are empty.
abbrev warm_cache : Cache
warm_cache = record empty_cache {
  entries = update empty_cache.entries 5 (record no_section { key = key; valid = true });
}

not_cached : find_cache_entry empty_cache key ≡ none
unfolding find_cache_entry find_loop
not_cached = refl

is_cached : find_cache_entry warm_cache key ≡ some 5
unfolding find_cache_entry find_loop chunk_cache_hash to_u32 to_i16 ◌*ℤ◌
is_cached = refl

-- The sand is taken away again.
abbrev restored_change : Changes
restored_change = record {
  entries = update one_change.entries 1 (set_block gap (one_change.entries 1));
  count = 2;
}

taken_away : store_change 8 true one_change sand_place 0 ≡ stored restored_change
unfolding store_change
taken_away = refl

sand_there : get_block_change 8 one_change sand_place ≡ 6
unfolding get_block_change
sand_there = refl

-- The entry is one of those that are probed.
probed : Probe.IsProbed warm_cache key 5
unfolding chunk_cache_hash to_u32 to_i16 ◌*ℤ◌
probed = (5, omega arith, refl)

build_chunk_section_again_example :
    let (first, c') =
      build_chunk_section generator one_change empty_cache (pos 16) 64 (negsuc 15) in
    let (second, _) = build_chunk_section generator one_change c' (pos 16) 64 (negsuc 15) in
    (second.blocks 0 ≡ first.blocks 0) × (second.biome ≡ first.biome)
build_chunk_section_again_example =
    Repeat.build_chunk_section_again generator one_change empty_cache (pos 16) (negsuc 15) 64 0
      not_cached

restored_change-IsPlain : IsPlain 8 restored_change
restored_change-IsPlain = record {
  bounded = omega arith;
  no_chest = λ i h e. ground arith;
  distinct = λ i j p hi hj li lj ai aj. absurd (li (ground arith));
}

nothing_there : get_block_change 8 restored_change sand_place ≡ gap
unfolding get_block_change
nothing_there = refl

-- The section is cached without the sand, which is placed then.
build_chunk_section-get_block_at_example :
    let (first, c') =
      build_chunk_section generator restored_change empty_cache (pos 16) 64 (negsuc 15) in
    let (second, _) = build_chunk_section generator one_change c' (pos 16) 64 (negsuc 15) in
    (first.blocks (section_index 1 6 13)
      ≡ get_block_at generator restored_change (pos 17) (pos 70) (negsuc 2))
    × (second.blocks (section_index 1 6 13)
        ≡ get_block_at generator one_change (pos 17) (pos 70) (negsuc 2))
unfolding get_block_change ◌+ℤ◌
build_chunk_section-get_block_at_example =
    Served.build_chunk_section-get_block_at generator restored_change one_change empty_cache
      (pos 16) (negsuc 15) 64 1 6 13 restored_change-IsPlain one_change-IsPlain not_cached refl refl
      (omega arith, omega arith) (omega arith, omega arith) (omega arith) (omega arith)
      (omega arith) (omega arith) (omega arith) (omega arith) (inl nothing_there)

build_chunk_section_stale_example :
    ((build_chunk_section generator restored_change
          (build_chunk_section generator one_change empty_cache (pos 16) 64 (negsuc 15)).1
          (pos 16)
          64
          (negsuc 15)).0.blocks
        (section_index 1 6 13)
      ≡ 6)
    × (get_block_change 8 restored_change sand_place ≡ gap)
unfolding ◌+ℤ◌
build_chunk_section_stale_example =
    Stale.build_chunk_section_stale generator one_change restored_change empty_cache (pos 16)
      (negsuc 15) 64 1 6 13 6 0 (omega arith) (omega arith) (omega arith) one_change-IsPlain
      (omega arith) not_cached sand_there (omega arith) (omega arith) (omega arith) taken_away

pub empty-IsKept : Kept.IsKept empty_cache
empty-IsKept = record {
  probed = λ i h. absurd (false_true h);
  unique = λ i j h k same. absurd (false_true h);
}
  where
    false_true : ¬ (false ≡ true)
    false_true e = cc

build_chunk_section-IsKept_example :
    Kept.IsKept (build_chunk_section generator one_change empty_cache (pos 16) 64 (negsuc 15)).1
build_chunk_section-IsKept_example =
    Kept.build_chunk_section-IsKept generator one_change empty_cache (pos 16) (negsuc 15) 64
      empty-IsKept

-- The cache with that section in it, and the place of the sand.
one_section-IsKept :
    Kept.IsKept (build_chunk_section generator one_change empty_cache (pos 16) 64 (negsuc 15)).1
one_section-IsKept =
    Kept.build_chunk_section-IsKept generator one_change empty_cache (pos 16) (negsuc 15) 64
      empty-IsKept

find-invalidate_chunk_cache_example :
    find_cache_entry
      (invalidate_chunk_cache
        (build_chunk_section generator one_change empty_cache (pos 16) 64 (negsuc 15)).1
        (pos 17)
        70
        (negsuc 2))
      (key_of (section_corner (pos 17)) 64 (section_corner (negsuc 2)))
    ≡ none
find-invalidate_chunk_cache_example =
    Invalid.find-invalidate_chunk_cache
      (build_chunk_section generator one_change empty_cache (pos 16) 64 (negsuc 15)).1 (pos 17)
      (negsuc 2) 70 one_section-IsKept (omega arith)

-- The corner that is invalidated is the section's own.
corners : (section_corner (pos 17) ≡ pos 16) × (section_corner (negsuc 2) ≡ negsuc 15)
unfolding section_corner c_div ◌-ℤ◌ ◌*ℤ◌
corners = (refl, refl)
