-- ===== src/Tests/Sorted.antt =====
-- The sorted array of block changes, and both arrays behind one interface.
use macintosh_craft.Base.{◌≡◌, refl, true, false, some, List, [], ◌∷◌, arith}
use macintosh_craft.Base.Int.{pos, negsuc}
use macintosh_craft.Base.Array.{update}
use macintosh_craft.World.Changes.{Changes, Place, gap, blank, change_at, get_block_change}
use macintosh_craft.World.Sorted.{
  changed, store_sorted_change, get_sorted_change, shift_entries_right, binary_search_block_change,
  search_loop, compare_coords,
}
use macintosh_craft.World.Sorted.Search.{IsSorted}
use macintosh_craft.World.Sorted.Law
use macintosh_craft.World.Sorted.Edit
use macintosh_craft.World.Sorted.Change.{make_sorted_block_change}
use macintosh_craft.World.Sorted.Change.Fresh
use macintosh_craft.World.Blocks.{is_base_block}
use macintosh_craft.World.Section.{build_chunk_section_internal}
use macintosh_craft.World.Cache.{
  Cache, build_chunk_section, find_cache_entry, key_of, section_corner,
}
use macintosh_craft.World.Cache.Kept
use macintosh_craft.Tests.Data.{generator, empty_cache}
use macintosh_craft.Tests.Cache.{empty-IsKept}
use macintosh_craft.Base.{ℕ, zero, suc, ◌<◌, ◌≢◌, Bool-cases, inl, inr, none, if◌then◌else◌}
use macintosh_craft.World.Store.{Request, write_all, apply_requests, NoChests}
use macintosh_craft.World.Store.Arrays
use macintosh_craft.World.Store.Arrays.{unsorted_array, sorted_array, no_changes}

abbrev east : Place
east = record { x = pos 3; y = 64; z = pos 5 }

abbrev west : Place
west = record { x = negsuc 1; y = 70; z = pos 5 }

-- Dirt in the east.
abbrev east_only : Changes
east_only = record { entries = update (λ _. blank) 0 (change_at east 2); count = 1 }

east_only-IsSorted : IsSorted east_only
east_only-IsSorted = record { bounded = omega arith; ordered = λ i j h l. absurd (omega arith) }

-- Sand in the west comes first.
abbrev both : Changes
both = record {
  entries = update (update east_only.entries 1 (change_at east 2)) 0 (change_at west 6);
  count = 2;
}

stored_west : store_sorted_change false east_only west 6 ≡ changed both
unfolding store_sorted_change binary_search_block_change search_loop compare_coords
    shift_entries_right
stored_west = refl

store_sorted_change-law_example : IsSorted both × (get_sorted_change both west ≡ 6)
store_sorted_change-law_example =
    Law.store_sorted_change-law false east_only both west west 6 east_only-IsSorted stored_west

-- Dirt, sand, dirt again but as the terrain has it, and stone where the sand was.
abbrev requests : List Request
requests =
    record { is_base_block = false; place = east; block = 2 }
    ∷ record { is_base_block = false; place = west; block = 6 }
    ∷ record { is_base_block = true; place = east; block = 2 }
    ∷ record { is_base_block = false; place = west; block = 1 }
    ∷ []

requests-NoChests : NoChests 8 requests
unfolding NoChests
requests-NoChests = (omega arith, (omega arith, (omega arith, (omega arith, tt))))

arrays-refine_example :
    (s t : Changes) × (write_all (unsorted_array 8 (omega arith)) requests no_changes ≡ some s)
    × (write_all (sorted_array 8) requests no_changes ≡ some t)
    × ((q : Place)
        → (get_block_change 8 s q ≡ apply_requests requests (λ _. gap) q)
          × (get_sorted_change t q ≡ apply_requests requests (λ _. gap) q))
arrays-refine_example =
    Arrays.arrays-refine 8 (omega arith) requests requests-NoChests (omega arith)

both-IsSorted : IsSorted both
both-IsSorted =
    (Law.store_sorted_change-law false east_only both west west 6 east_only-IsSorted stored_west).0

both_without_chest : (i : ℕ) → i < 2 → (both.entries i).block ≢ 8
both_without_chest zero h e = omega arith
both_without_chest (suc zero) h e = omega arith
both_without_chest (suc (suc i)) h e = omega arith

get_sorted_change-linear_example : get_sorted_change both west ≡ get_block_change 8 both west
get_sorted_change-linear_example =
    Fresh.get_sorted_change-linear 8 both west both-IsSorted both_without_chest

-- Sand in the east, where there is dirt: the entry is changed, or removed if the terrain is sand.
abbrev sand_east : Changes
sand_east =
    if is_base_block generator east 6 then Edit.delete_at east_only 0 else Edit.set_at east_only 0 6

stored_sand :
    store_sorted_change (is_base_block generator east 6) east_only east 6 ≡ changed sand_east
unfolding store_sorted_change binary_search_block_change search_loop compare_coords
stored_sand = elim (Bool-cases (is_base_block generator east 6)) [
  | inl e ↦ rw e refl
  | inr e ↦ rw e refl
]

-- The section of the place is in the cache before.
abbrev cached : Cache
cached = (build_chunk_section generator east_only empty_cache (pos 0) 64 (pos 0)).1

build-make_sorted_block_change_example :
    let e = make_sorted_block_change generator [] east_only cached east 6 in
    (e.failed ≡ false)
    × (e.changes ≡ sand_east)
    × (find_cache_entry e.cache (key_of (section_corner (pos 3)) 64 (section_corner (pos 5)))
        ≡ none)
    × ((build_chunk_section generator e.changes e.cache
          (section_corner (pos 3))
          64
          (section_corner (pos 5))).0
        ≡ build_chunk_section_internal generator sand_east
            (section_corner (pos 3))
            64
            (section_corner (pos 5)))
build-make_sorted_block_change_example =
    Fresh.build-make_sorted_block_change generator [] east_only sand_east cached east 6
      (Kept.build_chunk_section-IsKept generator east_only empty_cache (pos 0) (pos 0) 64
        empty-IsKept)
      (omega arith) stored_sand
