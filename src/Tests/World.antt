-- ===== src/Tests/World.antt =====
-- The array of block changes and the sections, in the test world.
use macintosh_craft.Base.{◌≡◌, refl, ◌↔◌, false, arith}
use macintosh_craft.Base.Int.{pos, negsuc}
use macintosh_craft.World.Changes.{
  Changes, Place, get_block_change, store_change, stored, full, change_at,
}
use macintosh_craft.World.Changes.MapLaw
use macintosh_craft.World.Changes.Plain.{IsPlain}
use macintosh_craft.Base.{List, [], ◌∷◌, true, ◌⊎◌, if◌then◌else◌}
use macintosh_craft.World.Blocks.{get_block_at, make_block_change, Viewer, in_game}
use macintosh_craft.World.Blocks.Reads
use macintosh_craft.World.Changes.Write.{same_place}
use macintosh_craft.Base.Array.{update}
use macintosh_craft.Tests.Data.{generator, one_change, one_change-IsPlain, sand_place}

-- Dirt in place of the gap.
abbrev dirt_place : Place
dirt_place = record { x = pos 3; y = 64; z = pos 5 }

abbrev two_changes : Changes
two_changes = record { entries = update one_change.entries 0 (change_at dirt_place 2); count = 2 }

stored_dirt : store_change 8 false one_change dirt_place 2 ≡ stored two_changes
unfolding store_change
stored_dirt = refl

get-store_change_example : get_block_change 8 two_changes dirt_place ≡ 2
get-store_change_example =
    MapLaw.get-store_change 8 false one_change two_changes dirt_place dirt_place 2
      one_change-IsPlain (omega arith) (omega arith) stored_dirt

store_change-IsPlain_example : IsPlain 8 two_changes
store_change-IsPlain_example =
    MapLaw.store_change-IsPlain 8 false one_change two_changes dirt_place 2 one_change-IsPlain
      (omega arith) (omega arith) stored_dirt

store_change-full_iff_example :
    (store_change 8 false one_change dirt_place 2 ≡ full one_change)
    ↔ ((false ≡ false) × MapLaw.IsFull one_change dirt_place)
store_change-full_iff_example =
    MapLaw.store_change-full_iff 8 false one_change dirt_place 2 one_change-IsPlain (omega arith)
      (omega arith)

-- Dirt is put on the surface while two players are known, one of them still loading.
abbrev viewers : List Viewer
viewers =
    record { client_fd = pos 4; loading = false }
    ∷ record { client_fd = pos 5; loading = true }
    ∷ []

seen_by_one : in_game viewers ≡ pos 4 ∷ []
unfolding in_game
seen_by_one = refl

make_block_change-get_block_at_example :
    let e = make_block_change generator viewers one_change dirt_place 2 in
    ((e.failed ≡ false)
      × (get_block_at generator e.changes (pos 17) (pos 70) (negsuc 2) ≡ (
          if same_place dirt_place sand_place
          then 2
          else get_block_at generator one_change (pos 17) (pos 70) (negsuc 2))))
    ⊎ ((e.failed ≡ true) × (e.changes ≡ one_change) × MapLaw.IsFull one_change dirt_place)
make_block_change-get_block_at_example =
    Reads.make_block_change-get_block_at generator viewers one_change dirt_place sand_place 2
      one_change-IsPlain ((omega arith, omega arith), (omega arith, omega arith), omega arith)
      (omega arith) (omega arith) (omega arith)
