-- ===== src/Tests/Players.antt =====
-- Slots and gifts, terrain heights, and divisions, at concrete values.
use macintosh_craft.Base.{
  ℕ, ◌+◌, ◌≤◌, ◌≡◌, ◌≢◌, refl, ◌⊎◌, false, true, [], arith, if◌then◌else◌, ◌==◌,
}
use macintosh_craft.Base.Int.{pos, negsuc, ◌+ℤ◌}
use macintosh_craft.Terrain.Height.{get_height_at}
use macintosh_craft.Terrain.Height.Bounds
use macintosh_craft.Terrain.Feature.{get_terrain_at, anchor_of}
use macintosh_craft.Terrain.Section.{section_index, section_terrain}
use macintosh_craft.Terrain.Section.Agreement
use macintosh_craft.Items.{get_item_stack_size, is_one_of}
use macintosh_craft.Players.Slots.{client_slot_to_server_slot, server_slot_to_client_slot}
use macintosh_craft.Players.Slots
use macintosh_craft.Players.Give.{give_player_item}
use macintosh_craft.Players.Give.Total
use macintosh_craft.Tests.Data.{generator, numbers, miner}

window_slot_mismatch_example :
    (client_slot_to_server_slot 12 (server_slot_to_client_slot 12 9) ≢ 9)
    × (client_slot_to_server_slot 14 (server_slot_to_client_slot 14 9) ≢ 9)
window_slot_mismatch_example = Slots.window_slot_mismatch 9 (omega arith)

stack_of_diamonds : get_item_stack_size numbers 51 ≡ 64
unfolding get_item_stack_size is_one_of
stack_of_diamonds = refl

give_player_item-held_example :
    let gift = give_player_item numbers miner 51 5 in
    ((gift.failed ≡ false)
      × ((other : ℕ)
          → Total.held gift.player other ≡ Total.held miner other + (if other == 51 then 5 else 0)))
    ⊎ ((gift.failed ≡ true) × (gift.player ≡ miner) × (gift.sent ≡ []))
give_player_item-held_example =
    Total.give_player_item-held numbers miner 51 5 (omega arith) (omega arith)
      (omega (arith, stack_of_diamonds))

get_height_at_bounds_example :
    (50 ≤ get_height_at generator (pos 100) (negsuc 40))
    × (get_height_at generator (pos 100) (negsuc 40) ≤ 81)
get_height_at_bounds_example = Bounds.get_height_at_bounds generator (pos 100) (negsuc 40)

abbrev dx : ℕ
dx = 1

abbrev dy : ℕ
dy = 15

abbrev dz : ℕ
dz = 9

section_terrain-get_terrain_at_example :
    let x = negsuc 15 +ℤ pos 9 in
    let z = pos 32 +ℤ pos 4 in
    section_terrain generator (negsuc 15) 64 (pos 32) (section_index 9 3 4)
    ≡ get_terrain_at generator x 67 z (anchor_of generator x z)
section_terrain-get_terrain_at_example =
    Agreement.section_terrain-get_terrain_at generator (negsuc 15) (pos 32) 64 9 3 4 refl refl
      (omega arith) (omega arith) (omega arith)
