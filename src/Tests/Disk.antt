-- ===== src/Tests/Disk.antt =====
-- A world is saved and read back.
use macintosh_craft.Base.{◌≡◌, refl, true, false, some, arith}
use macintosh_craft.World.Changes.{Place, gap, blank, set_block}
use macintosh_craft.Players.Actions.Using.{chest_slot}
use macintosh_craft.Disk.{
  WorldFile, Stdio, Memory, write_all_data_to_disk, write_chest_changes_to_disk, init_serializer,
}
use macintosh_craft.Disk.Saved.{IsWorking, write_all_data_to_disk-overwritten}
use macintosh_craft.Disk.Session.{make_block_changes, first_memory, restart-get_block_at}
use macintosh_craft.World.Blocks.{get_block_at}
use macintosh_craft.World.Store.Arrays.{no_changes}
use macintosh_craft.Base.{List, [], ◌∷◌, none, ℕ, ◌<◌, Bool}
use macintosh_craft.World.Changes.{store_change}
use macintosh_craft.Base.Array.{modify_range}
use macintosh_craft.World.Blocks.{
  make_block_change, finish, is_base_block, in_game, send_update, Packet,
}
use macintosh_craft.Base.Int.{ℤ, pos}
use macintosh_craft.Tests.Data.{generator, sand_place}
use macintosh_craft.Disk.Chests.{write_chest_changes_to_disk-slot}
use macintosh_craft.Tests.Data.{miner, one_change}

abbrev stdio : Stdio
stdio = record {
  opens = true;
  creates = true;
  seeks = λ i. true;
  reads_entries = true;
  reads_players = true;
  writes_entries = true;
  writes_players = true;
  write_entry = λ i old new. (new, true);
  torn_players = λ old new. old;
}

stdio-IsWorking : IsWorking stdio
stdio-IsWorking = record {
  opens = refl;
  seeks = λ i. refl;
  creates = refl;
  writes_entries = refl;
  reads_entries = refl;
  reads_players = refl;
  writes_players = refl;
  write_entry = λ i old new. refl;
}

abbrev empty_file : WorldFile
empty_file = record {
  entries = λ i. set_block gap blank;
  players = λ i. miner;
  overwritten = false;
}

abbrev running : Memory
running = record { changes = one_change; players = λ i. miner }

write_all_data_to_disk-overwritten_example :
    (write_all_data_to_disk stdio running empty_file).overwritten ≡ false
write_all_data_to_disk-overwritten_example =
    write_all_data_to_disk-overwritten stdio running empty_file stdio-IsWorking (omega arith)

-- A chest, and a torch elsewhere.
abbrev torch_place : Place
torch_place = record { x = pos 3; y = 70; z = pos 4 }

abbrev history : List (Place × ℕ)
history = (sand_place, 8) ∷ (torch_place, 7) ∷ []

-- Whatever the terrain is there.
few_entries :
    (b c : Bool) (fds : List ℤ) (sent sent' : List Packet)
    → (finish generator torch_place fds sent' (
        store_change 8 c
          (finish generator sand_place fds sent (store_change 8 b no_changes sand_place 8)).changes
          torch_place
          7)).changes.count
      < 20000
unfolding finish store_change modify_range
few_entries true true fds sent sent' = omega arith
few_entries true false fds sent sent' = omega arith
few_entries false true fds sent sent' = omega arith
few_entries false false fds sent sent' = omega arith

room_left : (make_block_changes generator [] history no_changes).count < 20000
unfolding make_block_changes make_block_change
room_left =
    few_entries (is_base_block generator sand_place 8) (is_base_block generator torch_place 7)
      (in_game []) (send_update sand_place 8 (in_game [])) (send_update torch_place 7 (in_game []))

restart-get_block_at_example :
    let s = make_block_changes generator [] history no_changes in
    (first : WorldFile) × (last : WorldFile) × (m : Memory) × (init_serializer stdio 8
        (λ old. old)
        none
        (first_memory (λ i. miner))
      ≡ some (first, first_memory (λ i. miner)))
    × (write_all_data_to_disk stdio (record { changes = s; players = λ i. miner }) first ≡ last)
    × (init_serializer stdio 8 (λ old. old) (some last) (first_memory (λ i. miner))
        ≡ some (last, m))
    × (m.players ≡ (λ i. miner))
    × ((x y z : ℤ) → get_block_at generator m.changes x y z ≡ get_block_at generator s x y z)
restart-get_block_at_example =
    restart-get_block_at stdio (λ old. old) generator [] history (λ i. miner) (λ i. miner)
      stdio-IsWorking (omega arith) room_left

write_chest_changes_to_disk-slot_example :
    let g = write_chest_changes_to_disk stdio one_change 1 1 empty_file in
    (chest_slot true (record one_change { entries = g.entries }) 1 1
      ≡ chest_slot true one_change 1 1)
    × (g.entries 5 ≡ empty_file.entries 5)
write_chest_changes_to_disk-slot_example =
    write_chest_changes_to_disk-slot stdio true one_change 1 1 5 empty_file stdio-IsWorking
      (omega arith) (omega arith)
