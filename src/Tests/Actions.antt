-- ===== src/Tests/Actions.antt =====
-- A player mines and places blocks beside a rock, and swaps armor.
use macintosh_craft.Base.{
  ◌+◌, ◌≡◌, refl, false, inl, [], ◌∷◌, ◌++◌, map, arith, ◌==◌, if◌then◌else◌,
}
use macintosh_craft.Base.Int.{pos, negsuc, ◌+ℤ◌, ◌-ℤ◌, to_i16, to_u8}
use macintosh_craft.Base.Array.{update}
use macintosh_craft.Items.{is_column_block, is_block, is_one_of}
use macintosh_craft.Items.Armor.{get_armor_item_slot}
use macintosh_craft.World.Changes.Write.{same_place}
use macintosh_craft.World.Blocks.{place_at}
use macintosh_craft.World.Blocks.Kept.{IsPlantable}
use macintosh_craft.Net.Packets.Frame.{set_container_slot}
use macintosh_craft.Players.Slots.{server_slot_to_client_slot}
use macintosh_craft.Players.Actions.{Rules, Play, packet, block_at}
use macintosh_craft.Players.Actions.Mining.{break_column}
use macintosh_craft.Players.Actions.Mining.Ends.{break_column-ends}
use macintosh_craft.Players.Actions.Using.{handle_player_use_item, swap_armor}
use macintosh_craft.Players.Actions.Using.Solid.{CanPlant, handle_player_use_item-solid}
use macintosh_craft.Players.Actions.Using.Armor.{swap_armor-twice}
use macintosh_craft.Tests.Data.{miner}
use macintosh_craft.Tests.Fluids.{
  wet, wet-HasFluids, rock, still, spring_and_rock-IsPlain, rock_there, spring_there, bedrock_stays,
}

-- Diamonds are placed as dirt.
abbrev rules : Rules
rules = record {
  generator = wet;
  viewers = [];
  gamemode = 0;
  depth = 9;
  item_to_block = λ i. if i == 51 then 2 else 0;
  doubles = record { block_centre = λ x. 0; whole = λ y. y };
  pointer_words = 4;
  pointer = λ i k. i + k;
}

abbrev play : Play
play = record { player = record miner { hotbar = 3 }; flow = still; told = []; seed = 1 }

air-IsPlantable : IsPlantable wet 0
air-IsPlantable = (omega arith, omega arith)

rules-CanPlant : CanPlant rules 51
rules-CanPlant = record {
  dirt = (omega arith, omega arith);
  logs = air-IsPlantable;
  leaves = air-IsPlantable;
  held = (omega arith, omega arith);
  nothing = air-IsPlantable;
}

spring_aside : same_place (place_at (pos 16) (pos 70) (negsuc 2)) rock ≡ false
unfolding to_i16 to_u8
spring_aside = refl

below_aside : same_place (place_at (pos 16) (pos 70 -ℤ pos 1) (negsuc 2)) rock ≡ false
unfolding to_i16 to_u8
below_aside = refl

spring_no_column : is_column_block wet.registry 20 ≡ false
unfolding is_column_block is_block
spring_no_column = refl

handle_player_use_item-solid_example :
    block_at rules
      (pos 17)
      (pos 70)
      (negsuc 2)
      (handle_player_use_item rules (pos 16) (pos 70) (negsuc 2) 1 play)
    ≡ 4
handle_player_use_item-solid_example =
    handle_player_use_item-solid rules (pos 16) (pos 70) (negsuc 2) 1 play rock 4
      (omega arith, omega arith) (omega arith, omega arith) (omega arith, omega arith) spring_aside
      below_aside (omega arith, omega arith, omega arith, omega arith, omega arith) wet-HasFluids
      rules-CanPlant (omega arith) spring_and_rock-IsPlain rock_there (bedrock_stays, refl) refl

break_column-ends_example :
    (break_column 257 rules
      (pos 16)
      (pos 70)
      (negsuc 2)
      1
      (block_at rules (pos 16) (pos 70 +ℤ pos 1) (negsuc 2) play)
      play).flow.deep
    ≡ false
break_column-ends_example =
    break_column-ends rules 257 (pos 16) 70 (negsuc 2) 1 20 play (omega arith, omega arith)
      (omega arith, omega arith) (omega arith) (omega arith) (omega arith) air-IsPlantable
      spring_and_rock-IsPlain spring_there spring_no_column (inl (omega arith))

-- The helmet is in the hand and another is worn.
abbrev knight : Play
knight = record play {
  player = record miner { inventory_items = update (update (λ _. 0) 0 60) 39 60 };
}

helmet : get_armor_item_slot wet.registry 60 ≡ 39
unfolding get_armor_item_slot is_one_of
helmet = refl

swap_armor-twice_example :
    let t = swap_armor rules knight in
    ((swap_armor rules t).player.inventory_items 39 ≡ 60)
    × (t.told
        ≡ []
          ++ map packet (
              set_container_slot (negsuc 1) (server_slot_to_client_slot 0 39) 1 60
              ∷ set_container_slot (negsuc 1) (server_slot_to_client_slot 0 0) 1 60
              ∷ []))
swap_armor-twice_example = swap_armor-twice rules knight 39 39 helmet helmet (omega arith)
