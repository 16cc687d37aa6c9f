-- ===== src/Players/Actions.antt =====
-- What a player does to blocks, procedures.c: the state, and what several actions share.
pub mod Mining
pub mod Using
pub mod Near
use macintosh_craft.Base.{
  ℕ, ◌+◌, ◌-◌, ◌/◌, ◌%◌, Bool, true, false, List, [], ◌∷◌, ◌++◌, map, ◌==◌, if◌then◌else◌,
}
use macintosh_craft.Base.Int.{ℤ, pos, negsuc, ◌+ℤ◌, ◌-ℤ◌}
use macintosh_craft.Base.Array.{update}
use macintosh_craft.Registry.{Registry}
use macintosh_craft.Terrain.{Generator}
use macintosh_craft.World.Blocks.{Viewer, get_block_at, place_at}
use macintosh_craft.World.Fluids.{Flow, check_fluid_update}
use macintosh_craft.Net.Write.{Write}
use macintosh_craft.Net.Packets.Frame.{Packet, set_container_slot}
use macintosh_craft.Players.{PlayerData}
use macintosh_craft.Players.Slots.{server_slot_to_client_slot}
use macintosh_craft.Players.Give.{SlotUpdate, give_player_item}
use macintosh_craft.Players.Closing.{slot_packet}
use macintosh_craft.Players.Roster.{Doubles}

-- The world's generator, who is told of changes, GAMEMODE, the bound on the calls of
-- `handleFluidMovement`, the generated `I_to_B`, and the bits of doubles and of pointers: a pointer
-- to entry `i` of `block_changes` is `pointer_words` words `pointer i 0`, `pointer i 1`, ...
pub record Rules : Type 0 where
  pub generator : Generator
  pub viewers : List Viewer
  pub gamemode : ℕ
  pub depth : ℕ
  pub item_to_block : ℕ → ℕ
  pub doubles : Doubles
  pub pointer_words : ℕ
  pub pointer : ℕ → ℕ → ℕ

-- What the player is told: a packet of packets.c, or writes without a function there.
pub data Told : Type 0 where
  packet : Packet → Told
  writes : List Write → Told

-- The player, the world with what was broadcast, what the player was told, and `rng_seed`.
pub record Play : Type 0 where
  pub player : PlayerData
  pub flow : Flow
  pub told : List Told
  pub seed : ℕ

abbrev pub tell : List Packet → Play → Play
tell ps s = record s { told = s.told ++ map packet ps }

abbrev pub registry : Rules → Registry
registry r = r.generator.registry

abbrev pub block_at : Rules → ℤ → ℤ → ℤ → Play → ℕ
block_at r x y z s = get_block_at r.generator s.flow.changes x y z

abbrev pub held_item : PlayerData → ℕ
held_item p = p.inventory_items p.hotbar

abbrev pub held_count : PlayerData → ℕ
held_count p = p.inventory_count p.hotbar

-- `sc_setContainerSlot` of the slot in the hand.
unfoldable pub sync_hand : Play → Play
sync_hand s =
    let p = s.player in
    tell
      (set_container_slot (pos 0) (server_slot_to_client_slot 0 p.hotbar) (held_count p)
          (held_item p)
        ∷ [])
      s

unfoldable pub give : Rules → ℕ → ℕ → Play → Play
give r item count s =
    let gift = give_player_item (registry r) s.player item count in
    tell (map slot_packet gift.sent) (record s { player = gift.player })

-- One of the held item is taken away.
unfoldable pub take_one : Play → Play
take_one s =
    let p = s.player in
    let count : ℕ = (held_count p + 255) % 256 in
    record s {
      player = record p {
        inventory_count = update p.inventory_count p.hotbar count;
        inventory_items =
            if count == 0 then update p.inventory_items p.hotbar 0 else p.inventory_items;
      };
    }

-- The bits of `flags` that are kept as a number.
abbrev pub has_flag : ℕ → PlayerData → Bool
has_flag bit p = p.flags.other / bit % 2 == 1

unfoldable pub set_flag : ℕ → PlayerData → PlayerData
set_flag bit p =
    if has_flag bit p
    then p
    else record p { flags = record p.flags { other = p.flags.other + bit } }

unfoldable pub clear_flag : ℕ → PlayerData → PlayerData
clear_flag bit p =
    if has_flag bit p
    then record p { flags = record p.flags { other = p.flags.other - bit } }
    else p

abbrev pub check_fluid : Rules → ℤ → ℤ → ℤ → ℕ → Play → Play
check_fluid r x y z b s = record s {
  flow = check_fluid_update r.depth r.generator r.viewers (place_at x y z) b s.flow;
}

-- The fluid above, which is given, and the four beside, each as it is then.
unfoldable pub update_fluids : Rules → ℤ → ℤ → ℤ → ℕ → Play → Play
update_fluids r x y z above s =
    let s1 = check_fluid r x (y +ℤ pos 1) z above s in
    let s2 = check_fluid r (x -ℤ pos 1) y z (block_at r (x -ℤ pos 1) y z s1) s1 in
    let s3 = check_fluid r (x +ℤ pos 1) y z (block_at r (x +ℤ pos 1) y z s2) s2 in
    let s4 = check_fluid r x y (z -ℤ pos 1) (block_at r x y (z -ℤ pos 1) s3) s3 in
    check_fluid r x y (z +ℤ pos 1) (block_at r x y (z +ℤ pos 1) s4) s4
