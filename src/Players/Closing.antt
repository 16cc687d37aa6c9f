-- ===== src/Players/Closing.antt =====
-- `cs_closeContainer` of packets.c, with what it gives back to the player.
pub mod Kept
use macintosh_craft.Base.{
  ℕ, zero, suc, ◌+◌, ◌%◌, Bool, false, ◌||◌, Option, none, some, List, [], ◌∷◌, ◌++◌, map, ◌==◌,
  if◌then◌else◌,
}
use macintosh_craft.Base.Array.{update}
use macintosh_craft.Base.Int.{ℤ, pos}
use macintosh_craft.Registry.{Registry}
use macintosh_craft.Players.{PlayerData}
use macintosh_craft.Players.Slots.{server_slot_to_client_slot}
use macintosh_craft.Players.Give.{SlotUpdate, give_player_item}
use macintosh_craft.Players.Roster.{Roster, get_player_data}
use macintosh_craft.Net.Packets.Frame.{Packet, set_container_slot, set_cursor_item}

-- The player, what was sent to the player, and whether a call of `givePlayerItem` has failed, which
-- the code does not look at.
pub record Return : Type 0 where
  pub player : PlayerData
  pub sent : List Packet
  pub refused : Bool

abbrev pub slot_packet : SlotUpdate → Packet
slot_packet u = set_container_slot (pos u.window_id) u.slot u.count u.item

unfoldable pub give_back : Registry → ℕ → ℕ → Return → Return
give_back r item count w =
    let gift = give_player_item r w.player item count in
    record {
      player = gift.player;
      sent = w.sent ++ map slot_packet gift.sent;
      refused = w.refused || gift.failed;
    }

abbrev pub forget_slot : ℕ → PlayerData → PlayerData
forget_slot i p = record p {
  craft_items = update p.craft_items i 0;
  craft_count = update p.craft_count i 0;
  flags = record p.flags { locked = false };
}

abbrev pub empty_slot_packet : ℕ → ℕ → List Packet
empty_slot_packet window_id i =
    let client_slot = server_slot_to_client_slot window_id (41 + i) in
    if client_slot == 255 then [] else set_container_slot (pos window_id) client_slot 0 0 ∷ []

-- One round for slot `i` of the grid. The grid of a chest, window 2, holds a pointer.
unfoldable pub close_slot : Registry → ℕ → ℕ → Return → Return
close_slot r window_id i w =
    let given = give_back r (w.player.craft_items i) (w.player.craft_count i) w in
    let told = record given { sent = given.sent ++ empty_slot_packet window_id i } in
    let u : Return = if window_id == 2 then w else told in
    record u { player = forget_slot i u.player }

-- `n` rounds are left, from slot `i` on.
unfoldable pub close_loop : ℕ → Registry → ℕ → ℕ → Return → Return
close_loop zero r window_id i w = w
close_loop (suc n) r window_id i w = close_loop n r window_id (i + 1) (close_slot r window_id i w)

abbrev pub drop_cursor : Return → Return
drop_cursor w = record w {
  player = record w.player { flagval_16 = 0; flagval_8 = 0 };
  sent = w.sent ++ (set_cursor_item 0 0 ∷ []);
}

unfoldable pub close_container : Registry → ℕ → PlayerData → Return
close_container r window_id p =
    let w = close_loop 9 r window_id 0 (record { player = p; sent = []; refused = false }) in
    drop_cursor (give_back r w.player.flagval_16 w.player.flagval_8 w)

-- `number` is what was read for the window. `none` is the result 1.
unfoldable pub cs_close_container : Registry → Roster → ℤ → ℕ → Option (Roster × List Packet)
cs_close_container r roster client_fd number = elim (get_player_data roster.players client_fd) [
  | none ↦ none
  | some i ↦
      let w = close_container r (number % 256) (roster.players i) in
      some (record roster { players = update roster.players i w.player }, w.sent)
]
