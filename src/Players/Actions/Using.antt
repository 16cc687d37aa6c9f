-- ===== src/Players/Actions/Using.antt =====
-- `handlePlayerUseItem` of procedures.c.
pub mod Quiet
pub mod Hand
pub mod Faces
pub mod Solid
pub mod Armor
use macintosh_craft.Base.{
  ℕ, zero, suc, ◌+◌, ◌-◌, ◌*◌, ◌/◌, ◌%◌, Bool, true, false, not, ◌&&◌, ◌||◌, Option, none, some,
  List, [], ◌∷◌, ◌++◌, ltb, ◌==◌, if◌then◌else◌,
}
use macintosh_craft.Base.Int.{ℤ, pos, negsuc, ◌+ℤ◌, ◌-ℤ◌, eq_ℤ, to_i16, to_u8, wrap}
use macintosh_craft.Base.Array.{update}
use macintosh_craft.Registry.{Registry, Block, Item}
use macintosh_craft.Items.{
  is_compost_item, is_passable_block, is_replaceable_block, is_column_block, is_block,
}
use macintosh_craft.Items.Armor.{get_armor_item_slot, get_item_defense_points}
use macintosh_craft.Tools.{fast_rand}
use macintosh_craft.Terrain.{block}
use macintosh_craft.World.Changes.{Changes, BlockChange, Place, is_at}
use macintosh_craft.World.Blocks.{get_block_at, place_at, make_block_change, Built}
use macintosh_craft.World.Fluids.{Flow, flow_change}
use macintosh_craft.Structures.{place_tree_structure}
use macintosh_craft.Net.Packets.Frame.{Packet, open_screen, set_container_slot}
use macintosh_craft.Players.{PlayerData}
use macintosh_craft.Players.Slots.{server_slot_to_client_slot}
use macintosh_craft.Players.Eating.{handle_player_eating}
use macintosh_craft.Players.Actions.{
  Rules, Play, tell, registry, block_at, held_item, held_count, sync_hand, give, take_one, has_flag,
  set_flag, update_fluids,
}

-- "Crafting", "Furnace" and "Chest"
abbrev pub crafting_title : List ℕ
crafting_title = 67 ∷ 114 ∷ 97 ∷ 102 ∷ 116 ∷ 105 ∷ 110 ∷ 103 ∷ []

abbrev pub furnace_title : List ℕ
furnace_title = 70 ∷ 117 ∷ 114 ∷ 110 ∷ 97 ∷ 99 ∷ 101 ∷ []

abbrev pub chest_title : List ℕ
chest_title = 67 ∷ 104 ∷ 101 ∷ 115 ∷ 116 ∷ []

-- The six bytes of an entry of `block_changes`.
unfoldable pub entry_byte : Bool → BlockChange → ℕ → ℕ
entry_byte big e k =
    let high : ℕ → ℕ = λ v. if big then v / 256 else v % 256 in
    let low : ℕ → ℕ = λ v. if big then v % 256 else v / 256 in
    let x = wrap 65536 e.x in
    let z = wrap 65536 e.z in
    if k == 0
    then high x
    else if k == 1
    then low x
    else if k == 2
    then high z
    else if k == 3
    then low z
    else if k == 4
    then e.y
    else e.block

-- A byte of the storage that begins with the given entry.
abbrev pub storage_byte : Bool → Changes → ℕ → ℕ → ℕ
storage_byte big s first n = entry_byte big (s.entries (first + n / 6)) (n % 6)

-- The item and the count of a slot of a chest, three bytes.
unfoldable pub chest_slot : Bool → Changes → ℕ → ℕ → ℕ × ℕ
chest_slot big s first i =
    let a = storage_byte big s first (3 * i) in
    let b = storage_byte big s first (3 * i + 1) in
    (if big then 256 * a + b else 256 * b + a, storage_byte big s first (3 * i + 2))

-- The entry behind the chest at a place; `n` entries are left, from `i` on.
unfoldable pub find_storage : ℕ → ℕ → Changes → ℤ → ℤ → ℤ → ℕ → Option ℕ
find_storage zero chest s x y z i = none
find_storage (suc n) chest s x y z i =
    let rest = find_storage n chest s x y z (i + 1) in
    let e = s.entries i in
    if e.block == chest && (eq_ℤ e.x x && (eq_ℤ (pos e.y) y && eq_ℤ e.z z))
    then some (i + 1)
    else rest

-- `n` slots are left, from slot `i` on.
unfoldable pub chest_packets : ℕ → Bool → Changes → ℕ → ℕ → List Packet
chest_packets zero big s first i = []
chest_packets (suc n) big s first i =
    let (item, count) = chest_slot big s first i in
    set_container_slot (pos 2) i count item ∷ chest_packets n big s first (i + 1)

unfoldable pub open_chest : Rules → ℕ → Play → Play
open_chest r first s =
    let p = s.player in
    let q = record p {
      craft_items = λ j. if ltb j r.pointer_words then r.pointer first j else p.craft_items j;
      flags = record p.flags { locked = true };
    } in
    tell
      (open_screen 2 chest_title ∷ chest_packets 27 r.generator.big_endian s.flow.changes first 0)
      (record s { player = q })

unfoldable pub use_composter : Rules → Play → Option Play
use_composter r s =
    let chance = is_compost_item (registry r) (held_item s.player) in
    let s1 = sync_hand (take_one s) in
    let random = fast_rand s1.seed in
    let s2 = record s1 { seed = random } in
    if held_count s.player == 0
    then some s
    else if chance == 0
    then none
    else some (if ltb random chance then give r ((registry r).item Item.bone_meal) 1 s2 else s2)

unfoldable pub use_chest : Rules → ℤ → ℤ → ℤ → Play → Play
use_chest r x y z s =
    elim (find_storage s.flow.changes.count (block r.generator Block.chest) s.flow.changes x y z
      0) [ none ↦ s | some first ↦ open_chest r first s ]

-- What a container does, or `none` where the code goes on.
unfoldable pub use_container : Rules → ℕ → ℤ → ℤ → ℤ → Play → Option Play
use_container r target x y z s =
    if target == block r.generator Block.crafting_table
    then some (tell (open_screen 12 crafting_title ∷ []) s)
    else if target == block r.generator Block.furnace
    then some (tell (open_screen 14 furnace_title ∷ []) s)
    else if target == block r.generator Block.composter
    then use_composter r s
    else if target == block r.generator Block.chest
    then some (use_chest r x y z s)
    else none

-- The held piece of armor is swapped with the one that is worn. `item` points into the hand, which
-- has the piece that was worn before by the time that the packets are sent.
unfoldable pub swap_armor : Rules → Play → Play
swap_armor r s =
    let p = s.player in
    let slot = get_armor_item_slot (registry r) (held_item p) in
    let before = p.inventory_items slot in
    let q = record p {
      inventory_items = update (update p.inventory_items slot (held_item p)) p.hotbar before;
      inventory_count = update (update p.inventory_count slot 1) p.hotbar 1;
    } in
    tell
      (set_container_slot (negsuc 1) (server_slot_to_client_slot 0 slot) 1 (held_item q)
        ∷ set_container_slot (negsuc 1) (server_slot_to_client_slot 0 p.hotbar) 1 before
        ∷ [])
      (record s { player = q })

unfoldable pub grow_tree : Rules → ℤ → ℤ → ℤ → Play → Play
grow_tree r x y z s =
    let (b, seed) =
      place_tree_structure r.generator r.viewers s.seed x (to_u8 y) z s.flow.changes in
    record s {
      seed = seed;
      flow = record s.flow { changes = b.changes; sent = s.flow.sent ++ b.sent };
    }

unfoldable pub use_bone_meal : Rules → ℕ → ℤ → ℤ → ℤ → Play → Play
use_bone_meal r target x y z s =
    let below = block_at r x (y -ℤ pos 1) z s in
    let s1 = sync_hand (take_one s) in
    let random = fast_rand s1.seed in
    let s2 = record s1 { seed = random } in
    if not (target == block r.generator Block.oak_sapling)
    then s
    else if not (
        is_block (registry r) below
          (Block.dirt ∷ Block.grass_block ∷ Block.snowy_grass_block ∷ Block.mud ∷ []))
    then s1
    else if random % 4 == 0
    then grow_tree r x y z s2
    else s2

-- The coordinates behind a face, converted to `short`.
unfoldable pub behind_face : ℕ → ℤ → ℤ → ℤ → ℤ × ℤ × ℤ
behind_face face x y z =
    if face == 0
    then (x, to_i16 (y -ℤ pos 1), z)
    else if face == 1
    then (x, to_i16 (y +ℤ pos 1), z)
    else if face == 2
    then (x, y, to_i16 (z -ℤ pos 1))
    else if face == 3
    then (x, y, to_i16 (z +ℤ pos 1))
    else if face == 4
    then (to_i16 (x -ℤ pos 1), y, z)
    else if face == 5
    then (to_i16 (x +ℤ pos 1), y, z)
    else (x, y, z)

unfoldable pub can_place : Rules → ℕ → ℤ → ℤ → ℤ → Play → Bool
can_place r b x y z s =
    let p = s.player in
    not (
      not (is_passable_block (registry r) b)
      && (eq_ℤ x p.x && ((eq_ℤ y (pos p.y) || eq_ℤ y (pos p.y +ℤ pos 1)) && eq_ℤ z p.z)))
    && (is_replaceable_block (registry r) (block_at r x y z s)
        && (not (is_column_block (registry r) b)
            || not (block_at r x (y -ℤ pos 1) z s == block r.generator Block.air)))

-- The last part, for the block of the held item at the coordinates behind the face.
unfoldable pub place_block : Rules → ℕ → ℤ → ℤ → ℤ → Play → Play
place_block r b x y z s =
    let e = make_block_change r.generator r.viewers s.flow.changes (place_at x y z) b in
    let changed = record s { flow = flow_change r.generator r.viewers (place_at x y z) b s.flow } in
    let taken = take_one changed in
    let above = block_at r x (y +ℤ pos 1) z taken in
    if not (can_place r b x y z s)
    then sync_hand s
    else if e.failed
    then changed
    else sync_hand (update_fluids r x y z above taken)

unfoldable pub use_block : Rules → ℤ → ℤ → ℤ → ℕ → Play → Play
use_block r x y z face s =
    let b = r.item_to_block (held_item s.player) in
    let (x', y', z') = behind_face face x y z in
    if face == 255 then s else if b == 0 then s else place_block r b x' y' z' s

-- With something in the hand.
unfoldable pub use_held : Rules → ℕ → ℤ → ℤ → ℤ → ℕ → Play → Play
use_held r target x y z face s =
    let item = held_item s.player in
    let meal = handle_player_eating (registry r) s.player true in
    let eating = record s { player = set_flag 16 (record s.player { flagval_16 = 0 }) } in
    if item == (registry r).item Item.bone_meal
    then use_block r x y z face (use_bone_meal r target x y z s)
    else if meal.eaten
    then use_block r x y z face eating
    else if not (get_item_defense_points (registry r) item == 0)
    then (if not (face == 255) then s else swap_armor r s)
    else use_block r x y z face s

unfoldable pub handle_player_use_item : Rules → ℤ → ℤ → ℤ → ℕ → Play → Play
handle_player_use_item r x y z face s =
    let target : ℕ = if face == 255 then 0 else block_at r x y z s in
    let rest = if held_count s.player == 0 then s else use_held r target x y z face s in
    if not (has_flag 4 s.player) && not (face == 255)
    then elim (use_container r target x y z s) [ some t ↦ t | none ↦ rest ]
    else rest
