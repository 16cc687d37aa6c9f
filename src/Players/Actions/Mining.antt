-- ===== src/Players/Actions/Mining.antt =====
-- `handlePlayerAction` of procedures.c, with `playPickupAnimation`.
pub mod Solid
pub mod Ends
use macintosh_craft.Base.{
  ℕ, zero, suc, ◌+◌, ◌-◌, ◌/◌, ◌%◌, Bool, true, false, not, ◌&&◌, ◌||◌, List, [], ◌∷◌, ◌++◌, map,
  ◌==◌, if◌then◌else◌,
}
use macintosh_craft.Base.{get_or}
use macintosh_craft.Base.Int.{ℤ, pos, negsuc, ◌+ℤ◌, ◌-ℤ◌, to_u32}
use macintosh_craft.Registry.{Registry, Block, Item}
use macintosh_craft.Items.{get_mining_result, is_instantly_mined, is_column_block}
use macintosh_craft.Tools.{fast_rand}
use macintosh_craft.World.Blocks.{get_block_at, place_at, make_block_change}
use macintosh_craft.World.Fluids.{Flow, flow_change}
use macintosh_craft.Net.Write.{Write, var_int, byte}
use macintosh_craft.Net.Write.{var_size}
use macintosh_craft.Net.Packets.Frame.{Packet, spawn_entity, pickup_item, remove_entity}
use macintosh_craft.Players.{PlayerData}
use macintosh_craft.Players.Eating.{bump_tool_durability}
use macintosh_craft.Players.Actions.{
  Rules, Play, Told, packet, writes, tell, registry, block_at, held_item, sync_hand, give,
  clear_flag, update_fluids,
}

-- The metadata of an item entity, with id -1.
unfoldable pub item_metadata : ℕ → List Write
item_metadata item =
    var_int (12 + var_size item)
    ∷ byte 0x5C
    ∷ var_int (to_u32 (negsuc 0))
    ∷ byte 8
    ∷ byte 7
    ∷ byte 1
    ∷ var_int item
    ∷ byte 0
    ∷ byte 0
    ∷ byte 0xFF
    ∷ []

unfoldable pub play_pickup_animation : Rules → ℕ → ℤ → ℤ → ℤ → Play → Play
play_pickup_animation r item x y z s =
    let p = s.player in
    let centre = r.doubles.block_centre in
    record s {
      told =
          s.told
          ++ (packet (
                spawn_entity (negsuc 0) (λ i. get_or p.name i 0) (pos 69) (centre x) (centre y)
                  (centre z) 0 0)
              ∷ writes (item_metadata item)
              ∷ packet (pickup_item (negsuc 0) p.client_fd 1)
              ∷ packet (remove_entity (negsuc 0))
              ∷ []);
    }

-- `getMiningResult`, which draws a random number for leaves only.
unfoldable pub mine_result : Rules → ℕ → ℕ → Play → ℕ × Play
mine_result r held b s =
    let random = fast_rand s.seed in
    let draws : Bool =
      (b == (registry r).block Block.oak_leaves) && not (held == (registry r).item Item.shears) in
    (get_mining_result (registry r) random held b, if draws then record s { seed = random } else s)

unfoldable pub wear_tool : Rules → Play → Play
wear_tool r s =
    let (p, ps, seed) = bump_tool_durability (registry r) s.player s.seed in
    tell ps (record s { player = p; seed = seed })

-- One block above is broken, and dropped as without a tool.
unfoldable pub break_one : Rules → ℤ → ℤ → ℤ → ℕ → Play → Play
break_one r x y z b s =
    let s1 = record s { flow = flow_change r.generator r.viewers (place_at x y z) 0 s.flow } in
    let (item, s2) = mine_result r 0 b s1 in if item == 0 then s2 else give r item 1 s2

-- The blocks above that need one below; `b` is the one at `y + offset`, and `n` rounds are left.
unfoldable pub break_column : ℕ → Rules → ℤ → ℤ → ℤ → ℕ → ℕ → Play → Play
break_column zero r x y z offset b s = record s { flow = record s.flow { deep = true } }
break_column (suc n) r x y z offset b s =
    let s1 = break_one r x (y +ℤ pos offset) z b s in
    let next : ℕ = (offset + 1) % 256 in
    let rest = break_column n r x y z next (block_at r x (y +ℤ pos next) z s1) s1 in
    if is_column_block (registry r) b then rest else s

-- The drop of a block that was mined.
unfoldable pub drop_item : Rules → ℤ → ℤ → ℤ → ℕ → Play → Play
drop_item r x y z b s =
    let (item, s1) = mine_result r (held_item s.player) b s in
    let s2 = wear_tool r s1 in
    if item == 0 then s2 else give r item 1 (play_pickup_animation r item x y z s2)

-- Behind the change that did not fail. A byte counts the blocks above, so 257 rounds are enough.
unfoldable pub after_mining : Rules → ℤ → ℤ → ℤ → ℕ → Play → Play
after_mining r x y z b s =
    let dropped = drop_item r x y z b s in
    let above = block_at r x (y +ℤ pos 1) z dropped in
    break_column 257 r x y z 1 above (update_fluids r x y z above dropped)

unfoldable pub mine : Rules → ℕ → ℤ → ℤ → ℤ → Play → Play
mine r action x y z s =
    let b = block_at r x y z s in
    let e = make_block_change r.generator r.viewers s.flow.changes (place_at x y z) 0 in
    let changed = record s { flow = flow_change r.generator r.viewers (place_at x y z) 0 s.flow } in
    if action == 0 && r.gamemode == 1
    then changed
    else if (action == 0) && not (is_instantly_mined (registry r) (held_item s.player) b)
    then s
    else if e.failed
    then changed
    else after_mining r x y z b changed

unfoldable pub handle_player_action : Rules → ℕ → ℤ → ℤ → ℤ → Play → Play
handle_player_action r action x y z s =
    let stopped = record s { player = clear_flag 16 (record s.player { flagval_16 = 0 }) } in
    if action == 3 || action == 4
    then sync_hand s
    else if action == 5
    then stopped
    else if not (action == 0) && not (action == 2)
    then s
    else mine r action x y z s
