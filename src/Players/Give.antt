-- ===== src/Players/Give.antt =====
-- `givePlayerItem` of procedures.c.
pub mod Total
use macintosh_craft.Base.{
  ℕ, zero, suc, ◌+◌, ◌%◌, Bool, ◌&&◌, ◌||◌, false, true, List, [], ◌∷◌, Option, none, some,
}
use macintosh_craft.Base.{ltb, leb, ◌==◌, if◌then◌else◌}
use macintosh_craft.Base.Array.{update}
use macintosh_craft.Base.Int.{ℤ}
use macintosh_craft.Players.Slots.{server_slot_to_client_slot}
use macintosh_craft.Registry.{Registry}
use macintosh_craft.Items.{get_item_stack_size}
use macintosh_craft.Players.{PlayerData}

-- The first of `n` slots from `i` on that passes the test.
unfoldable pub find_slot : ℕ → (ℕ → Bool) → ℕ → Option ℕ
find_slot zero test i = none
find_slot (suc n) test i = let rest = find_slot n test (i + 1) in if test i then some i else rest

-- A stack of the item with room; `count <= stack_size - given` as a sum.
abbrev pub has_room : Registry → PlayerData → ℕ → ℕ → ℕ → Bool
has_room r p item count i =
    p.inventory_items i == item && leb (p.inventory_count i + count) (get_item_stack_size r item)

abbrev pub is_empty_slot : PlayerData → ℕ → Bool
is_empty_slot p i = p.inventory_count i == 0

unfoldable pub choose_slot : Registry → PlayerData → ℕ → ℕ → ℕ
choose_slot r p item count = elim (find_slot 41 (has_room r p item count) 0) [
  | some i ↦ i
  | none ↦ elim (find_slot 41 (is_empty_slot p) 0) [ some i ↦ i | none ↦ 255 ]
]

abbrev pub put_in : PlayerData → ℕ → ℕ → ℕ → PlayerData
put_in p item count slot = record p {
  inventory_items = update p.inventory_items slot item;
  inventory_count = update p.inventory_count slot ((p.inventory_count slot + count) % 256);
}

-- The arguments of `sc_setContainerSlot`.
pub record SlotUpdate : Type 0 where
  pub client_fd : ℤ
  pub window_id : ℕ
  pub slot : ℕ
  pub count : ℕ
  pub item : ℕ

-- The player after the call, what it sends, and whether it returns 1.
pub record Gift : Type 0 where
  pub player : PlayerData
  pub sent : List SlotUpdate
  pub failed : Bool

abbrev pub slot_update : PlayerData → ℕ → ℕ → SlotUpdate
slot_update p item slot = record {
  client_fd = p.client_fd;
  window_id = 0;
  slot = server_slot_to_client_slot 0 slot;
  count = p.inventory_count slot;
  item = item;
}

-- It fails if the slot is outside the main inventory.
unfoldable pub give_player_item : Registry → PlayerData → ℕ → ℕ → Gift
give_player_item r p item count =
    let slot = choose_slot r p item count in
    let q = put_in p item count slot in
    if item == 0 || count == 0
    then record { player = p; sent = []; failed = false }
    else if leb 36 slot
    then record { player = p; sent = []; failed = true }
    else record { player = q; sent = slot_update q item slot ∷ []; failed = false }
