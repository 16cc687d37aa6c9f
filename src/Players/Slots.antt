-- ===== src/Players/Slots.antt =====
-- The numbering of inventory slots, here and at the client.
use macintosh_craft.Base.{
  ℕ, ◌+◌, ◌-◌, ◌%◌, ◌≤◌, ◌≡◌, ◌≢◌, ◌&&◌, ltb, leb, ◌==◌, if◌then◌else◌, arith, inl, inr, ◌⊎◌,
}

-- The player's own window, number 0. 255 is no slot.
unfoldable pub inventory_to_client : ℕ → ℕ
inventory_to_client slot =
    if ltb slot 9
    then slot + 36
    else if leb 9 slot && leb slot 35
    then slot
    else if slot == 40
    then 45
    else if leb 36 slot && leb slot 39
    then 44 - slot
    else if leb 41 slot && leb slot 44
    then slot - 40
    else 255

-- The crafting table is window 12, the furnace 14. The slots are `uint8_t`.
unfoldable pub server_slot_to_client_slot : ℕ → ℕ → ℕ
server_slot_to_client_slot window_id slot =
    if window_id == 0
    then inventory_to_client slot
    else if window_id == 12
    then (if leb 41 slot && leb slot 49
        then slot - 40
        else inventory_to_client ((slot + 255) % 256))
    else if window_id == 14
    then (if leb 41 slot && leb slot 43 then slot - 41 else inventory_to_client ((slot + 6) % 256))
    else 255

unfoldable pub client_to_inventory : ℕ → ℕ
client_to_inventory slot =
    if leb 36 slot && leb slot 44
    then slot - 36
    else if leb 9 slot && leb slot 35
    then slot
    else if slot == 45
    then 40
    else if leb 5 slot && leb slot 8
    then 44 - slot
    else if slot == 1
    then 41
    else if slot == 2
    then 42
    else if slot == 3
    then 44
    else if slot == 4
    then 45
    else 255

-- A chest is window 2.
unfoldable pub client_slot_to_server_slot : ℕ → ℕ → ℕ
client_slot_to_server_slot window_id slot =
    if window_id == 0
    then client_to_inventory slot
    else if window_id == 12
    then (if leb 1 slot && leb slot 9
        then 40 + slot
        else if leb 10 slot && leb slot 45
        then client_to_inventory (slot - 1)
        else 255)
    else if window_id == 14
    then (if leb slot 2
        then 41 + slot
        else if leb 3 slot && leb slot 38
        then client_to_inventory (slot + 6)
        else 255)
    else if window_id == 2
    then (if leb slot 26
        then 41 + slot
        else if leb 27 slot && leb slot 62
        then client_to_inventory (slot - 18)
        else 255)
    else 255

-- Each of the 41 slots of the inventory has a client slot of its own in window 0, from which it is
-- found again.
pub inventory_slot_round_trip :
    (slot : ℕ)
    → slot ≤ 40
    → (client_slot_to_server_slot 0 (server_slot_to_client_slot 0 slot) ≡ slot)
      × (server_slot_to_client_slot 0 slot ≤ 45)
unfolding client_slot_to_server_slot server_slot_to_client_slot client_to_inventory
    inventory_to_client
inventory_slot_round_trip slot h = ground arith

-- Each of the nine slots of a crafting table's grid, and of the three of a furnace, is found again
-- from its client slot.
pub grid_slot_round_trip :
    (window_id slot : ℕ)
    → 41 ≤ slot
    → ((window_id ≡ 12) × (slot ≤ 49)) ⊎ ((window_id ≡ 14) × (slot ≤ 43))
    → client_slot_to_server_slot window_id (server_slot_to_client_slot window_id slot) ≡ slot
unfolding client_slot_to_server_slot server_slot_to_client_slot
grid_slot_round_trip window_id slot h (inl (w, k)) = rw w (ground arith)
grid_slot_round_trip window_id slot h (inr (w, k)) = rw w (ground arith)

-- In the windows of the crafting table and of the furnace, `serverSlotToClientSlot` shifts a slot
-- before the lookup where it should shift the result: no slot of the hotbar or the main inventory
-- comes back to itself.
pub window_slot_mismatch :
    (slot : ℕ)
    → slot ≤ 35
    → (client_slot_to_server_slot 12 (server_slot_to_client_slot 12 slot) ≢ slot)
      × (client_slot_to_server_slot 14 (server_slot_to_client_slot 14 slot) ≢ slot)
unfolding client_slot_to_server_slot server_slot_to_client_slot client_to_inventory
    inventory_to_client
window_slot_mismatch slot h = (λ e. ground arith, λ e. ground arith)
