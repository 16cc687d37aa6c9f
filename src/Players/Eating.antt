-- ===== src/Players/Eating.antt =====
-- What a player does with the held item in procedures.c: eating it, wearing it out; and the worn
-- armor.
pub mod Consumed
use macintosh_craft.Base.{
  ℕ, zero, suc, ◌+◌, ◌-◌, ◌*◌, ◌/◌, ◌%◌, ◌^◌, ◌≤◌, ◌<◌, ◌≡◌, ◌≢◌, refl, sym, ap, ◌∙◌, Bool, true,
  false, not, ◌&&◌, ◌||◌, Option, none, some, List, [], ◌∷◌, ◌++◌, length, inl, inr, ◌⊎◌, ◌↔◌,
  arith, Bool-cases, Option-cases, ltb, leb, ◌==◌, if◌then◌else◌, ==→eq, ==_iff, ltb→lt, leb→le,
}
use macintosh_craft.Base.Array.{update}
use macintosh_craft.Base.Int.{pos}
use macintosh_craft.Registry.{Registry, Item}
use macintosh_craft.Items.{breaks}
use macintosh_craft.Items.Armor.{get_item_defense_points}
use macintosh_craft.Tools.{fast_rand}
use macintosh_craft.Players.{PlayerData}
use macintosh_craft.Players.Slots.{server_slot_to_client_slot}
use macintosh_craft.Net.Packets.Frame.{Packet, entity_event, set_health, set_container_slot}

-- `food` and `saturation` of an item.
unfoldable pub food_value : Registry → ℕ → ℕ × ℕ
food_value r item =
    if item == r.item Item.chicken
    then (2, 600)
    else if item == r.item Item.beef
    then (3, 900)
    else if item == r.item Item.porkchop
    then (3, 300)
    else if item == r.item Item.mutton
    then (2, 600)
    else if item == r.item Item.cooked_chicken
    then (6, 3600)
    else if item == r.item Item.cooked_beef
    then (8, 6400)
    else if item == r.item Item.cooked_porkchop
    then (8, 6400)
    else if item == r.item Item.cooked_mutton
    then (6, 4800)
    else if item == r.item Item.rotten_flesh
    then (4, 0)
    else if item == r.item Item.apple
    then (4, 1200)
    else (0, 0)

-- The player after the call, what is sent to the player, and the value that is returned.
pub record Meal : Type 0 where
  pub player : PlayerData
  pub sent : List Packet
  pub eaten : Bool

-- `hunger` is a `uint8_t`, `saturation` a `uint16_t`.
unfoldable pub fed : PlayerData → ℕ × ℕ → PlayerData
fed p (food, saturation) =
    let hunger : ℕ = (p.hunger + food) % 256 in
    let count : ℕ = (p.inventory_count p.hotbar + 255) % 256 in
    record p {
      saturation = (p.saturation + saturation) % 65536;
      hunger = if ltb 20 hunger then 20 else hunger;
      inventory_count = update p.inventory_count p.hotbar count;
      inventory_items =
          if count == 0 then update p.inventory_items p.hotbar 0 else p.inventory_items;
    }

unfoldable pub meal_packets : PlayerData → List Packet
meal_packets p =
    entity_event p.client_fd 9
    ∷ set_health p.health p.hunger p.saturation
    ∷ set_container_slot (pos 0) (server_slot_to_client_slot 0 p.hotbar)
        (p.inventory_count p.hotbar) (p.inventory_items p.hotbar)
    ∷ []

unfoldable pub handle_player_eating : Registry → PlayerData → Bool → Meal
handle_player_eating r p just_check =
    let item = p.inventory_items p.hotbar in
    let value = food_value r item in
    let q = fed p value in
    if leb 20 p.hunger || (item == 0 || p.inventory_count p.hotbar == 0)
    then record { player = p; sent = []; eaten = false }
    else if just_check
    then record { player = p; sent = []; eaten = not (value.0 == 0) }
    else record { player = q; sent = meal_packets q; eaten = true }

-- With the state of the random numbers.
unfoldable pub bump_tool_durability : Registry → PlayerData → ℕ → PlayerData × List Packet × ℕ
bump_tool_durability r p seed =
    let random = fast_rand seed in
    if breaks r (p.inventory_items p.hotbar) random
    then (
      record p {
        inventory_items = update p.inventory_items p.hotbar 0;
        inventory_count = update p.inventory_count p.hotbar 0;
      },
      entity_event p.client_fd 47
          ∷ set_container_slot (pos 0) (server_slot_to_client_slot 0 p.hotbar) 0 0
          ∷ [],
      random,
    )
    else (p, [], random)

unfoldable pub get_player_defense_points : Registry → PlayerData → ℕ
get_player_defense_points r p =
    (get_item_defense_points r (p.inventory_items 39)
      + get_item_defense_points r (p.inventory_items 38)
      + get_item_defense_points r (p.inventory_items 37)
      + get_item_defense_points r (p.inventory_items 36))
    % 256
