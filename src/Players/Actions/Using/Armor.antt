-- ===== src/Players/Actions/Using/Armor.antt =====
-- The swap of a held piece of armor with the worn one, in `handlePlayerUseItem`.
use macintosh_craft.Base.{
  ℕ, ◌≡◌, ◌≢◌, refl, true, false, [], ◌∷◌, ◌++◌, map, inl, inr, arith, Bool-cases, ◌==◌, ==_iff,
  if◌then◌else◌,
}
use macintosh_craft.Base.Int.{negsuc}
use macintosh_craft.Items.Armor.{get_armor_item_slot}
use macintosh_craft.Net.Packets.Frame.{set_container_slot}
use macintosh_craft.Players.Slots.{server_slot_to_client_slot}
use macintosh_craft.Players.Actions.{Rules, Play, packet, registry, held_item}
use macintosh_craft.Players.Actions.Using.{swap_armor}

-- Each of two slots is given what it had.
put_back :
    (f : ℕ → ℕ) (a c i u v : ℕ)
    → (if c == i
        then f c
        else (if a == i then f a else (if c == i then u else (if a == i then v else f i))))
      ≡ f i
put_back f a c i u v = elim (Bool-cases (c == i)) [
  | inl t ↦ let e = (==_iff c i).0 t in rw (t, e) refl
  | inr t ↦ elim (Bool-cases (a == i)) [
    | inl w ↦ let e = (==_iff a i).0 w in rw (t, w, e) refl
    | inr w ↦ rw (t, w) refl
  ]
]

-- A piece that is worn and one in the hand that goes to the same slot, which is not the slot of the
-- hand: swapping twice leaves every slot with the item it had, though the first swap tells the client
-- of the piece worn before in both slots, the one of the armor included.
pub swap_armor-twice :
    (r : Rules) (s : Play) (slot i : ℕ)
    → get_armor_item_slot (registry r) (held_item s.player) ≡ slot
    → get_armor_item_slot (registry r) (s.player.inventory_items slot) ≡ slot
    → slot ≢ s.player.hotbar
    → let worn = s.player.inventory_items slot in
      let t = swap_armor r s in
      ((swap_armor r t).player.inventory_items i ≡ s.player.inventory_items i)
      × (t.told
          ≡ s.told
            ++ map packet (
                set_container_slot (negsuc 1) (server_slot_to_client_slot 0 slot) 1 worn
                ∷ set_container_slot
                    (negsuc 1)
                    (server_slot_to_client_slot 0 s.player.hotbar)
                    1
                    worn
                ∷ []))
unfolding swap_armor
swap_armor-twice r s slot i goes worn_goes aside =
    let f = s.player.inventory_items in
    let c = s.player.hotbar in
    let hand : (c == c) ≡ true = (==_iff c c).1 refl in
    let piece : (slot == slot) ≡ true = (==_iff slot slot).1 refl in
    let apart : (c == slot) ≡ false = ground arith in
    rw (goes, hand, worn_goes, piece, apart) (put_back f slot c i (f slot) (f c), refl)
