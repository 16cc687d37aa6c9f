-- ===== src/Players/Eating/Consumed.antt =====
-- Eating and the items and the hunger of the player.
use macintosh_craft.Base.{
  ℕ, ◌+◌, ◌≤◌, ◌<◌, ◌≡◌, ◌≢◌, refl, Bool, true, false, ◌||◌, [], inl, inr, ◌⊎◌, arith, Bool-cases,
  leb, ◌==◌, if◌then◌else◌,
}
use macintosh_craft.Registry.{Registry}
use macintosh_craft.Players.{PlayerData}
use macintosh_craft.Players.Give.Total.{held, in_slot, sum_below_change}
use macintosh_craft.Players.Eating.{food_value, fed, handle_player_eating}

food_small : (r : Registry) (item : ℕ) → (food_value r item).0 ≤ 8
unfolding food_value
food_small r item = ground arith

module _ (p : PlayerData) (value : ℕ × ℕ) (item : ℕ) (real : item ≢ 0) (slot : p.hotbar < 41)
    (some_left : p.inventory_count p.hotbar ≢ 0) (byte : p.inventory_count p.hotbar < 256) where
  elsewhere : (i : ℕ) → i ≢ p.hotbar → in_slot (fed p value) item i ≡ in_slot p item i
  unfolding fed
  elsewhere i ne = ground arith

  one_less :
      in_slot (fed p value) item p.hotbar + (if p.inventory_items p.hotbar == item then 1 else 0)
      ≡ in_slot p item p.hotbar
  unfolding fed
  one_less = ground arith

  held-fed :
      held (fed p value) item + (if p.inventory_items p.hotbar == item then 1 else 0) ≡ held p item
  unfolding held
  held-fed = omega (
    arith,
    sum_below_change 41 p.hotbar (in_slot (fed p value) item) (in_slot p item) slot elsewhere,
    one_less,
  )

fed_hunger :
    (p : PlayerData) (value : ℕ × ℕ)
    → p.hunger < 20
    → value.0 ≤ 8
    → ((fed p value).hunger ≤ 20) × (p.hunger ≤ (fed p value).hunger)
unfolding fed
fed_hunger p value h f = ground arith

-- `handlePlayerEating` on a held slot of the inventory: where it returns false, nothing changes and
-- nothing is sent. Where it returns true and was not to check only, exactly one of the held item is
-- gone, the count of every other item is as it was, and the hunger bar is at least as full as before
-- and at most full. That is so for every held item: one that is no food is consumed, too.
pub handle_player_eating-held :
    (r : Registry) (p : PlayerData) (just_check : Bool)
    → p.hotbar < 41
    → p.inventory_count p.hotbar < 256
    → let meal = handle_player_eating r p just_check in
      ((meal.player ≡ p) × (meal.sent ≡ []) × ((meal.eaten ≡ false) ⊎ (just_check ≡ true)))
      ⊎ ((meal.eaten ≡ true)
          × ((item : ℕ)
              → item ≢ 0
              → held meal.player item + (if p.inventory_items p.hotbar == item then 1 else 0)
                ≡ held p item)
          × (meal.player.hunger ≤ 20)
          × (p.hunger ≤ meal.player.hunger))
unfolding handle_player_eating
handle_player_eating-held r p just_check slot byte =
    elim (Bool-cases
      (leb 20 p.hunger || (p.inventory_items p.hotbar == 0 || p.inventory_count p.hotbar == 0))) [
        | inl stop ↦ rw (stop, handle_player_eating) (inl (refl, refl, inl refl))
        | inr go ↦ elim (Bool-cases just_check) [
          | inl check ↦ rw (go, check, handle_player_eating) (inl (refl, refl, inr refl))
          | inr eat ↦
              let value = food_value r (p.inventory_items p.hotbar) in
              let hungry : p.hunger < 20 = ground arith in
              let left : p.inventory_count p.hotbar ≢ 0 = ground arith in
              let (full, more) =
                fed_hunger p value hungry (food_small r (p.inventory_items p.hotbar)) in
              rw (go, eat, handle_player_eating)
                (inr (refl, λ item real. held-fed p value item real slot left byte, full, more))
        ]
      ]
