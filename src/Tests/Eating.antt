-- ===== src/Tests/Eating.antt =====
-- A hungry player who eats what is held.
use macintosh_craft.Base.{ℕ, ◌+◌, ◌≡◌, ◌≢◌, ◌≤◌, ◌⊎◌, true, false, [], arith, ◌==◌, if◌then◌else◌}
use macintosh_craft.Players.{PlayerData}
use macintosh_craft.Players.Give.Total.{held}
use macintosh_craft.Players.Eating.{handle_player_eating}
use macintosh_craft.Players.Eating.Consumed
use macintosh_craft.Tests.Data.{numbers, miner}

-- With 10 diamonds in the hand.
abbrev hungry : PlayerData
hungry = record miner { hunger = 10; hotbar = 3 }

handle_player_eating-held_example :
    let meal = handle_player_eating numbers hungry false in
    ((meal.player ≡ hungry) × (meal.sent ≡ []) × ((meal.eaten ≡ false) ⊎ (false ≡ true)))
    ⊎ ((meal.eaten ≡ true)
        × ((item : ℕ)
            → item ≢ 0
            → held meal.player item + (if 51 == item then 1 else 0) ≡ held hungry item)
        × (meal.player.hunger ≤ 20)
        × (10 ≤ meal.player.hunger))
handle_player_eating-held_example =
    Consumed.handle_player_eating-held numbers hungry false (omega arith) (omega arith)
