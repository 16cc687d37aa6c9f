-- ===== src/Tests/Closing.antt =====
-- A window closed with items in its grid, and a position sent and received.
use macintosh_craft.Base.{ℕ, ◌≡◌, ◌≢◌, refl, arith}
use macintosh_craft.Base.Int.{pos, negsuc}
use macintosh_craft.Net.Words.{be64}
use macintosh_craft.Net.Packets.{packed_position}
use macintosh_craft.Net.Positions.{received_position}
use macintosh_craft.Net.Positions
use macintosh_craft.Items.{get_item_stack_size, is_one_of}
use macintosh_craft.Players.{PlayerData}
use macintosh_craft.Players.Give.Total.{held}
use macintosh_craft.Players.Closing.{close_container}
use macintosh_craft.Players.Closing.Kept
use macintosh_craft.Tests.Data.{numbers, smith}

-- The fuel and ore of a furnace, and a diamond on the cursor.
abbrev busy : PlayerData
busy = record smith { flagval_16 = 51; flagval_8 = 1 }

busy-IsStacked : Kept.IsStacked numbers busy
unfolding get_item_stack_size is_one_of
busy-IsStacked = (λ i low. ground arith, omega arith)

close_container-held_example :
    let u = close_container numbers 14 busy in
    Kept.IsEmptied 9 u.player
    × ((u.player.flagval_16 ≡ 0) × (u.player.flagval_8 ≡ 0))
    × ((item : ℕ) → item ≢ 0 → Kept.IsKept (Kept.owned busy item) (held u.player item) u.refused)
close_container-held_example = Kept.close_container-held numbers 14 busy refl busy-IsStacked

received_position-be64_example :
    received_position (be64 (packed_position (pos 100) (negsuc 5) (negsuc 3000)))
    ≡ (pos 100, negsuc 5, negsuc 3000)
received_position-be64_example =
    Positions.received_position-be64 (pos 100) (negsuc 5) (negsuc 3000) (omega arith, omega arith)
      (omega arith, omega arith) (omega arith, omega arith)
