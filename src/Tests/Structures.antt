-- ===== src/Tests/Structures.antt =====
-- A tree beside a block of bedrock.
use macintosh_craft.Base.Int.{pos, negsuc}
use macintosh_craft.Base.Array.{update}
use macintosh_craft.World.Changes.{Changes, Place, change_at, blank}
use macintosh_craft.Structures.Solid

abbrev rock_place : Place
rock_place = record { x = pos 17; y = 70; z = negsuc 2 }

abbrev one_rock : Changes
one_rock = record { entries = update (λ _. blank) 0 (change_at rock_place 4); count = 1 }
