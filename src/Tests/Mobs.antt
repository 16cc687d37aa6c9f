-- ===== src/Tests/Mobs.antt =====
-- Packed coordinates and client states, at concrete values.
use macintosh_craft.Base.{ℕ, ◌≡◌, refl, some, inr, if◌then◌else◌, arith, ◌==◌}
use macintosh_craft.Base.Int.{pos, negsuc, eq_ℤ}
use macintosh_craft.Players.Clients.{ClientState, set_client_state, get_client_state, find_client}
use macintosh_craft.Players.Clients.Lookup
use macintosh_craft.Mobs.{MobData, mob_set_x, mob_set_z, mob_block_coord, mob_delta_coord}
use macintosh_craft.Mobs.Packing

abbrev cow : MobData
cow = record { type = 28; x = pos 0; y = 70; z = pos 0; data_bits = 10 }

mob_coord_round_trip_example :
    let moved = mob_set_z (mob_set_x cow (negsuc 8191) (pos 1)) (pos 100) (negsuc 0) in
    (mob_block_coord moved.x ≡ negsuc 8191)
    × (mob_delta_coord moved.x ≡ pos 1)
    × (mob_block_coord moved.z ≡ pos 100)
    × (mob_delta_coord moved.z ≡ negsuc 0)
mob_coord_round_trip_example =
    Packing.mob_coord_round_trip cow (negsuc 8191) (pos 100) (pos 1) (negsuc 0)
      (omega arith, omega arith) (omega arith, omega arith) (omega arith, omega arith)
      (omega arith, omega arith)

-- Client 5 has slot 0; the other slots are free.
abbrev one_client : ℕ → ClientState
one_client i =
    if i == 0
    then record { client_fd = pos 5; state = pos 5 }
    else record { client_fd = negsuc 0; state = pos 0 }

free_slot : find_client 16 one_client (negsuc 0) 0 ≡ some 1
unfolding find_client
free_slot = refl

get-set_client_state_example :
    get_client_state (set_client_state one_client (pos 9) (pos 2)) (pos 9)
    ≡ (if eq_ℤ (pos 9) (pos 9) then pos 2 else get_client_state one_client (pos 9))
get-set_client_state_example =
    Lookup.get-set_client_state one_client (pos 9) (pos 9) (pos 2) 1 (λ e. absurd (ground arith))
      (inr free_slot)
