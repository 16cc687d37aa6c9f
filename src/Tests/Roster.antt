-- ===== src/Tests/Roster.antt =====
-- Players who join and leave.
use macintosh_craft.Base.{
  ℕ, zero, suc, ◌≤◌, ◌≡◌, ◌≢◌, ◌<◌, ◌⊎◌, refl, true, false, none, some, List, [], ◌∷◌, arith,
}
use macintosh_craft.Base.Int.{pos, negsuc}
use macintosh_craft.Players.{PlayerData}
use macintosh_craft.Players.Clients.{ClientState, max_players}
use macintosh_craft.Players.Roster.{
  Roster, is_unset, reserve_player_data, get_player_data, handle_player_disconnect,
}
use macintosh_craft.Players.Roster.Kept.{IsRoster}
use macintosh_craft.Players.Roster.Joined
use macintosh_craft.Tests.Data.{miner}

-- Offline, in a slot that was never used.
abbrev nobody : PlayerData
nobody = record miner { uuid = 0 ∷ 0 ∷ []; client_fd = negsuc 0 }

abbrev somebody : PlayerData
somebody = record miner { uuid = 7 ∷ 1 ∷ []; client_fd = pos 4 }

abbrev slot : ℕ → PlayerData
slot zero = somebody
slot (suc k) = nobody

-- One player, who is online.
abbrev one_player : Roster
one_player = record { players = slot; player_data_count = 1 }

used_slot : (k : ℕ) → k < 1 → is_unset (slot k).uuid ≡ false
unfolding is_unset
used_slot zero h = refl
used_slot (suc k) h = absurd (omega arith)

free_slot : (k : ℕ) → 1 ≤ k → is_unset (slot k).uuid ≡ true
unfolding is_unset
free_slot zero h = absurd (omega arith)
free_slot (suc k) h = refl

idle_slot : (k : ℕ) → 1 ≤ k → (slot k).client_fd ≡ negsuc 0
idle_slot zero h = absurd (omega arith)
idle_slot (suc k) h = refl

one_online :
    (a b : ℕ) → (slot a).client_fd ≡ (slot b).client_fd → (slot a).client_fd ≢ negsuc 0 → a ≡ b
one_online zero zero e real = refl
one_online zero (suc b) e real = absurd (real e)
one_online (suc a) b e real = absurd (real refl)

one_player-IsRoster : IsRoster one_player
one_player-IsRoster = record {
  bounded = omega arith;
  used = used_slot;
  free = λ k h l. free_slot k h;
  idle = λ k h l. idle_slot k h;
  distinct = λ a b ha hb e. omega arith;
  online = λ a b ha hb. one_online a b;
}

five_is_new : (k : ℕ) → (slot k).client_fd ≢ pos 5
five_is_new zero e = ground arith
five_is_new (suc k) e = ground arith

abbrev newcomers_uuid : List ℕ
newcomers_uuid = 9 ∷ 9 ∷ []

is_named : is_unset newcomers_uuid ≡ false
unfolding is_unset
is_named = refl

reserve_player_data-law_example :
    ((i : ℕ) × (t : Roster) × (reserve_player_data one_player (pos 5) newcomers_uuid (65 ∷ 0 ∷ [])
        ≡ some t)
      × IsRoster t
      × (get_player_data t.players (pos 5) ≡ some i)
      × ((t.players i).uuid ≡ newcomers_uuid)
      × ((t.players i).flags.loading ≡ true)
      × (i < 1 → Joined.SameBelongings (t.players i) (slot i))
      × ((k : ℕ) → k ≢ i → t.players k ≡ slot k))
    ⊎ ((reserve_player_data one_player (pos 5) newcomers_uuid (65 ∷ 0 ∷ []) ≡ none)
        × (1 ≡ max_players)
        × ((k : ℕ) → k < max_players → (slot k).uuid ≢ newcomers_uuid))
reserve_player_data-law_example =
    Joined.reserve_player_data-law one_player (pos 5) newcomers_uuid (65 ∷ 0 ∷ [])
      one_player-IsRoster is_named (λ k h. five_is_new k)

abbrev states : ℕ → ClientState
states k = record { client_fd = negsuc 0; state = pos 0 }

handle_player_disconnect-gone_example :
    let t = (handle_player_disconnect one_player states (pos 4)).roster in
    IsRoster t
    × (get_player_data t.players (pos 4) ≡ none)
    × ((k : ℕ)
        → ((t.players k).uuid ≡ (slot k).uuid) × Joined.SameBelongings (t.players k) (slot k))
handle_player_disconnect-gone_example =
    Joined.handle_player_disconnect-gone one_player states (pos 4) one_player-IsRoster
      (λ e. ground arith)
