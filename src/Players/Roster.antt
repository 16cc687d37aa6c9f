-- ===== src/Players/Roster.antt =====
-- Joining and leaving in procedures.c: `player_data`, `player_data_count`, and what the other
-- clients are sent.
pub mod Search
pub mod Kept
pub mod Joined
use macintosh_craft.Base.{
  ℕ, zero, suc, ◌+◌, ◌-◌, ◌*◌, ◌/◌, ◌%◌, ◌^◌, ◌≤◌, ◌<◌, ◌≡◌, ◌≢◌, refl, sym, ap, ◌∙◌, Bool, true,
  false, not, ◌&&◌, ◌||◌, Option, none, some, List, [], ◌∷◌, ◌++◌, length, inl, inr, ◌⊎◌, ◌↔◌,
  arith, Bool-cases, Option-cases, ltb, leb, ◌==◌, if◌then◌else◌, ==→eq, ==_iff, ltb→lt, leb→le,
}
use macintosh_craft.Base.{map}
use macintosh_craft.Base.{get_or}
use macintosh_craft.Base.Int.{ℤ, pos, negsuc, eq_ℤ, wrap, to_u8}
use macintosh_craft.Base.Array.{update}
use macintosh_craft.Players.{PlayerData, PlayerFlags, reset_player_data}
use macintosh_craft.Players.Clients.{ClientState, max_players, set_client_state, free_client}
use macintosh_craft.Net.Packets.Frame.{
  Packet, system_chat, remove_entity, player_info_update_add_player, spawn_entity,
}

-- `memcmp(a, b, 16) == 0`, for the 16 bytes of two UUIDs.
unfoldable pub same_uuid : List ℕ → List ℕ → Bool
same_uuid [] [] = true
same_uuid [] (b ∷ bs) = false
same_uuid (a ∷ as') [] = false
same_uuid (a ∷ as') (b ∷ bs) = let rest = same_uuid as' bs in a == b && rest

-- A slot that was never used has only zeros.
unfoldable pub is_unset : List ℕ → Bool
is_unset [] = true
is_unset (a ∷ as') = let rest = is_unset as' in a == 0 && rest

pub record Roster : Type 0 where
  pub players : ℕ → PlayerData
  pub player_data_count : ℕ

-- Where the loop of `reservePlayerData` stops.
pub data Place : Type 0 where
  known : ℕ → Place
  unused : ℕ → Place
  nowhere : Place

-- `n` slots are left, from index `i` on.
unfoldable pub find_place : ℕ → (ℕ → PlayerData) → List ℕ → ℕ → Place
find_place zero players uuid i = nowhere
find_place (suc n) players uuid i =
    let rest = find_place n players uuid (i + 1) in
    if same_uuid (players i).uuid uuid
    then known i
    else if is_unset (players i).uuid
    then unused i
    else rest

abbrev pub visited_history : ℕ
visited_history = 4

abbrev pub cleared : (ℕ → ℤ) → ℕ → ℤ
cleared f i = if ltb i visited_history then pos 32767 else f i

abbrev pub returning : ℤ → List ℕ → PlayerData → PlayerData
returning client_fd name p = record p {
  client_fd = client_fd;
  name = name;
  flags = record p.flags { loading = true };
  flagval_16 = 0;
  visited_x = cleared p.visited_x;
  visited_z = cleared p.visited_z;
}

abbrev pub newcomer : ℤ → List ℕ → List ℕ → PlayerData → PlayerData
newcomer client_fd uuid name p = reset_player_data (record p {
  client_fd = client_fd;
  flags = record p.flags { loading = true };
  flagval_16 = 0;
  uuid = uuid;
  name = name;
})

-- `none` is the result 1.
unfoldable pub reserve_at : Roster → ℤ → List ℕ → List ℕ → Place → Option Roster
reserve_at r client_fd uuid name (known i) =
    some (record r { players = update r.players i (returning client_fd name (r.players i)) })
reserve_at r client_fd uuid name (unused i) =
    if leb max_players r.player_data_count
    then none
    else some (record {
      players = update r.players i (newcomer client_fd uuid name (r.players i));
      player_data_count = r.player_data_count + 1;
    })
reserve_at r client_fd uuid name nowhere = none

unfoldable pub reserve_player_data : Roster → ℤ → List ℕ → List ℕ → Option Roster
unfolding reserve_at
reserve_player_data r client_fd uuid name =
    reserve_at r client_fd uuid name (find_place max_players r.players uuid 0)

-- The index of the player, or `none` for the result 1 of `getPlayerData`.
unfoldable pub find_player : ℕ → (ℕ → PlayerData) → ℤ → ℕ → Option ℕ
find_player zero players client_fd i = none
find_player (suc n) players client_fd i =
    let rest = find_player n players client_fd (i + 1) in
    if eq_ℤ (players i).client_fd client_fd then some i else rest

unfoldable pub get_player_data : (ℕ → PlayerData) → ℤ → Option ℕ
get_player_data players client_fd = find_player max_players players client_fd 0

-- A name up to its terminator.
unfoldable pub c_string : List ℕ → List ℕ
c_string [] = []
c_string (c ∷ cs) = let rest = c_string cs in if c == 0 then [] else c ∷ rest

-- " left the game" and " joined the game"
abbrev pub left_the_game : List ℕ
left_the_game = 32 ∷ 108 ∷ 101 ∷ 102 ∷ 116 ∷ 32 ∷ 116 ∷ 104 ∷ 101 ∷ 32 ∷ 103 ∷ 97 ∷ 109 ∷ 101 ∷ []

abbrev pub joined_the_game : List ℕ
joined_the_game =
    32 ∷ 106 ∷ 111 ∷ 105 ∷ 110 ∷ 101 ∷ 100 ∷ 32 ∷ 116 ∷ 104 ∷ 101 ∷ 32 ∷ 103 ∷ 97 ∷ 109 ∷ 101 ∷ []

-- The packets to the others, with their descriptors, which are -1 for offline players. `n` slots
-- are left, from index `j` on.
unfoldable pub leave_messages : ℕ → (ℕ → PlayerData) → ℤ → List ℕ → ℕ → List (ℤ × Packet)
leave_messages zero players client_fd message j = []
leave_messages (suc n) players client_fd message j =
    let to : ℤ = (players j).client_fd in
    let rest = leave_messages n players client_fd message (j + 1) in
    if eq_ℤ to client_fd
    then rest
    else if (players j).flags.loading
    then rest
    else (to, system_chat message) ∷ (to, remove_entity client_fd) ∷ rest

-- `player_data`, `client_states`, and what is sent.
pub record Leave : Type 0 where
  pub roster : Roster
  pub states : ℕ → ClientState
  pub sent : List (ℤ × Packet)

-- The message is no longer than a name of 15 bytes and the 14 of the text.
unfoldable pub handle_player_disconnect : Roster → (ℕ → ClientState) → ℤ → Leave
handle_player_disconnect r states client_fd = elim (get_player_data r.players client_fd) [
  | none ↦ record { roster = r; states = free_client states client_fd; sent = [] }
  | some i ↦
      let players : ℕ → PlayerData =
        update r.players i (record (r.players i) { client_fd = negsuc 0 }) in
      record {
        roster = record r { players = players };
        states = free_client states client_fd;
        sent =
            leave_messages max_players players client_fd
              (c_string (r.players i).name ++ left_the_game) 0;
      }
]

-- `disconnectClient` with `client_count`, a `uint16_t`; the call of `close` is left out.
unfoldable pub disconnect_client : Roster → (ℕ → ClientState) → ℕ → ℤ → Leave × ℕ
disconnect_client r states client_count client_fd =
    if eq_ℤ client_fd (negsuc 0)
    then (record { roster = r; states = states; sent = [] }, client_count)
    else (
      handle_player_disconnect r (set_client_state states client_fd (pos 0)) client_fd,
      (client_count + 65535) % 65536,
    )

-- The bits of the doubles that `sc_spawnEntityPlayer` computes: the centre of a block, and a whole
-- number.
pub record Doubles : Type 0 where
  pub block_centre : ℤ → ℕ
  pub whole : ℕ → ℕ

unfoldable pub sc_spawn_entity_player : Doubles → PlayerData → Packet
sc_spawn_entity_player d p =
    spawn_entity p.client_fd (λ i. get_or p.uuid i 0) (pos 149) (d.block_centre p.x) (d.whole p.y)
      (d.block_centre p.z) (to_u8 p.yaw) (to_u8 p.pitch)

-- Everybody is told, offline players too. `n` slots are left, from index `i` on.
unfoldable pub join_messages : Doubles → ℕ → (ℕ → PlayerData) → PlayerData → ℕ → List (ℤ × Packet)
join_messages d zero players p i = []
join_messages d (suc n) players p i =
    let to : ℤ = (players i).client_fd in
    let rest = join_messages d n players p (i + 1) in
    (to, system_chat (c_string p.name ++ joined_the_game))
    ∷ (to, player_info_update_add_player (λ k. get_or p.uuid k 0) (c_string p.name))
    ∷ (if eq_ℤ to p.client_fd then rest else (to, sc_spawn_entity_player d p) ∷ rest)

-- The player is the one at index `i`.
unfoldable pub handle_player_join : Doubles → Roster → ℕ → Roster × List (ℤ × Packet)
handle_player_join d r i =
    let p = r.players i in
    (
      record r {
        players =
            update r.players i
              (record p { flags = record p.flags { loading = false }; flagval_16 = 0 });
      },
      join_messages d max_players r.players p 0,
    )
