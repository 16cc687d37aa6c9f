-- ===== src/Players/Clients.antt =====
-- The states of clients, `setClientState` and its readers in procedures.c: `client_states` holds
-- pairs of a file descriptor and a state, for 32 / 2 slots.
pub mod Lookup
use macintosh_craft.Base.{ℕ, zero, suc, ◌+◌, ◌*◌, Option, none, some, if◌then◌else◌}
use macintosh_craft.Base.Int.{ℤ, pos, negsuc, eq_ℤ}
use macintosh_craft.Base.Array.{update}

-- One pair of `client_states`; the descriptor -1 is a free slot.
pub record ClientState : Type 0 where
  pub client_fd : ℤ
  pub state : ℤ

abbrev pub max_players : ℕ
max_players = 16

-- The first of `n` slots from slot `i` on that has the descriptor.
unfoldable pub find_client : ℕ → (ℕ → ClientState) → ℤ → ℕ → Option ℕ
find_client zero states client_fd i = none
find_client (suc n) states client_fd i =
    let rest = find_client n states client_fd (i + 1) in
    if eq_ℤ (states i).client_fd client_fd then some i else rest

-- With no slot for the client and none free, nothing happens.
unfoldable pub set_client_state : (ℕ → ClientState) → ℤ → ℤ → ℕ → ClientState
set_client_state states client_fd new_state = elim (find_client max_players states client_fd 0) [
  | some i ↦ update states i (record { client_fd = (states i).client_fd; state = new_state })
  | none ↦ elim (find_client max_players states (negsuc 0) 0) [
    | some i ↦ update states i (record { client_fd = client_fd; state = new_state })
    | none ↦ states
  ]
]

-- STATE_NONE is 0.
unfoldable pub get_client_state : (ℕ → ClientState) → ℤ → ℤ
get_client_state states client_fd = elim (find_client max_players states client_fd 0) [
  | some i ↦ (states i).state
  | none ↦ pos 0
]

-- The index in `client_states` of the pair's first half.
unfoldable pub get_client_index : (ℕ → ClientState) → ℤ → ℤ
get_client_index states client_fd = elim (find_client max_players states client_fd 0) [
  | some i ↦ pos (i * 2)
  | none ↦ negsuc 0
]

-- The end of `handlePlayerDisconnect`: the client's slot is freed.
unfoldable pub free_client : (ℕ → ClientState) → ℤ → ℕ → ClientState
free_client states client_fd = elim (find_client max_players states client_fd 0) [
  | some i ↦ update states i (record { client_fd = negsuc 0; state = (states i).state })
  | none ↦ states
]
