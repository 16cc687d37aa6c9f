-- ===== src/Players.antt =====
-- A player of `player_data`, globals.h, with the fields that the modelled operations touch.
pub mod Slots
pub mod Give
pub mod Clients
pub mod Roster
pub mod Eating
pub mod Closing
pub mod Actions
use macintosh_craft.Base.{ℕ, Bool, true, false, List, [], ltb, if◌then◌else◌}
use macintosh_craft.Base.Int.{ℤ, pos}

-- `flags` is taken apart into the bits that the operations set and test.
pub record PlayerFlags : Type 0 where
  -- 0x02, has not spawned yet
  pub new : Bool
  -- 0x20, client loading
  pub loading : Bool
  -- 0x80, craft_items holds a pointer
  pub locked : Bool
  -- 0x01, 0x04, 0x08, 0x10 and 0x40, as a number
  pub other : ℕ

pub record PlayerData : Type 0 where
  pub uuid : List ℕ
  pub name : List ℕ
  pub client_fd : ℤ
  pub x : ℤ
  pub y : ℕ
  pub z : ℤ
  pub visited_x : ℕ → ℤ
  pub visited_z : ℕ → ℤ
  pub yaw : ℤ
  pub pitch : ℤ
  pub grounded_y : ℕ
  pub health : ℕ
  pub hunger : ℕ
  pub saturation : ℕ
  pub hotbar : ℕ
  pub inventory_items : ℕ → ℕ
  pub craft_items : ℕ → ℕ
  pub inventory_count : ℕ → ℕ
  pub craft_count : ℕ → ℕ
  pub last_bx : ℤ
  pub last_by : ℤ
  pub last_bz : ℤ
  pub flagval_16 : ℕ
  pub flagval_8 : ℕ
  pub flags : PlayerFlags

-- An array with its first `n` elements zeroed.
abbrev pub zeroed : ℕ → (ℕ → ℕ) → ℕ → ℕ
zeroed n f i = if ltb i n then 0 else f i

unfoldable pub reset_player_data : PlayerData → PlayerData
reset_player_data p = record p {
  health = 20;
  hunger = 20;
  saturation = 2500;
  x = pos 8;
  z = pos 8;
  y = 80;
  grounded_y = 0;
  inventory_items = zeroed 41 p.inventory_items;
  inventory_count = zeroed 41 p.inventory_count;
  craft_items = zeroed 9 p.craft_items;
  craft_count = zeroed 9 p.craft_count;
  flags = record p.flags { new = true; locked = false };
}
