-- ===== src/Mobs.antt =====
-- The packed coordinates of mobs, globals.h: 14 bits of block coordinate below 2 bits of the last
-- movement.
pub mod Packing
use macintosh_craft.Base.{ℕ, ◌+◌, ◌-◌, ◌*◌, ◌%◌, if◌then◌else◌}
use macintosh_craft.Base.Int.{ℤ, pos, negsuc, ◌+ℤ◌, ◌-ℤ◌, ltb_ℤ, wrap, i16_of_bits}
use macintosh_craft.Tools.{div_floor}

pub record MobData : Type 0 where
  pub type : ℕ
  pub x : ℤ
  pub y : ℕ
  pub z : ℤ
  pub data_bits : ℕ

-- `packed & 0x3FFF` of a negative number is its remainder rounded down.
unfoldable pub mob_block_coord : ℤ → ℤ
mob_block_coord packed = pos (wrap 16384 packed) -ℤ pos 8192

-- `>>` of a negative `int` rounds down.
unfoldable pub mob_delta_coord : ℤ → ℤ
mob_delta_coord packed = pos (wrap 4 (div_floor packed 16384)) -ℤ pos 1

-- The parts share no bits, so `|` adds.
unfoldable pub mob_encode_coord : ℤ → ℤ → ℤ
mob_encode_coord block delta =
    let base : ℕ = wrap 65536 (block +ℤ pos 8192) % 16384 in
    let delta_bits : ℕ = wrap 65536 (delta +ℤ pos 1) % 4 in i16_of_bits (base + delta_bits * 16384)

unfoldable pub mob_set_x : MobData → ℤ → ℤ → MobData
mob_set_x mob block delta = record mob { x = mob_encode_coord block delta }

unfoldable pub mob_set_z : MobData → ℤ → ℤ → MobData
mob_set_z mob block delta = record mob { z = mob_encode_coord block delta }

-- A turn is 256; every sum stays below that.
unfoldable pub mob_base_yaw : ℤ → ℤ → ℕ
mob_base_yaw dx dz =
    if ltb_ℤ dx (pos 0)
    then (if ltb_ℤ dz (pos 0) then 96 else if ltb_ℤ (pos 0) dz then 32 else 64)
    else if ltb_ℤ (pos 0) dx
    then (if ltb_ℤ dz (pos 0) then 160 else if ltb_ℤ (pos 0) dz then 224 else 192)
    else if ltb_ℤ dz (pos 0)
    then 128
    else 0
