-- ===== src/Mobs/Packing.antt =====
-- The packing of mob coordinates in globals.h and the readers of its two parts.
use macintosh_craft.Base.{◌≡◌, arith}
use macintosh_craft.Base.Int.{
  ℤ, pos, negsuc, ◌≤ℤ◌, ◌+ℤ◌, ◌-ℤ◌, c_div, c_mod, wrap, i16_of_bits, IsShort,
}
use macintosh_craft.Tools.{div_floor}
use macintosh_craft.Mobs.{
  MobData, mob_block_coord, mob_delta_coord, mob_encode_coord, mob_set_x, mob_set_z,
}

block_coord-encode :
    (block delta : ℤ)
    → (negsuc 8191 ≤ℤ block) × (block ≤ℤ pos 8191)
    → (negsuc 0 ≤ℤ delta) × (delta ≤ℤ pos 2)
    → mob_block_coord (mob_encode_coord block delta) ≡ block
unfolding mob_block_coord mob_encode_coord ◌+ℤ◌ ◌-ℤ◌ wrap i16_of_bits
block_coord-encode block delta hb hd = ground arith

delta_coord-encode :
    (block delta : ℤ)
    → (negsuc 8191 ≤ℤ block) × (block ≤ℤ pos 8191)
    → (negsuc 0 ≤ℤ delta) × (delta ≤ℤ pos 2)
    → mob_delta_coord (mob_encode_coord block delta) ≡ delta
unfolding mob_delta_coord mob_encode_coord ◌+ℤ◌ ◌-ℤ◌ wrap i16_of_bits div_floor c_div c_mod
delta_coord-encode block delta hb hd = ground arith

-- The block coordinates from -8192 to 8191 and the movements from -1 to 2 that are set for a mob,
-- one axis after the other, are what is read from it.
pub mob_coord_round_trip :
    (mob : MobData) (bx bz dx dz : ℤ)
    → (negsuc 8191 ≤ℤ bx) × (bx ≤ℤ pos 8191)
    → (negsuc 8191 ≤ℤ bz) × (bz ≤ℤ pos 8191)
    → (negsuc 0 ≤ℤ dx) × (dx ≤ℤ pos 2)
    → (negsuc 0 ≤ℤ dz) × (dz ≤ℤ pos 2)
    → let moved = mob_set_z (mob_set_x mob bx dx) bz dz in
      (mob_block_coord moved.x ≡ bx)
      × (mob_delta_coord moved.x ≡ dx)
      × (mob_block_coord moved.z ≡ bz)
      × (mob_delta_coord moved.z ≡ dz)
unfolding mob_set_x mob_set_z
mob_coord_round_trip mob bx bz dx dz hx hz kx kz = (
  block_coord-encode bx dx hx kx,
  delta_coord-encode bx dx hx kx,
  block_coord-encode bz dz hz kz,
  delta_coord-encode bz dz hz kz,
)

-- Every `short` is the packing of the two parts that are read from it.
pub mob_encode-parts :
    (packed : ℤ)
    → IsShort packed
    → mob_encode_coord (mob_block_coord packed) (mob_delta_coord packed) ≡ packed
unfolding mob_block_coord mob_delta_coord mob_encode_coord ◌+ℤ◌ ◌-ℤ◌ wrap i16_of_bits div_floor
    c_div c_mod
mob_encode-parts packed h = ground arith
