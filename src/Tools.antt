-- ===== src/Tools.antt =====
-- The helpers of tools.c and tools.h on numbers: floored division and the two hash functions.
pub mod Division
use macintosh_craft.Base.{ℕ, ◌+◌, ◌*◌, ◌/◌, ◌%◌, ◌^◌, if◌then◌else◌}
use macintosh_craft.Base.Int.{ℤ, pos, ltb_ℤ, ◌+ℤ◌, ◌-ℤ◌, c_div, c_mod}
use Prim.Native.Nat.{bit_xor}

-- `((a % b) + b) % b` and the division rounded down, for a constant b > 0.
unfoldable pub mod_abs : ℤ → ℕ → ℤ
unfolding c_mod ◌+ℤ◌
mod_abs a b = c_mod (c_mod a b +ℤ pos b) b

unfoldable pub div_floor : ℤ → ℕ → ℤ
unfolding c_mod c_div ◌-ℤ◌
div_floor a b = if ltb_ℤ (c_mod a b) (pos 0) then c_div (a -ℤ pos b) b else c_div a b

abbrev u32 : ℕ
u32 = 4294967296

abbrev u64 : ℕ
u64 = 18446744073709551616

-- xorshift32: the new `rng_seed`, which is also what is returned. Shifts drop what leaves 32 bits.
unfoldable pub fast_rand : ℕ → ℕ
fast_rand seed =
    let a = bit_xor seed (seed * 2 ^ 13 % u32) in
    let b = bit_xor a (a / 2 ^ 17) in bit_xor b (b * 2 ^ 5 % u32)

unfoldable pub splitmix64 : ℕ → ℕ
splitmix64 state =
    let z = (state + 0x9e3779b97f4a7c15) % u64 in
    let y = bit_xor z (z / 2 ^ 30) * 0xbf58476d1ce4e5b9 % u64 in
    let x = bit_xor y (y / 2 ^ 27) * 0x94d049bb133111eb % u64 in bit_xor x (x / 2 ^ 31)
