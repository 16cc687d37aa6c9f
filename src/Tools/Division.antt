-- ===== src/Tools/Division.antt =====
-- `div_floor` and `mod_abs` of tools.h, taken together.
use macintosh_craft.Base.{◌+◌, ◌*◌, ◌<◌, ◌≡◌, arith}
use macintosh_craft.Base.Int.{ℤ, pos_part, neg_part}
use macintosh_craft.Tools.{mod_abs, div_floor}

-- By 8, `div_floor` and `mod_abs` are quotient and remainder: `a = 8 * quotient + remainder`, written
-- with the positive and the negative parts, and the remainder lies between 0 and 7.
pub floor_8 :
    (a : ℤ)
    → (pos_part a + 8 * neg_part (div_floor a 8)
        ≡ neg_part a + 8 * pos_part (div_floor a 8) + pos_part (mod_abs a 8))
      × (neg_part (mod_abs a 8) ≡ 0)
      × (pos_part (mod_abs a 8) < 8)
unfolding div_floor mod_abs
floor_8 a = ground arith
