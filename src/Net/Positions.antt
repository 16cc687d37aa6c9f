-- ===== src/Net/Positions.antt =====
-- How `cs_playerAction` and `cs_useItemOn` of packets.c take the coordinates of a block from the 64
-- bits that the client sends.
use macintosh_craft.Base.{
  ℕ, ◌+◌, ◌-◌, ◌*◌, ◌/◌, ◌%◌, ◌^◌, ◌<◌, ◌≡◌, refl, ap, ◌∙◌, arith, List, ltb, if◌then◌else◌,
}
use macintosh_craft.Base.Int.{ℤ, pos, negsuc, wrap, ◌*ℤ◌, ◌≤ℤ◌, ◌<ℤ◌}
use macintosh_craft.Net.Words.{be64, read_all, read_all-be}
use macintosh_craft.Net.Packets.{packed_position}

-- The `int64_t` with the given bits, and its shifts. `>>` keeps the sign, and `<<` loses the bits
-- that leave the 64.
unfoldable pub i64_of_bits : ℕ → ℤ
i64_of_bits w = if ltb w (2 ^ 63) then pos w else negsuc (2 ^ 64 - 1 - w)

unfoldable pub shift_left : ℤ → ℕ → ℤ
shift_left a n = i64_of_bits (wrap (2 ^ 64) (a *ℤ pos (2 ^ n)))

unfoldable pub shift_right : ℤ → ℕ → ℤ
shift_right (pos k) n = pos (k / 2 ^ n)
shift_right (negsuc k) n = negsuc (k / 2 ^ n)

-- 26, 12 and 26 bits, each of which fits an `int`.
unfoldable pub position_of : ℤ → ℤ × ℤ × ℤ
position_of w =
    (shift_right w 38, shift_right (shift_left w 52) 52, shift_right (shift_left w 26) 38)

-- From the eight bytes.
unfoldable pub received_position : List ℕ → ℤ × ℤ × ℤ
received_position bytes = position_of (i64_of_bits (read_all bytes))

-- The signed number of `2 * m` values with the given remainder.
abbrev signed : ℕ → ℕ → ℤ
signed m a = if ltb a m then pos a else negsuc (2 * m - 1 - a)

signed-wrap_26 :
    (x : ℤ) → negsuc (2 ^ 25 - 1) ≤ℤ x → x <ℤ pos (2 ^ 25) → signed (2 ^ 25) (wrap (2 ^ 26) x) ≡ x
unfolding wrap
signed-wrap_26 x h l = ground arith

signed-wrap_12 :
    (x : ℤ) → negsuc (2 ^ 11 - 1) ≤ℤ x → x <ℤ pos (2 ^ 11) → signed (2 ^ 11) (wrap (2 ^ 12) x) ≡ x
unfolding wrap
signed-wrap_12 x h l = ground arith

high_bits :
    (a c b : ℕ)
    → a < 2 ^ 26
    → c < 2 ^ 26
    → b < 2 ^ 12
    → shift_right (i64_of_bits (a * 2 ^ 38 + c * 2 ^ 12 + b)) 38 ≡ signed (2 ^ 25) a
unfolding shift_right i64_of_bits
high_bits a c b h k l = ground arith

middle_bits :
    (w : ℕ)
    → w < 2 ^ 64
    → shift_right (shift_left (i64_of_bits w) 26) 38 ≡ signed (2 ^ 25) (w / 2 ^ 12 % 2 ^ 26)
unfolding shift_right shift_left i64_of_bits wrap ◌*ℤ◌
middle_bits w h = ground arith

low_bits :
    (w : ℕ)
    → w < 2 ^ 64
    → shift_right (shift_left (i64_of_bits w) 52) 52 ≡ signed (2 ^ 11) (w % 2 ^ 12)
unfolding shift_right shift_left i64_of_bits wrap ◌*ℤ◌
low_bits w h = ground arith

wrap-lt : (m : ℕ) (x : ℤ) → 0 < m → wrap m x < m
unfolding wrap
wrap-lt m (pos n) h = ground arith
wrap-lt m (negsuc n) h = omega arith

-- The coordinates of a block, packed the way packets carry them and written as eight bytes, are
-- what is taken from these bytes, if x and z fit 26 bits and y fits 12, negative ones included.
pub received_position-be64 :
    (x y z : ℤ)
    → (negsuc (2 ^ 25 - 1) ≤ℤ x) × (x <ℤ pos (2 ^ 25))
    → (negsuc (2 ^ 11 - 1) ≤ℤ y) × (y <ℤ pos (2 ^ 11))
    → (negsuc (2 ^ 25 - 1) ≤ℤ z) × (z <ℤ pos (2 ^ 25))
    → received_position (be64 (packed_position x y z)) ≡ (x, y, z)
unfolding received_position position_of packed_position
received_position-be64 x y z (h, h') (k, k') (l, l') =
    let a = wrap (2 ^ 26) x in
    let b = wrap (2 ^ 12) y in
    let c = wrap (2 ^ 26) z in
    let a_low = wrap-lt (2 ^ 26) x (omega arith) in
    let b_low = wrap-lt (2 ^ 12) y (omega arith) in
    let c_low = wrap-lt (2 ^ 26) z (omega arith) in
    let w : ℕ = a * 2 ^ 38 + c * 2 ^ 12 + b in
    let small : w < 2 ^ 64 = omega arith in
    let (_, _, read) = read_all-be w in
    let same : read_all (be64 w) ≡ w = omega arith in
    let middle : w / 2 ^ 12 % 2 ^ 26 ≡ c = omega arith in
    let low : w % 2 ^ 12 ≡ b = omega arith in
    let x_read = high_bits a c b a_low c_low b_low ∙ signed-wrap_26 x h h' in
    let y_read = low_bits w small ∙ ap (signed (2 ^ 11)) low ∙ signed-wrap_12 y k k' in
    let z_read = middle_bits w small ∙ ap (signed (2 ^ 25)) middle ∙ signed-wrap_26 z l l' in
    rw (same, x_read, y_read, z_read) refl
