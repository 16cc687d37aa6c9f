-- ===== src/Base/Int.antt =====
-- Signed C integers over the native numbers: sums, C's truncating `/` and `%` by a positive
-- constant, and the conversions to `uint8_t`, `uint32_t` and `short`.
use Prim.Native.Nat.{ℕ, suc, ◌+◌, ◌-◌, ◌*◌, ◌/◌, ◌%◌, ◌≤◌, ◌<◌}
use mathlib.Core.Path.{◌≡◌}
use mathlib.Core.Bool.{Bool}
use mathlib.Core.Logic.{◌↔◌}
use native.Mathlib.Omega.{arith}
use macintosh_craft.Base.Tests.{ltb, leb, ◌==◌, if◌then◌else◌}

-- `negsuc n` is -(n + 1).
pub data ℤ : Type 0 where
  pos : ℕ → ℤ
  negsuc : ℕ → ℤ

abbrev pub pos_part : ℤ → ℕ
pos_part (pos n) = n
pos_part (negsuc n) = 0

abbrev pub neg_part : ℤ → ℕ
neg_part (pos n) = 0
neg_part (negsuc n) = suc n

-- a - b, as an integer.
abbrev pub sub_ℕ : ℕ → ℕ → ℤ
sub_ℕ a b = if leb b a then pos (a - b) else negsuc (b - a - 1)

infixl 65 ◌+ℤ◌ ◌-ℤ◌
infixl 70 ◌*ℤ◌
infix 50 ◌≤ℤ◌ ◌<ℤ◌
unfoldable pub ◌+ℤ◌ : ℤ → ℤ → ℤ
a +ℤ b = sub_ℕ (pos_part a + pos_part b) (neg_part a + neg_part b)

unfoldable pub ◌-ℤ◌ : ℤ → ℤ → ℤ
a -ℤ b = sub_ℕ (pos_part a + neg_part b) (neg_part a + pos_part b)

unfoldable pub ◌*ℤ◌ : ℤ → ℤ → ℤ
a *ℤ b =
    sub_ℕ (pos_part a * pos_part b + neg_part a * neg_part b)
      (pos_part a * neg_part b + neg_part a * pos_part b)

abbrev pub ◌≤ℤ◌ : ℤ → ℤ → Type 0
a ≤ℤ b = pos_part a + neg_part b ≤ pos_part b + neg_part a

abbrev pub ◌<ℤ◌ : ℤ → ℤ → Type 0
a <ℤ b = pos_part a + neg_part b < pos_part b + neg_part a

abbrev pub ltb_ℤ : ℤ → ℤ → Bool
ltb_ℤ a b = ltb (pos_part a + neg_part b) (pos_part b + neg_part a)

abbrev pub leb_ℤ : ℤ → ℤ → Bool
leb_ℤ a b = leb (pos_part a + neg_part b) (pos_part b + neg_part a)

abbrev pub eq_ℤ : ℤ → ℤ → Bool
eq_ℤ a b = pos_part a + neg_part b == pos_part b + neg_part a

-- C's `/` and `%` by the positive constant `m`: the quotient is rounded towards 0.
unfoldable pub c_div : ℤ → ℕ → ℤ
c_div (pos n) m = pos (n / m)
c_div (negsuc n) m = sub_ℕ 0 (suc n / m)

unfoldable pub c_mod : ℤ → ℕ → ℤ
c_mod (pos n) m = pos (n % m)
c_mod (negsuc n) m = sub_ℕ 0 (suc n % m)

-- The conversion to an unsigned type of `m` values.
unfoldable pub wrap : ℕ → ℤ → ℕ
wrap m (pos n) = n % m
wrap m (negsuc n) = m - 1 - n % m

unfoldable pub to_u8 : ℤ → ℕ
unfolding wrap
to_u8 = wrap 256

unfoldable pub to_u32 : ℤ → ℕ
unfolding wrap
to_u32 = wrap 4294967296

-- The `short` with the given 16 bits, and the conversion of an `int` to `short`.
unfoldable pub i16_of_bits : ℕ → ℤ
i16_of_bits w = if ltb w 32768 then pos w else negsuc (65535 - w)

unfoldable pub to_i16 : ℤ → ℤ
unfolding wrap i16_of_bits
to_i16 a = i16_of_bits (wrap 65536 a)

abbrev pub IsShort : ℤ → Type 0
IsShort a = (negsuc 32767 ≤ℤ a) × (a ≤ℤ pos 32767)

pub eq_of_parts : (a b : ℤ) → pos_part a + neg_part b ≡ pos_part b + neg_part a → a ≡ b
eq_of_parts a b h = ground arith

pub eq_ℤ_iff : (a b : ℤ) → (eq_ℤ a b ≡ Bool.true) ↔ (a ≡ b)
eq_ℤ_iff a b = ground arith

pub +ℤ_parts :
    (a b : ℤ)
    → pos_part (a +ℤ b) + neg_part a + neg_part b ≡ neg_part (a +ℤ b) + pos_part a + pos_part b
unfolding ◌+ℤ◌
+ℤ_parts a b = ground arith

pub -ℤ_parts :
    (a b : ℤ)
    → pos_part (a -ℤ b) + neg_part a + pos_part b ≡ neg_part (a -ℤ b) + pos_part a + neg_part b
unfolding ◌-ℤ◌
-ℤ_parts a b = ground arith

-- The parts of a difference, one of which is 0.
pub -ℤ_pos_part :
    (a b : ℤ) → pos_part (a -ℤ b) ≡ (pos_part a + neg_part b) - (neg_part a + pos_part b)
unfolding ◌-ℤ◌
-ℤ_pos_part a b = ground arith

pub -ℤ_neg_part :
    (a b : ℤ) → neg_part (a -ℤ b) ≡ (neg_part a + pos_part b) - (pos_part a + neg_part b)
unfolding ◌-ℤ◌
-ℤ_neg_part a b = ground arith

-- A `short` is not changed by the conversion.
pub to_i16_id : (a : ℤ) → IsShort a → to_i16 a ≡ a
unfolding to_i16
to_i16_id a h = ground arith

pub to_i16-IsShort : (a : ℤ) → IsShort (to_i16 a)
unfolding to_i16
to_i16-IsShort a = ground arith

pub to_u8-lt : (a : ℤ) → to_u8 a < 256
unfolding to_u8
to_u8-lt a = ground arith

pub ruleset int_laws = (arith, +ℤ_parts, -ℤ_parts, eq_of_parts)
