-- ===== src/Net/Words.antt =====
-- The fixed-width numbers of tools.c, highest byte first on the wire.
use macintosh_craft.Base.{ℕ, ◌+◌, ◌*◌, ◌/◌, ◌%◌, ◌^◌, ◌≡◌, arith, List, [], ◌∷◌}
use macintosh_craft.Base.Int.{ℤ, IsShort, wrap, i16_of_bits}

-- The bytes of `htons(num)`, `htonl(num)` and `htonll(num)` in memory.
unfoldable pub be16 : ℕ → List ℕ
be16 n = (n / 2 ^ 8 % 256) ∷ (n % 256) ∷ []

unfoldable pub be32 : ℕ → List ℕ
be32 n = (n / 2 ^ 24 % 256) ∷ (n / 2 ^ 16 % 256) ∷ (n / 2 ^ 8 % 256) ∷ (n % 256) ∷ []

unfoldable pub be64 : ℕ → List ℕ
be64 n =
    (n / 2 ^ 56 % 256)
    ∷ (n / 2 ^ 48 % 256)
    ∷ (n / 2 ^ 40 % 256)
    ∷ (n / 2 ^ 32 % 256)
    ∷ (n / 2 ^ 24 % 256)
    ∷ (n / 2 ^ 16 % 256)
    ∷ (n / 2 ^ 8 % 256)
    ∷ (n % 256)
    ∷ []

-- What the readers make of the first bytes of `recv_buffer`. The shifted bytes share no bits, so
-- `|` adds.
unfoldable pub read_uint16 : ℕ → ℕ → ℕ
read_uint16 a b = a * 2 ^ 8 + b

unfoldable pub read_int16 : ℕ → ℕ → ℤ
read_int16 a b = i16_of_bits (a * 2 ^ 8 + b)

unfoldable pub read_uint32 : ℕ → ℕ → ℕ → ℕ → ℕ
read_uint32 a b c d = a * 2 ^ 24 + b * 2 ^ 16 + c * 2 ^ 8 + d

unfoldable pub read_uint64 : ℕ → ℕ → ℕ → ℕ → ℕ → ℕ → ℕ → ℕ → ℕ
read_uint64 a b c d e f g h =
    a * 2 ^ 56 + b * 2 ^ 48 + c * 2 ^ 40 + d * 2 ^ 32 + e * 2 ^ 24 + f * 2 ^ 16 + g * 2 ^ 8 + h

-- A reader for each width.
abbrev pub read_all : List ℕ → ℕ
read_all (a ∷ b ∷ []) = read_uint16 a b
read_all (a ∷ b ∷ c ∷ d ∷ []) = read_uint32 a b c d
read_all (a ∷ b ∷ c ∷ d ∷ e ∷ f ∷ g ∷ h ∷ []) = read_uint64 a b c d e f g h
read_all _ = 0

-- Reading what was written of a number gives the number back, up to its width of 16, 32 or 64 bits.
pub read_all-be :
    (n : ℕ)
    → (read_all (be16 n) ≡ n % 2 ^ 16)
      × (read_all (be32 n) ≡ n % 2 ^ 32)
      × (read_all (be64 n) ≡ n % 2 ^ 64)
unfolding be16 be32 be64 read_uint16 read_uint32 read_uint64
read_all-be n = (omega arith, omega arith, omega arith)

-- Every `short`, written as its 16 bits, is read back.
pub read_int16-be16 :
    (a : ℤ)
    → IsShort a
    → let bits = wrap 65536 a in read_int16 (bits / 2 ^ 8 % 256) (bits % 256) ≡ a
unfolding read_int16 wrap i16_of_bits
read_int16-be16 a h = ground arith
