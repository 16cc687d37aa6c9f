-- ===== src/Net/VarNum.antt =====
-- varnum.c: a 32-bit number in one to five bytes, seven bits a byte, the lowest first.
pub mod RoundTrip
use macintosh_craft.Base.{ℕ, zero, suc, ◌+◌, ◌*◌, ◌/◌, ◌%◌, ◌^◌, Option, none, some, List, [], ◌∷◌}
use macintosh_craft.Base.{ltb, leb, ◌==◌, if◌then◌else◌}

-- The bytes that `writeVarInt` hands to `writeByte`; `none` is a loop that is still running.
-- `value & ~SEGMENT_BITS` is 0 exactly when `value / 128` is, and CONTINUE_BIT is 128.
unfoldable pub write_loop : ℕ → ℕ → Option (List ℕ)
write_loop zero value = none
write_loop (suc fuel) value =
    let more = write_loop fuel (value / 2 ^ 7) in
    if value / 128 == 0
    then some ((value % 256) ∷ [])
    else elim more [ some bytes ↦ some ((value % 128 + 128) ∷ bytes) | none ↦ none ]

-- Five rounds are enough for a `uint32_t`.
unfoldable pub write_var_int : ℕ → Option (List ℕ)
write_var_int value = write_loop 5 value

unfoldable pub size_loop : ℕ → ℕ → ℕ → Option ℕ
size_loop zero value size = none
size_loop (suc fuel) value size =
    let more = size_loop fuel (value / 2 ^ 7) (size + 1) in
    if value / 128 == 0 then some size else more

unfoldable pub size_var_int : ℕ → Option ℕ
size_var_int value = size_loop 5 value 1

abbrev pub varnum_error : ℕ
varnum_error = 0xFFFF_FFFF

-- What `readVarInt` returns, as 32 bits, and the bytes that are left. The list is what the client
-- sends; at its end `readByte` fails. `value` has no bit from `position` on, so `|=` adds.
unfoldable pub read_loop : List ℕ → ℕ → ℕ → ℕ × List ℕ
read_loop [] value position = (varnum_error, [])
read_loop (byte ∷ rest) value position =
    let value' : ℕ = value + byte % 128 * 2 ^ position % 2 ^ 32 in
    let more = read_loop rest value' (position + 7) in
    if byte / 128 % 2 == 0
    then (value', rest)
    else if leb 32 (position + 7)
    then (varnum_error, rest)
    else more

unfoldable pub read_var_int : List ℕ → ℕ × List ℕ
read_var_int bytes = read_loop bytes 0 0
