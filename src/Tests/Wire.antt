-- ===== src/Tests/Wire.antt =====
-- Numbers on the wire, and the packet buffer.
use macintosh_craft.Base.{ℕ, ◌≤◌, ◌≡◌, refl, some, List, [], ◌∷◌, ◌++◌, length, arith}
use macintosh_craft.Base.Int.{pos}
use macintosh_craft.Net.VarNum.{write_var_int, size_var_int, write_loop, size_loop, read_var_int}
use macintosh_craft.Net.VarNum.RoundTrip
use macintosh_craft.Net.Buffer.{PacketBuffer, no_client}

read-write_var_int_example :
    (bytes : List ℕ) × (write_var_int 300 ≡ some bytes)
    × (length bytes ≤ 5)
    × (size_var_int 300 ≡ some (length bytes))
    × (read_var_int (bytes ++ 7 ∷ []) ≡ (300, 7 ∷ []))
read-write_var_int_example = RoundTrip.read-write_var_int 300 (7 ∷ []) (omega arith)

-- The bytes of 300 and of 2 ^ 32 - 1.
write_300 : (write_var_int 300 ≡ some (172 ∷ 2 ∷ [])) × (size_var_int 4294967295 ≡ some 5)
unfolding write_var_int size_var_int write_loop size_loop
write_300 = (refl, refl)

abbrev quiet : PacketBuffer
quiet = record { fd = no_client; bytes = []; sent = (pos 4, 9 ∷ []) ∷ [] }
