-- ===== src/Net/Write/Size.antt =====
-- How many bytes the writes of a packet put on the wire.
use macintosh_craft.Base.{ℕ, zero, suc, ◌+◌, ◌*◌, ◌%◌, ◌^◌, ◌≤◌, ◌≡◌, refl, sym, ap, List, [], ◌∷◌}
use macintosh_craft.Base.{◌++◌, arith, length, length-append}
use macintosh_craft.Net.VarNum.{read_var_int}
use macintosh_craft.Net.VarNum.RoundTrip.{read-write_var_int}
use macintosh_craft.Net.Words.{be16, be32, be64}
use macintosh_craft.Net.Write.{
  Write, var_int, byte, uint16, uint32, uint64, float, double, direct, gathered, flush, var_bytes,
  var_size, bytes_of, wire, repeat, array_bytes,
}

abbrev pub write_size : Write → ℕ
write_size (var_int n) = var_size n
write_size (byte n) = 1
write_size (uint16 n) = 2
write_size (uint32 n) = 4
write_size (uint64 n) = 8
write_size (float n) = 4
write_size (double n) = 8
write_size (direct bs) = length bs
write_size (gathered bs) = length bs
write_size flush = 0

abbrev pub wire_size : List Write → ℕ
wire_size [] = 0
wire_size (w ∷ ws) = write_size w + wire_size ws

-- `sizeVarInt` is the number of bytes that `writeVarInt` writes, and they are read back.
pub var_bytes_law :
    (n : ℕ) (rest : List ℕ)
    → (var_size n ≡ length (var_bytes n))
      × (length (var_bytes n) ≤ 5)
      × (read_var_int (var_bytes n ++ rest) ≡ (n % 2 ^ 32, rest))
unfolding var_bytes var_size
var_bytes_law n rest =
    let (bytes, w, small, size, back) = read-write_var_int (n % 2 ^ 32) rest (omega arith) in
    rw (w, size, var_bytes, var_size) (refl, small, back)

length-bytes_of : (w : Write) → length (bytes_of w) ≡ write_size w
unfolding bytes_of be16 be32 be64
length-bytes_of (var_int n) = sym (var_bytes_law n []).0
length-bytes_of (byte n) = refl
length-bytes_of (uint16 n) = refl
length-bytes_of (uint32 n) = refl
length-bytes_of (uint64 n) = refl
length-bytes_of (float n) = refl
length-bytes_of (double n) = refl
length-bytes_of (direct bs) = refl
length-bytes_of (gathered bs) = refl
length-bytes_of flush = refl

pub length-wire : (ws : List Write) → length (wire ws) ≡ wire_size ws
unfolding wire
length-wire [] = refl
length-wire (w ∷ ws) =
    omega (arith, length-append (bytes_of w) (wire ws), length-bytes_of w, length-wire ws)

pub wire_size-append : (us ws : List Write) → wire_size (us ++ ws) ≡ wire_size us + wire_size ws
wire_size-append [] ws = omega arith
wire_size-append (u ∷ us) ws = omega (arith, wire_size-append us ws)

pub wire_size-repeat : (n : ℕ) (ws : List Write) → wire_size (repeat n ws) ≡ n * wire_size ws
unfolding repeat
wire_size-repeat zero ws = omega arith
wire_size-repeat (suc n) ws =
    omega (arith, wire_size-append ws (repeat n ws), wire_size-repeat n ws)

pub length-array_bytes : (n i : ℕ) (f : ℕ → ℕ) → length (array_bytes n i f) ≡ n
unfolding array_bytes
length-array_bytes zero i f = refl
length-array_bytes (suc n) i f = ap suc (length-array_bytes n (i + 1) f)
