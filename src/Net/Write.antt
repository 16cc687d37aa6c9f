-- ===== src/Net/Write.antt =====
-- The writes that the packets of packets.c are made of: tools.c and varnum.c, with the buffer.
pub mod Size
pub mod Gather
pub mod Idle
use macintosh_craft.Base.{ℕ, zero, suc, ◌+◌, ◌%◌, ◌^◌, List, [], ◌∷◌, ◌++◌, Option, none, some}
use macintosh_craft.Base.{length, get_or}
use macintosh_craft.Base.Int.{ℤ}
use macintosh_craft.Net.VarNum.{write_var_int, size_var_int}
use macintosh_craft.Net.Words.{be16, be32, be64}
use macintosh_craft.Net.Buffer.{
  PacketBuffer, packet_write, packet_flush_continue, write_byte, write_uint16, write_uint32,
  write_uint64,
}

-- One call. `float` and `double` have the bits of their number, `direct` is `send_all`, `gathered`
-- is `packet_write`, and `flush` is `packet_flush_continue`.
pub data Write : Type 0 where
  var_int : ℕ → Write
  byte : ℕ → Write
  uint16 : ℕ → Write
  uint32 : ℕ → Write
  uint64 : ℕ → Write
  float : ℕ → Write
  double : ℕ → Write
  direct : List ℕ → Write
  gathered : List ℕ → Write
  flush : Write

-- The argument is a `uint32_t`; the loops end within their rounds (`read-write_var_int`).
unfoldable pub var_bytes : ℕ → List ℕ
var_bytes value = elim (write_var_int (value % 2 ^ 32)) [ some bytes ↦ bytes | none ↦ [] ]

unfoldable pub var_size : ℕ → ℕ
var_size value = elim (size_var_int (value % 2 ^ 32)) [ some size ↦ size | none ↦ 0 ]

-- The bytes of a write, in the order of the wire.
unfoldable pub bytes_of : Write → List ℕ
bytes_of (var_int n) = var_bytes n
bytes_of (byte n) = (n % 256) ∷ []
bytes_of (uint16 n) = be16 n
bytes_of (uint32 n) = be32 n
bytes_of (uint64 n) = be64 n
bytes_of (float n) = be32 n
bytes_of (double n) = be64 n
bytes_of (direct bs) = bs
bytes_of (gathered bs) = bs
bytes_of flush = []

unfoldable pub wire : List Write → List ℕ
wire [] = []
wire (w ∷ ws) = bytes_of w ++ wire ws

-- `writeVarInt` calls `writeByte` for each of its bytes.
unfoldable pub write_bytes : ℤ → List ℕ → PacketBuffer → Option PacketBuffer
write_bytes client_fd [] b = some b
write_bytes client_fd (n ∷ ns) b = elim (write_byte client_fd n b) [
  | none ↦ none
  | some c ↦ write_bytes client_fd ns c
]

unfoldable pub run_write : ℤ → Write → PacketBuffer → Option PacketBuffer
run_write client_fd (var_int n) b = write_bytes client_fd (var_bytes n) b
run_write client_fd (byte n) b = write_byte client_fd (n % 256) b
run_write client_fd (uint16 n) b = write_uint16 client_fd n b
run_write client_fd (uint32 n) b = write_uint32 client_fd n b
run_write client_fd (uint64 n) b = write_uint64 client_fd n b
run_write client_fd (float n) b = write_uint32 client_fd n b
run_write client_fd (double n) b = write_uint64 client_fd n b
run_write client_fd (direct bs) b = some (record b { sent = (client_fd, bs) ∷ b.sent })
run_write client_fd (gathered bs) b = packet_write bs b
run_write client_fd flush b = some (packet_flush_continue b)

unfoldable pub run_writes : ℤ → List Write → PacketBuffer → Option PacketBuffer
run_writes client_fd [] b = some b
run_writes client_fd (w ∷ ws) b = elim (run_write client_fd w b) [
  | none ↦ none
  | some c ↦ run_writes client_fd ws c
]

unfoldable pub repeat : ℕ → List Write → List Write
repeat zero ws = []
repeat (suc n) ws = ws ++ repeat n ws

-- `n` bytes of an array, from index `i` on.
unfoldable pub array_bytes : ℕ → ℕ → (ℕ → ℕ) → List ℕ
array_bytes zero i f = []
array_bytes (suc n) i f = f i ∷ array_bytes n (i + 1) f
