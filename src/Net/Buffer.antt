-- ===== src/Net/Buffer.antt =====
-- The packet buffer of tools.c: writes are gathered and sent together.
pub mod Stream
use macintosh_craft.Base.{ℕ, ◌+◌, Bool, ◌||◌, Option, none, some, List, [], ◌∷◌, ◌++◌, length}
use macintosh_craft.Base.{ltb, leb, ◌==◌, if◌then◌else◌}
use macintosh_craft.Base.Int.{ℤ, negsuc, eq_ℤ}
use macintosh_craft.Net.Words.{be16, be32, be64}

-- `packet_buffer_fd`, the first `packet_buffer_len` bytes of `packet_buffer`, and the calls of
-- `send_all` so far, the last one first.
pub record PacketBuffer : Type 0 where
  pub fd : ℤ
  pub bytes : List ℕ
  pub sent : List (ℤ × List ℕ)

abbrev pub packet_buffer_size : ℕ
packet_buffer_size = 2048

abbrev pub no_client : ℤ
no_client = negsuc 0

unfoldable pub packet_start : ℤ → PacketBuffer → PacketBuffer
packet_start client_fd b = record b { fd = client_fd; bytes = [] }

unfoldable pub packet_flush_continue : PacketBuffer → PacketBuffer
packet_flush_continue b =
    if eq_ℤ b.fd no_client || length b.bytes == 0
    then b
    else record b { bytes = []; sent = (b.fd, b.bytes) ∷ b.sent }

unfoldable pub packet_flush : PacketBuffer → PacketBuffer
packet_flush b = record (packet_flush_continue b) { fd = no_client }

unfoldable pub packet_end : PacketBuffer → PacketBuffer
packet_end b = record b { fd = no_client; bytes = [] }

-- `none` is a `memcpy` past the end of `packet_buffer`.
unfoldable pub packet_write : List ℕ → PacketBuffer → Option PacketBuffer
packet_write buf b =
    let room =
      if ltb packet_buffer_size (length b.bytes + length buf) then packet_flush_continue b else b in
    if leb (length room.bytes + length buf) packet_buffer_size
    then some (record room { bytes = room.bytes ++ buf })
    else none

-- The common shape of `writeByte` and the other writers.
unfoldable pub write_to : ℤ → List ℕ → PacketBuffer → Option PacketBuffer
write_to client_fd buf b =
    if eq_ℤ b.fd client_fd
    then packet_write buf b
    else some (record b { sent = (client_fd, buf) ∷ b.sent })

unfoldable pub write_byte : ℤ → ℕ → PacketBuffer → Option PacketBuffer
write_byte client_fd byte = write_to client_fd (byte ∷ [])

unfoldable pub write_uint16 : ℤ → ℕ → PacketBuffer → Option PacketBuffer
write_uint16 client_fd num = write_to client_fd (be16 num)

unfoldable pub write_uint32 : ℤ → ℕ → PacketBuffer → Option PacketBuffer
write_uint32 client_fd num = write_to client_fd (be32 num)

unfoldable pub write_uint64 : ℤ → ℕ → PacketBuffer → Option PacketBuffer
write_uint64 client_fd num = write_to client_fd (be64 num)
