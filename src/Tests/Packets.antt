-- ===== src/Tests/Packets.antt =====
-- Packets of the test world, taken apart by their lengths, and sent through the buffer.
use macintosh_craft.Base.{◌*◌, ◌≡◌, refl, some, List, [], ◌∷◌, ◌++◌, length, arith}
use macintosh_craft.Base.Int.{to_u32, pos}
use macintosh_craft.Net.Buffer.{PacketBuffer, no_client}
use macintosh_craft.Net.Buffer.Stream.{sent_to}
use macintosh_craft.Net.Packets.{Environment}
use macintosh_craft.Net.Packets
use macintosh_craft.Net.Packets.Entities
use macintosh_craft.Net.Write.{wire, bytes_of, var_bytes}
use macintosh_craft.Net.VarNum.{write_var_int, write_loop}
use macintosh_craft.Net.Words.{be16, be32, be64}
use macintosh_craft.Net.Packets.Frame.{chunk_data}
use macintosh_craft.Base.Int.{negsuc}
use macintosh_craft.Net.Packets.Frame.{
  Packet, keep_alive, set_head_rotation, system_chat, update_entity_rotation, update_time,
}
use macintosh_craft.Net.Packets.Frame.Received
use macintosh_craft.Net.Packets.Frame.Lengths.{IsWhole}
use macintosh_craft.Net.Packets.Frame.Received.{read_frames, sent_packets, contents, AllSendable}
use macintosh_craft.Net.Packets.Send.{send_packets, send_batch}
use macintosh_craft.Net.Packets.Send.Delivered
use macintosh_craft.Net.Packets.Send.Delivered.{AllFit, AllBatchable, aware, rotation}

abbrev server : Environment
server = record {
  block_palette = λ b. b * 3;
  network_block_palette = 0 ∷ 1 ∷ [];
  motd = 72 ∷ 105 ∷ [];
  view_distance = pos 1;
  world_age = 40;
  health_float = λ h. h;
  saturation_float = λ s. s;
}

-- The packets of the server's tick, the rotation of the head of entity 300, and "Hi".
abbrev packets : List Packet
packets =
    keep_alive
    ∷ update_time 6000
    ∷ set_head_rotation (pos 300) 64
    ∷ system_chat (72 ∷ 105 ∷ [])
    ∷ []

packets-AllSendable : AllSendable server packets
unfolding bytes_of var_bytes write_var_int write_loop be16 be32 be64 to_u32 AllSendable IsWhole wire
    Packets.sc_keep_alive Packets.sc_update_time Entities.sc_set_head_rotation
    Packets.sc_system_chat
packets-AllSendable = (
  (λ e. cc, omega arith),
  tt,
  ((λ e. cc, omega arith), tt, ((λ e. cc, omega arith), tt, ((λ e. cc, omega arith), tt, tt))),
)

read_frames-sent_example :
    read_frames (length packets) (sent_packets server packets) ≡ contents server packets
read_frames-sent_example = Received.read_frames-sent server packets packets-AllSendable

-- Nothing is started, and client 4 was sent a byte before.
abbrev buffer : PacketBuffer
buffer = record { fd = no_client; bytes = []; sent = (pos 4, 9 ∷ []) ∷ [] }

-- A chunk of stone in the middle of which the client is sent five bytes, and the packets above.
abbrev with_chunk : List Packet
with_chunk =
    chunk_data (λ i. record { blocks = λ k. 1; biome = 0 }) (λ i. i ∷ []) (pos 2) (negsuc 0)
    ∷ packets

with_chunk-AllFit : AllFit with_chunk
unfolding AllFit
with_chunk-AllFit = (tt, (tt, (tt, (tt, (omega arith, tt)))))

send_packets-sent_example :
    (c : PacketBuffer) × (send_packets server (pos 4) with_chunk buffer ≡ some c)
    × (c.fd ≡ no_client)
    × (sent_to (pos 4) c.sent ≡ sent_to (pos 4) buffer.sent ++ sent_packets server with_chunk)
send_packets-sent_example =
    Delivered.send_packets-sent server (pos 4) with_chunk buffer (λ e. cc) refl with_chunk-AllFit

abbrev batch : List Packet
batch = update_entity_rotation (pos 5) 10 20 ∷ set_head_rotation (pos 5) 10 ∷ []

batch-AllBatchable : AllBatchable batch
unfolding AllBatchable
batch-AllBatchable = (rotation (pos 5) 10 20, (aware refl tt, tt))

send_batch-sent_example :
    (c : PacketBuffer) × (send_batch server (pos 4) batch buffer ≡ some c)
    × (c.fd ≡ no_client)
    × (sent_to (pos 4) c.sent ≡ sent_to (pos 4) buffer.sent ++ sent_packets server batch)
send_batch-sent_example =
    Delivered.send_batch-sent server (pos 4) batch buffer (λ e. cc) batch-AllBatchable
