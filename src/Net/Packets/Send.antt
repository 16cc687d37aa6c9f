-- ===== src/Net/Packets/Send.antt =====
-- How the functions of packets.c use the packet buffer: not at all, with a packet of their own, or
-- with a packet of their own unless one is started for the client already.
pub mod Demand
pub mod Delivered
use macintosh_craft.Base.{Bool, true, false, List, [], ◌∷◌, Option, none, some, if◌then◌else◌}
use macintosh_craft.Base.Int.{ℤ, eq_ℤ}
use macintosh_craft.Net.Buffer.{PacketBuffer, packet_start, packet_flush}
use macintosh_craft.Net.Write.{run_writes}
use macintosh_craft.Net.Packets.{Environment}
use macintosh_craft.Net.Packets.Frame.{
  Packet, layout, chunk_data, entity_animation, damage_event, system_chat, update_time, keep_alive,
  set_container_slot, block_update, acknowledge_block_change, set_held_item, teleport_entity,
  set_head_rotation, update_entity_position, update_entity_position_and_rotation,
  set_entity_velocity, set_health,
}

pub data Mode : Type 0 where
  unbuffered own_packet batch_aware : Mode

abbrev pub mode : Packet → Mode
mode (chunk_data _ _ _ _) = own_packet
mode (entity_animation _ _) = own_packet
mode (damage_event _ _) = own_packet
mode (system_chat _) = own_packet
mode (update_time _) = batch_aware
mode keep_alive = batch_aware
mode (set_container_slot _ _ _ _) = batch_aware
mode (block_update _ _ _ _) = batch_aware
mode (acknowledge_block_change _) = batch_aware
mode (set_held_item _) = batch_aware
mode (teleport_entity _ _ _ _ _ _) = batch_aware
mode (set_head_rotation _ _) = batch_aware
mode (update_entity_position _ _ _ _ _) = batch_aware
mode (update_entity_position_and_rotation _ _ _ _ _ _ _) = batch_aware
mode (set_entity_velocity _ _ _ _) = batch_aware
mode (set_health _ _ _) = batch_aware
mode _ = unbuffered

-- `packet_start`, the writes, `packet_flush`
unfoldable pub send_own : Environment → ℤ → Packet → PacketBuffer → Option PacketBuffer
send_own env client_fd p b = elim (run_writes client_fd (layout env p) (packet_start client_fd b)) [
  | none ↦ none
  | some c ↦ some (packet_flush c)
]

unfoldable pub send_with : Mode → Environment → ℤ → Packet → PacketBuffer → Option PacketBuffer
unfolding send_own
send_with unbuffered env client_fd p b = run_writes client_fd (layout env p) b
send_with own_packet env client_fd p b = send_own env client_fd p b
send_with batch_aware env client_fd p b =
    if eq_ℤ b.fd client_fd
    then run_writes client_fd (layout env p) b
    else send_own env client_fd p b

unfoldable pub send_packet : Environment → ℤ → Packet → PacketBuffer → Option PacketBuffer
unfolding send_with
send_packet env client_fd p b = send_with (mode p) env client_fd p b

unfoldable pub send_packets : Environment → ℤ → List Packet → PacketBuffer → Option PacketBuffer
send_packets env client_fd [] b = some b
send_packets env client_fd (p ∷ ps) b = elim (send_packet env client_fd p b) [
  | none ↦ none
  | some c ↦ send_packets env client_fd ps c
]

-- A batch, as the movement broadcast, the server tick and `spawnPlayer` make it.
unfoldable pub send_batch : Environment → ℤ → List Packet → PacketBuffer → Option PacketBuffer
send_batch env client_fd ps b = elim (send_packets env client_fd ps (packet_start client_fd b)) [
  | none ↦ none
  | some c ↦ some (packet_flush c)
]
