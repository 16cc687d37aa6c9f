-- ===== src/Net/Packets/Frame.antt =====
-- The length that every packet of packets.c declares, and the bytes that follow it.
pub mod Lengths
pub mod Received
use macintosh_craft.Base.{ℕ, List}
use macintosh_craft.Base.Int.{ℤ}
use macintosh_craft.World.Section.{Section}
use macintosh_craft.Net.Write.{Write}
use macintosh_craft.Net.Packets
use macintosh_craft.Net.Packets.{Environment}
use macintosh_craft.Net.Packets.Chunk
use macintosh_craft.Net.Packets.Entities
use macintosh_craft.Net.Packets.Entities.{EntityData}

-- A call of one of the functions, with its arguments.
pub data Packet : Type 0 where
  status_response finish_configuration known_packs start_waiting_for_chunks keep_alive respawn :
      Packet
  login_success : (ℕ → ℕ) → List ℕ → Packet
  send_plugin_message : List ℕ → List ℕ → Packet
  login_play : ℤ → Packet
  synchronize_player_position : ℕ → ℕ → ℕ → ℕ → ℕ → Packet
  set_default_spawn_position : ℤ → ℤ → ℤ → Packet
  player_abilities : ℕ → Packet
  update_time : ℕ → Packet
  set_center_chunk : ℤ → ℤ → Packet
  chunk_data : (ℕ → Section) → (ℕ → List ℕ) → ℤ → ℤ → Packet
  set_container_slot : ℤ → ℕ → ℕ → ℕ → Packet
  block_update : ℤ → ℤ → ℤ → ℕ → Packet
  acknowledge_block_change : ℤ → Packet
  open_screen : ℕ → List ℕ → Packet
  set_cursor_item : ℕ → ℕ → Packet
  set_held_item : ℕ → Packet
  set_health : ℕ → ℕ → ℕ → Packet
  system_chat : List ℕ → Packet
  player_info_update_add_player : (ℕ → ℕ) → List ℕ → Packet
  spawn_entity : ℤ → (ℕ → ℕ) → ℤ → ℕ → ℕ → ℕ → ℕ → ℕ → Packet
  set_entity_metadata : ℤ → List EntityData → Packet
  entity_animation : ℤ → ℕ → Packet
  teleport_entity : ℤ → ℕ → ℕ → ℕ → ℕ → ℕ → Packet
  set_head_rotation : ℤ → ℕ → Packet
  update_entity_rotation : ℤ → ℕ → ℕ → Packet
  update_entity_position : ℤ → ℤ → ℤ → ℤ → ℕ → Packet
  update_entity_position_and_rotation : ℤ → ℤ → ℤ → ℤ → ℕ → ℕ → ℕ → Packet
  set_entity_velocity : ℤ → ℤ → ℤ → ℤ → Packet
  damage_event : ℤ → ℤ → Packet
  entity_event : ℤ → ℕ → Packet
  remove_entity : ℤ → Packet
  pickup_item : ℤ → ℤ → ℕ → Packet

abbrev pub layout : Environment → Packet → List Write
layout env status_response = Packets.sc_status_response env
layout env finish_configuration = Packets.sc_finish_configuration
layout env known_packs = Packets.sc_known_packs
layout env start_waiting_for_chunks = Packets.sc_start_waiting_for_chunks
layout env keep_alive = Packets.sc_keep_alive
layout env respawn = Packets.sc_respawn
layout env (login_success uuid name) = Packets.sc_login_success uuid name
layout env (send_plugin_message channel bytes) = Packets.sc_send_plugin_message channel bytes
layout env (login_play fd) = Packets.sc_login_play env fd
layout env (synchronize_player_position x y z yaw pitch) =
    Packets.sc_synchronize_player_position x y z yaw pitch
layout env (set_default_spawn_position x y z) = Packets.sc_set_default_spawn_position x y z
layout env (player_abilities flags) = Packets.sc_player_abilities flags
layout env (update_time ticks) = Packets.sc_update_time env ticks
layout env (set_center_chunk x y) = Packets.sc_set_center_chunk x y
layout env (chunk_data sections between x z) = Chunk.chunk_data env sections between x z
layout env (set_container_slot window_id slot count item) =
    Packets.sc_set_container_slot window_id slot count item
layout env (block_update x y z block) = Packets.sc_block_update env x y z block
layout env (acknowledge_block_change sequence) = Packets.sc_acknowledge_block_change sequence
layout env (open_screen window title) = Packets.sc_open_screen window title
layout env (set_cursor_item item count) = Packets.sc_set_cursor_item item count
layout env (set_held_item slot) = Packets.sc_set_held_item slot
layout env (set_health health food saturation) = Packets.sc_set_health env health food saturation
layout env (system_chat message) = Packets.sc_system_chat message
layout env (player_info_update_add_player uuid name) =
    Entities.sc_player_info_update_add_player uuid name
layout env (spawn_entity id uuid type_id x y z yaw pitch) =
    Entities.sc_spawn_entity id uuid type_id x y z yaw pitch
layout env (set_entity_metadata id metadata) = Entities.sc_set_entity_metadata id metadata
layout env (entity_animation id animation) = Entities.sc_entity_animation id animation
layout env (teleport_entity id x y z yaw pitch) = Entities.sc_teleport_entity id x y z yaw pitch
layout env (set_head_rotation id yaw) = Entities.sc_set_head_rotation id yaw
layout env (update_entity_rotation id yaw pitch) = Entities.sc_update_entity_rotation id yaw pitch
layout env (update_entity_position id dx dy dz on_ground) =
    Entities.sc_update_entity_position id dx dy dz on_ground
layout env (update_entity_position_and_rotation id dx dy dz yaw pitch on_ground) =
    Entities.sc_update_entity_position_and_rotation id dx dy dz yaw pitch on_ground
layout env (set_entity_velocity id vx vy vz) = Entities.sc_set_entity_velocity id vx vy vz
layout env (damage_event id type_id) = Entities.sc_damage_event id type_id
layout env (entity_event id status) = Entities.sc_entity_event id status
layout env (remove_entity id) = Entities.sc_remove_entity id
layout env (pickup_item collected collector count) =
    Entities.sc_pickup_item collected collector count
