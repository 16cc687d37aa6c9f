-- ===== src/Net/Packets/Send/Demand.antt =====
-- What the packets of packets.c demand of the packet buffer.
use macintosh_craft.Base.{
  ℕ, zero, suc, ◌%◌, ◌==◌, Option-cases, ◌+◌, ◌≤◌, ◌≡◌, refl, Bool, true, false, List, [], ◌∷◌,
  ◌++◌, length, arith, inl, inr,
}
use macintosh_craft.Base.Int.{ℤ}
use macintosh_craft.World.Section.{Section}
use macintosh_craft.Net.Buffer.{packet_buffer_size}
use macintosh_craft.Net.Write.{
  Write, repeat, var_int, byte, uint16, uint32, uint64, float, double, direct, gathered, flush,
}
use macintosh_craft.Net.Write.Gather.{
  IsTidy, append-IsTidy, repeat-IsTidy, is_tidy, is_allowed, empty_after,
}
use macintosh_craft.Net.Write.Idle.{is_ungathered}
use macintosh_craft.Net.Packets
use macintosh_craft.Net.Packets.{Environment}
use macintosh_craft.Net.Packets.Chunk
use macintosh_craft.Net.Packets.Chunk.{
  section_writes, sections_writes, uniform_section, light_array, light_writes,
}
use macintosh_craft.Net.Packets.Entities
use macintosh_craft.Net.Packets.Entities.{
  EntityData, write_entity_data, write_entity_metadata, size_entity_metadata,
}
use macintosh_craft.Net.Packets.Frame.{
  Packet, layout, status_response, finish_configuration, known_packs, start_waiting_for_chunks,
  keep_alive, respawn, login_success, send_plugin_message, login_play, synchronize_player_position,
  set_default_spawn_position, player_abilities, update_time, set_center_chunk, chunk_data,
  set_container_slot, block_update, acknowledge_block_change, open_screen, set_cursor_item,
  set_held_item, set_health, system_chat, player_info_update_add_player, spawn_entity,
  set_entity_metadata, entity_animation, teleport_entity, set_head_rotation, update_entity_rotation,
  update_entity_position, update_entity_position_and_rotation, set_entity_velocity, damage_event,
  entity_event, remove_entity, pickup_item,
}
use macintosh_craft.Net.Packets.Send.{Mode, unbuffered, own_packet, batch_aware, mode}

-- A chat message that is not longer than the buffer.
abbrev pub FitsBuffer : Packet → Type 0
FitsBuffer (system_chat message) = length message ≤ packet_buffer_size
FitsBuffer _ = Unit

-- What the writes of a packet have to respect, by the way it uses the buffer.
abbrev pub demand : Mode → List Write → Bool
demand unbuffered ws = is_ungathered ws
demand own_packet ws = is_tidy true ws
demand batch_aware ws = is_tidy false ws

is_ungathered-append :
    (us ws : List Write)
    → is_ungathered us ≡ true
    → is_ungathered ws ≡ true
    → is_ungathered (us ++ ws) ≡ true
unfolding is_ungathered
is_ungathered-append [] ws h k = k
is_ungathered-append (var_int n ∷ us) ws h k = is_ungathered-append us ws h k
is_ungathered-append (byte n ∷ us) ws h k = is_ungathered-append us ws h k
is_ungathered-append (uint16 n ∷ us) ws h k = is_ungathered-append us ws h k
is_ungathered-append (uint32 n ∷ us) ws h k = is_ungathered-append us ws h k
is_ungathered-append (uint64 n ∷ us) ws h k = is_ungathered-append us ws h k
is_ungathered-append (float n ∷ us) ws h k = is_ungathered-append us ws h k
is_ungathered-append (double n ∷ us) ws h k = is_ungathered-append us ws h k
is_ungathered-append (direct bs ∷ us) ws h k = is_ungathered-append us ws h k
is_ungathered-append (gathered bs ∷ us) ws h k = absurd (cc)
is_ungathered-append (flush ∷ us) ws h k = is_ungathered-append us ws h k

entity-is_ungathered : (e : EntityData) → is_ungathered (write_entity_data e) ≡ true
unfolding write_entity_data is_ungathered
entity-is_ungathered e = ground arith

entities-is_ungathered : (es : List EntityData) → is_ungathered (write_entity_metadata es) ≡ true
unfolding write_entity_metadata is_ungathered
entities-is_ungathered [] = refl
entities-is_ungathered (e ∷ es) =
    is_ungathered-append (write_entity_data e) (write_entity_metadata es) (entity-is_ungathered e)
      (entities-is_ungathered es)

metadata-demand :
    (id : ℤ) (es : List EntityData) → is_ungathered (Entities.sc_set_entity_metadata id es) ≡ true
unfolding is_ungathered Entities.sc_set_entity_metadata
metadata-demand id es = elim (Option-cases (size_entity_metadata es)) [
  | inl e ↦ rw (e, Entities.sc_set_entity_metadata, is_ungathered) refl
  | inr (n, e) ↦
      rw (e, Entities.sc_set_entity_metadata, is_ungathered)
        (is_ungathered-append (write_entity_metadata es) (byte 0xFF ∷ [])
          (entities-is_ungathered es) refl)
]

section-IsTidy :
    (env : Environment) (section : Section) (interleave : Bool) (between : List ℕ)
    → IsTidy (section_writes env section interleave between)
unfolding section_writes is_tidy is_allowed empty_after
section-IsTidy env section true between empty = refl
section-IsTidy env section false between empty = refl

sections-IsTidy :
    (env : Environment) (sections : ℕ → Section) (between : ℕ → List ℕ) (n i : ℕ)
    → IsTidy (sections_writes env sections between n i)
unfolding sections_writes is_tidy
sections-IsTidy env sections between zero i empty = refl
sections-IsTidy env sections between (suc n) i empty =
    append-IsTidy (section_writes env (sections i) (i % 4 == 3) (between i))
      (sections_writes env sections between n (i + 1))
      (section-IsTidy env (sections i) (i % 4 == 3) (between i))
      (sections-IsTidy env sections between n (i + 1)) empty

uniform-IsTidy : (n : ℕ) → IsTidy (uniform_section n)
unfolding is_tidy is_allowed empty_after
uniform-IsTidy n empty = refl

array-IsTidy : (value : ℕ) → IsTidy (light_array value)
unfolding is_tidy is_allowed empty_after
array-IsTidy value empty = refl

last-IsTidy : IsTidy (var_int 0 ∷ [])
unfolding is_tidy is_allowed empty_after
last-IsTidy empty = refl

light-IsTidy : IsTidy light_writes
unfolding light_writes is_tidy is_allowed empty_after
light-IsTidy empty =
    append-IsTidy (repeat 8 (light_array 0) ++ repeat 18 (light_array 0xFF)) (var_int 0 ∷ [])
      (append-IsTidy (repeat 8 (light_array 0)) (repeat 18 (light_array 0xFF))
        (repeat-IsTidy 8 (light_array 0) (array-IsTidy 0))
        (repeat-IsTidy 18 (light_array 0xFF) (array-IsTidy 0xFF)))
      last-IsTidy true

ending-IsTidy : IsTidy (var_int 0 ∷ light_writes)
unfolding is_tidy is_allowed empty_after
ending-IsTidy empty = light-IsTidy false

chunk-demand :
    (env : Environment) (sections : ℕ → Section) (between : ℕ → List ℕ) (x z : ℤ)
    → is_tidy true (Chunk.chunk_data env sections between x z) ≡ true
unfolding Chunk.chunk_data is_tidy is_allowed empty_after
chunk-demand env sections between x z =
    let bedrock = repeat 4 (uniform_section 85) in
    let air = repeat 8 (uniform_section 0) in
    let middle = sections_writes env sections between 20 0 in
    append-IsTidy (bedrock ++ middle ++ air) (var_int 0 ∷ light_writes)
      (append-IsTidy (bedrock ++ middle) air
        (append-IsTidy bedrock middle (repeat-IsTidy 4 (uniform_section 85) (uniform-IsTidy 85))
          (sections-IsTidy env sections between 20 0))
        (repeat-IsTidy 8 (uniform_section 0) (uniform-IsTidy 0)))
      ending-IsTidy false

pub layout-demand :
    (env : Environment) (p : Packet) → FitsBuffer p → demand (mode p) (layout env p) ≡ true
unfolding is_tidy is_allowed empty_after is_ungathered Packets.sc_status_response
    Packets.sc_finish_configuration Packets.sc_known_packs Packets.sc_keep_alive Packets.sc_respawn
    Packets.sc_login_success Packets.sc_send_plugin_message Packets.sc_login_play
    Packets.sc_synchronize_player_position Packets.sc_set_default_spawn_position
    Packets.sc_player_abilities Packets.sc_update_time Packets.sc_set_container_slot
    Packets.sc_block_update Packets.sc_acknowledge_block_change Packets.sc_open_screen
    Packets.sc_set_cursor_item Packets.sc_set_held_item Packets.sc_set_health Packets.sc_system_chat
    Entities.sc_player_info_update_add_player Entities.sc_spawn_entity Entities.sc_entity_animation
    Entities.sc_teleport_entity Entities.sc_set_head_rotation Entities.sc_update_entity_rotation
    Entities.sc_update_entity_position Entities.sc_update_entity_position_and_rotation
    Entities.sc_set_entity_velocity Entities.sc_damage_event Entities.sc_entity_event
    Entities.sc_remove_entity Entities.sc_pickup_item Packets.sc_start_waiting_for_chunks
    Packets.sc_set_center_chunk
layout-demand env status_response fits = refl
layout-demand env finish_configuration fits = refl
layout-demand env known_packs fits = refl
layout-demand env start_waiting_for_chunks fits = refl
layout-demand env keep_alive fits = refl
layout-demand env respawn fits = refl
layout-demand env (login_success uuid name) fits = refl
layout-demand env (send_plugin_message channel bytes) fits = refl
layout-demand env (login_play fd) fits = refl
layout-demand env (synchronize_player_position x y z yaw pitch) fits = refl
layout-demand env (set_default_spawn_position x y z) fits = refl
layout-demand env (player_abilities flags) fits = refl
layout-demand env (update_time ticks) fits = refl
layout-demand env (set_center_chunk x y) fits = refl
layout-demand env (chunk_data sections between x z) fits = chunk-demand env sections between x z
layout-demand env (set_container_slot window_id slot count item) fits = ground arith
layout-demand env (block_update x y z block) fits = refl
layout-demand env (acknowledge_block_change sequence) fits = refl
layout-demand env (open_screen window title) fits = refl
layout-demand env (set_cursor_item item count) fits = ground arith
layout-demand env (set_held_item slot) fits = refl
layout-demand env (set_health health food saturation) fits = refl
layout-demand env (system_chat message) fits = ground arith
layout-demand env (player_info_update_add_player uuid name) fits = refl
layout-demand env (spawn_entity id uuid type_id x y z yaw pitch) fits = refl
layout-demand env (set_entity_metadata id metadata) fits = metadata-demand id metadata
layout-demand env (entity_animation id animation) fits = refl
layout-demand env (teleport_entity id x y z yaw pitch) fits = refl
layout-demand env (set_head_rotation id yaw) fits = refl
layout-demand env (update_entity_rotation id yaw pitch) fits = refl
layout-demand env (update_entity_position id dx dy dz on_ground) fits = refl
layout-demand env (update_entity_position_and_rotation id dx dy dz yaw pitch on_ground) fits = refl
layout-demand env (set_entity_velocity id vx vy vz) fits = refl
layout-demand env (damage_event id type_id) fits = refl
layout-demand env (entity_event id status) fits = refl
layout-demand env (remove_entity id) fits = refl
layout-demand env (pickup_item collected collector count) fits = refl
