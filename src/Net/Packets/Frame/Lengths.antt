-- ===== src/Net/Packets/Frame/Lengths.antt =====
-- The length that every packet of packets.c writes first, against the writes that follow it.
use macintosh_craft.Base.{
  if◌then◌else◌, ℕ, Bool, true, false, zero, suc, ap, ◌⊎◌, inl, inr, Bool-cases, some, none, List,
  [], ◌∷◌, ◌<◌, ◌≡◌, refl, arith, ◌+◌, ◌*◌, ◌%◌, ◌≤◌, ◌++◌, length, length-take, ◌==◌,
}
use macintosh_craft.Base.Int.{ℤ, to_u32}
use macintosh_craft.World.Section.{Section}
use macintosh_craft.Net.VarNum.{size_var_int, size_loop}
use macintosh_craft.Net.Write.{Write, repeat, var_int, byte, var_size}
use macintosh_craft.Net.Write.Size.{
  wire_size, wire_size-append, wire_size-repeat, var_bytes_law, length-array_bytes,
}
use macintosh_craft.Net.Packets
use macintosh_craft.Net.Packets.{Environment}
use macintosh_craft.Net.Packets.Chunk.{
  chunk_data as chunk_data_writes, sections_writes, section_writes, interleaved_size, light_writes,
  light_array, uniform_section, light_data_size, chunk_data_size,
}
use macintosh_craft.Net.Packets.Entities
use macintosh_craft.Net.Packets.Entities.{
  EntityData, size_entity_data, write_entity_data, size_entity_metadata, write_entity_metadata,
  sc_set_entity_metadata,
}
use macintosh_craft.Net.Packets.Frame.{
  Packet, layout, status_response, finish_configuration, known_packs, start_waiting_for_chunks,
  keep_alive, respawn, login_success, send_plugin_message, login_play, synchronize_player_position,
  set_default_spawn_position, player_abilities, update_time, set_center_chunk, chunk_data,
  set_container_slot, block_update, acknowledge_block_change, open_screen, set_cursor_item,
  set_held_item, set_health, system_chat, player_info_update_add_player, spawn_entity,
  set_entity_metadata, entity_animation, teleport_entity, set_head_rotation, update_entity_rotation,
  update_entity_position, update_entity_position_and_rotation, set_entity_velocity, damage_event,
  entity_event, remove_entity, pickup_item,
}

-- A packet of nothing at all, or of a length and the writes that it counts. The length is a
-- `writeVarInt`, or a `writeByte` of less than 128.
pub data IsFramed : List Write → Type 0 where
  nothing : IsFramed []
  by_var_int : {n : ℕ} {ws : List Write} → n ≡ wire_size ws → IsFramed (var_int n ∷ ws)
  by_byte : {n : ℕ} {ws : List Write} → n ≡ wire_size ws → n < 128 → IsFramed (byte n ∷ ws)

-- Sizes of small numbers.
pub var_size_small : (n : ℕ) → n < 128 → var_size n ≡ 1
unfolding var_size size_var_int size_loop
var_size_small n h = ground arith

pub var_size_two : (n : ℕ) → 128 ≤ n → n < 16384 → var_size n ≡ 2
unfolding var_size size_var_int size_loop
var_size_two n l h = ground arith

pub var_size_five : (n : ℕ) → var_size n ≤ 5
var_size_five n = let (size, small, _) = var_bytes_law n [] in omega arith

-- The sizes of the numbers that are written out in the source.
size_of_0 : var_size 0 ≡ 1
size_of_0 = var_size_small 0 (omega arith)

size_of_1 : var_size 1 ≡ 1
size_of_1 = var_size_small 1 (omega arith)

size_of_2 : var_size 2 ≡ 1
size_of_2 = var_size_small 2 (omega arith)

size_of_3 : var_size 3 ≡ 1
size_of_3 = var_size_small 3 (omega arith)

size_of_9 : var_size 9 ≡ 1
size_of_9 = var_size_small 9 (omega arith)

size_of_16 : var_size 16 ≡ 1
size_of_16 = var_size_small 16 (omega arith)

size_of_26 : var_size 26 ≡ 1
size_of_26 = var_size_small 26 (omega arith)

size_of_63 : var_size 63 ≡ 1
size_of_63 = var_size_small 63 (omega arith)

size_of_85 : var_size 85 ≡ 1
size_of_85 = var_size_small 85 (omega arith)

size_of_90 : var_size 90 ≡ 1
size_of_90 = var_size_small 90 (omega arith)

size_of_98 : var_size 98 ≡ 1
size_of_98 = var_size_small 98 (omega arith)

size_of_106 : var_size 106 ≡ 1
size_of_106 = var_size_small 106 (omega arith)

size_of_256 : var_size 256 ≡ 2
size_of_256 = var_size_two 256 (omega arith) (omega arith)

size_of_2048 : var_size 2048 ≡ 2
size_of_2048 = var_size_two 2048 (omega arith) (omega arith)

ruleset sizes = (
  arith, size_of_0, size_of_1, size_of_2, size_of_3, size_of_9, size_of_16, size_of_26, size_of_63,
  size_of_85, size_of_90, size_of_98, size_of_106, size_of_256, size_of_2048,
)

-- The size of an entry is that of its writes, or is not known.
entity_size :
    (e : EntityData)
    → (size_entity_data e ≡ none) ⊎ (size_entity_data e ≡ some (wire_size (write_entity_data e)))
unfolding size_entity_data write_entity_data
entity_size e = elim (Bool-cases (e.type_id == 0)) [
  | inl b ↦ rw b (inr (ap some (omega arith)))
  | inr b ↦ rw b (elim (Bool-cases (e.type_id == 21)) [
    | inl t ↦ rw t (inr (ap some (omega arith)))
    | inr t ↦ rw t (inl refl)
  ])
]

metadata_size :
    (es : List EntityData)
    → (size_entity_metadata es ≡ none)
      ⊎ (size_entity_metadata es ≡ some (wire_size (write_entity_metadata es)))
unfolding write_entity_metadata size_entity_metadata
metadata_size [] = inr refl
metadata_size (e ∷ es) = elim (entity_size e) [
  | inl h ↦ rw (h, size_entity_metadata) (inl refl)
  | inr h ↦ elim (metadata_size es) [
    | inl k ↦ rw (h, k, size_entity_metadata) (inl refl)
    | inr k ↦ rw (h, k, wire_size-append, size_entity_metadata) (inr refl)
  ]
]

metadata-IsFramed : (id : ℤ) (es : List EntityData) → IsFramed (sc_set_entity_metadata id es)
unfolding sc_set_entity_metadata
metadata-IsFramed id es = elim (metadata_size es) [
  | inl h ↦ rw (h, sc_set_entity_metadata) nothing
  | inr h ↦
      rw (h, sc_set_entity_metadata)
        (by_var_int (omega (arith, wire_size-append (write_entity_metadata es) (byte 0xFF ∷ []))))
]

section_size :
    (env : Environment) (section : Section) (interleave : Bool) (between : List ℕ)
    → wire_size (section_writes env section interleave between)
      ≡ 4103 + length env.network_block_palette + (if interleave then length between else 0)
unfolding section_writes
section_size env section true between = omega (sizes, length-array_bytes 4096 0 section.blocks)
section_size env section false between = omega (sizes, length-array_bytes 4096 0 section.blocks)

sections_size :
    (env : Environment) (sections : ℕ → Section) (between : ℕ → List ℕ) (n i : ℕ)
    → wire_size (sections_writes env sections between n i)
      ≡ n * (4103 + length env.network_block_palette) + interleaved_size between n i
unfolding sections_writes interleaved_size
sections_size env sections between zero i = omega arith
sections_size env sections between (suc n) i = omega (
  arith,
  wire_size-append (section_writes env (sections i) (i % 4 == 3) (between i))
      (sections_writes env sections between n (i + 1)),
  section_size env (sections i) (i % 4 == 3) (between i),
  sections_size env sections between n (i + 1),
)

light_size : wire_size light_writes ≡ 14 + 26 * 2050
unfolding light_writes
light_size =
    let dark = light_array 0 in
    let bright = light_array 0xFF in
    let last : List Write = var_int 0 ∷ [] in
    omega (
      sizes,
      wire_size-append (repeat 8 dark ++ repeat 18 bright) last,
      wire_size-append (repeat 8 dark) (repeat 18 bright),
      wire_size-repeat 8 dark,
      wire_size-repeat 18 bright,
      length-array_bytes 2048 0 (λ _. 0),
      length-array_bytes 2048 0 (λ _. 0xFF),
    )

chunk-IsFramed :
    (env : Environment) (sections : ℕ → Section) (between : ℕ → List ℕ) (x z : ℤ)
    → interleaved_size between 20 0 ≡ 0
    → IsFramed (chunk_data_writes env sections between x z)
unfolding chunk_data_writes chunk_data_size light_data_size
chunk-IsFramed env sections between x z whole =
    let bedrock = uniform_section 85 in
    let air = uniform_section 0 in
    let middle = sections_writes env sections between 20 0 in
    let end : List Write = var_int 0 ∷ light_writes in
    by_var_int (
      omega (
        sizes,
        wire_size-append (repeat 4 bedrock ++ middle ++ repeat 8 air) end,
        wire_size-append (repeat 4 bedrock ++ middle) (repeat 8 air),
        wire_size-append (repeat 4 bedrock) middle,
        wire_size-repeat 4 bedrock,
        wire_size-repeat 8 air,
        sections_size env sections between 20 0,
        whole,
        light_size,
      ))

-- Nothing is sent to the client in the middle of the packet.
unfoldable pub IsWhole : Packet → Type 0
IsWhole (chunk_data sections between x z) = interleaved_size between 20 0 ≡ 0
IsWhole p = Unit

pub layout-IsFramed : (env : Environment) (p : Packet) → IsWhole p → IsFramed (layout env p)
unfolding IsWhole Packets.sc_start_waiting_for_chunks Packets.sc_set_center_chunk
    Packets.sc_status_response Packets.sc_finish_configuration Packets.sc_known_packs
    Packets.sc_keep_alive Packets.sc_respawn Packets.sc_login_success Packets.sc_send_plugin_message
    Packets.sc_login_play Packets.sc_synchronize_player_position
    Packets.sc_set_default_spawn_position Packets.sc_player_abilities Packets.sc_update_time
    Packets.sc_set_container_slot Packets.sc_block_update Packets.sc_acknowledge_block_change
    Packets.sc_open_screen Packets.sc_set_cursor_item Packets.sc_set_held_item Packets.sc_set_health
    Packets.sc_system_chat Entities.sc_player_info_update_add_player Entities.sc_spawn_entity
    Entities.sc_entity_animation Entities.sc_teleport_entity Entities.sc_set_head_rotation
    Entities.sc_update_entity_rotation Entities.sc_update_entity_position
    Entities.sc_update_entity_position_and_rotation Entities.sc_set_entity_velocity
    Entities.sc_damage_event Entities.sc_entity_event Entities.sc_remove_entity
    Entities.sc_pickup_item
layout-IsFramed env status_response whole =
    by_var_int (omega (sizes, length-take (length env.motd % 256) env.motd))
layout-IsFramed env finish_configuration whole = by_var_int (omega sizes)
layout-IsFramed env known_packs whole = by_var_int (omega sizes)
layout-IsFramed env start_waiting_for_chunks whole = by_var_int (omega sizes)
layout-IsFramed env keep_alive whole = by_var_int (omega sizes)
layout-IsFramed env respawn whole = by_var_int (omega sizes)
layout-IsFramed env (login_success uuid name) whole =
    by_var_int (omega (sizes, length-take (length name % 256) name, length-array_bytes 16 0 uuid))
layout-IsFramed env (send_plugin_message channel bytes) whole = by_var_int (omega sizes)
layout-IsFramed env (login_play fd) whole = by_var_int (omega sizes)
layout-IsFramed env (synchronize_player_position x y z yaw pitch) whole = by_var_int (omega sizes)
layout-IsFramed env (set_default_spawn_position x y z) whole = by_var_int (omega sizes)
layout-IsFramed env (player_abilities flags) whole = by_var_int (omega sizes)
layout-IsFramed env (update_time ticks) whole = by_var_int (omega sizes)
layout-IsFramed env (set_center_chunk x y) whole = by_var_int (omega sizes)
layout-IsFramed env (chunk_data sections between x z) whole =
    chunk-IsFramed env sections between x z whole
layout-IsFramed env (set_container_slot window_id slot count item) whole = by_var_int (ground sizes)
layout-IsFramed env (block_update x y z block) whole = by_var_int (omega sizes)
layout-IsFramed env (acknowledge_block_change sequence) whole = by_var_int (omega sizes)
layout-IsFramed env (open_screen window title) whole = by_var_int (omega sizes)
layout-IsFramed env (set_cursor_item item count) whole = by_var_int (ground sizes)
layout-IsFramed env (set_held_item slot) whole = by_var_int (omega sizes)
layout-IsFramed env (set_health health food saturation) whole = by_var_int (omega sizes)
layout-IsFramed env (system_chat message) whole = by_var_int (omega sizes)
layout-IsFramed env (player_info_update_add_player uuid name) whole =
    by_var_int (omega (sizes, length-array_bytes 16 0 uuid))
layout-IsFramed env (spawn_entity id uuid type_id x y z yaw pitch) whole =
    by_var_int (omega (sizes, length-array_bytes 16 0 uuid))
layout-IsFramed env (set_entity_metadata id metadata) whole = metadata-IsFramed id metadata
layout-IsFramed env (entity_animation id animation) whole = by_var_int (omega sizes)
layout-IsFramed env (teleport_entity id x y z yaw pitch) whole = by_var_int (omega sizes)
layout-IsFramed env (set_head_rotation id yaw) whole =
    by_byte (omega sizes) (omega (arith, var_size_five (to_u32 id)))
layout-IsFramed env (update_entity_rotation id yaw pitch) whole =
    by_byte (omega sizes) (omega (arith, var_size_five (to_u32 id)))
layout-IsFramed env (update_entity_position id dx dy dz on_ground) whole = by_var_int (omega sizes)
layout-IsFramed env (update_entity_position_and_rotation id dx dy dz yaw pitch on_ground) whole =
    by_var_int (omega sizes)
layout-IsFramed env (set_entity_velocity id vx vy vz) whole = by_var_int (omega sizes)
layout-IsFramed env (damage_event id type_id) whole = by_var_int (omega sizes)
layout-IsFramed env (entity_event id status) whole =
    by_var_int (omega (sizes, length-take (length env.motd % 256) env.motd))
layout-IsFramed env (remove_entity id) whole = by_var_int (omega sizes)
layout-IsFramed env (pickup_item collected collector count) whole = by_var_int (omega sizes)
