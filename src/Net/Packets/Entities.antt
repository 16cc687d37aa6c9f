-- ===== src/Net/Packets/Entities.antt =====
-- The packets of packets.c on players and mobs, with the metadata of procedures.c.
use macintosh_craft.Base.{
  ℕ, ◌+◌, List, [], ◌∷◌, ◌++◌, Option, none, some, length, ◌==◌, if◌then◌else◌,
}
use macintosh_craft.Base.Int.{ℤ, wrap, to_u32}
use macintosh_craft.Net.Write.{
  Write, var_int, byte, uint16, uint32, uint64, float, double, direct, var_size, array_bytes,
}

-- `name` is what is before the terminator of `player.name`.
unfoldable pub sc_player_info_update_add_player : (ℕ → ℕ) → List ℕ → List Write
sc_player_info_update_add_player uuid name =
    var_int (21 + length name)
    ∷ byte 0x3F
    ∷ byte 0x01
    ∷ byte 1
    ∷ direct (array_bytes 16 0 uuid)
    ∷ byte (length name)
    ∷ direct name
    ∷ byte 0
    ∷ []

-- The coordinates are given by their bits.
unfoldable pub sc_spawn_entity : ℤ → (ℕ → ℕ) → ℤ → ℕ → ℕ → ℕ → ℕ → ℕ → List Write
sc_spawn_entity id uuid type_id x y z yaw pitch =
    var_int (51 + var_size (to_u32 id) + var_size (to_u32 type_id))
    ∷ byte 0x01
    ∷ var_int (to_u32 id)
    ∷ direct (array_bytes 16 0 uuid)
    ∷ var_int (to_u32 type_id)
    ∷ double x
    ∷ double y
    ∷ double z
    ∷ byte pitch
    ∷ byte yaw
    ∷ byte yaw
    ∷ byte 0
    ∷ uint16 0
    ∷ uint16 0
    ∷ uint16 0
    ∷ []

-- `index`, `type` as the `uint32_t` that is written, and the member of `value` that the type selects.
pub record EntityData : Type 0 where
  pub index : ℕ
  pub type_id : ℕ
  pub value : ℕ

-- Types 0, a byte, and 21, a pose, are known; `none` is -1.
unfoldable pub size_entity_data : EntityData → Option ℕ
size_entity_data e =
    if e.type_id == 0
    then some (1 + var_size e.type_id + 1)
    else if e.type_id == 21
    then some (1 + var_size e.type_id + var_size e.value)
    else none

unfoldable pub size_entity_metadata : List EntityData → Option ℕ
size_entity_metadata [] = some 0
size_entity_metadata (e ∷ es) =
    let rest = size_entity_metadata es in
    elim (size_entity_data e) [
      | none ↦ none
      | some n ↦ elim rest [ none ↦ none | some m ↦ some (n + m) ]
    ]

unfoldable pub write_entity_data : EntityData → List Write
write_entity_data e =
    byte e.index
    ∷ var_int e.type_id
    ∷ (if e.type_id == 0
        then byte e.value ∷ []
        else if e.type_id == 21
        then var_int e.value ∷ []
        else [])

unfoldable pub write_entity_metadata : List EntityData → List Write
write_entity_metadata [] = []
write_entity_metadata (e ∷ es) = write_entity_data e ++ write_entity_metadata es

-- Nothing is sent when the size is not known.
unfoldable pub sc_set_entity_metadata : ℤ → List EntityData → List Write
sc_set_entity_metadata id metadata = elim (size_entity_metadata metadata) [
  | none ↦ []
  | some size ↦
      var_int (2 + var_size (to_u32 id) + size)
      ∷ byte 0x5C
      ∷ var_int (to_u32 id)
      ∷ (write_entity_metadata metadata ++ byte 0xFF ∷ [])
]

unfoldable pub sc_entity_animation : ℤ → ℕ → List Write
sc_entity_animation id animation =
    var_int (2 + var_size (to_u32 id)) ∷ byte 0x02 ∷ var_int (to_u32 id) ∷ byte animation ∷ []

unfoldable pub sc_teleport_entity : ℤ → ℕ → ℕ → ℕ → ℕ → ℕ → List Write
sc_teleport_entity id x y z yaw pitch =
    var_int (58 + var_size (to_u32 id))
    ∷ byte 0x1F
    ∷ var_int (to_u32 id)
    ∷ double x
    ∷ double y
    ∷ double z
    ∷ uint64 0
    ∷ uint64 0
    ∷ uint64 0
    ∷ float yaw
    ∷ float pitch
    ∷ byte 1
    ∷ []

-- This and the next packet write their length as one byte.
unfoldable pub sc_set_head_rotation : ℤ → ℕ → List Write
sc_set_head_rotation id yaw =
    byte (2 + var_size (to_u32 id)) ∷ byte 0x4C ∷ var_int (to_u32 id) ∷ byte yaw ∷ []

unfoldable pub sc_update_entity_rotation : ℤ → ℕ → ℕ → List Write
sc_update_entity_rotation id yaw pitch =
    byte (4 + var_size (to_u32 id))
    ∷ byte 0x31
    ∷ var_int (to_u32 id)
    ∷ byte yaw
    ∷ byte pitch
    ∷ byte 1
    ∷ []

-- `writeInt16`
abbrev pub int16 : ℤ → Write
int16 a = uint16 (wrap 65536 a)

unfoldable pub sc_update_entity_position : ℤ → ℤ → ℤ → ℤ → ℕ → List Write
sc_update_entity_position id dx dy dz on_ground =
    var_int (8 + var_size (to_u32 id))
    ∷ byte 0x2E
    ∷ var_int (to_u32 id)
    ∷ int16 dx
    ∷ int16 dy
    ∷ int16 dz
    ∷ byte on_ground
    ∷ []

unfoldable pub sc_update_entity_position_and_rotation : ℤ → ℤ → ℤ → ℤ → ℕ → ℕ → ℕ → List Write
sc_update_entity_position_and_rotation id dx dy dz yaw pitch on_ground =
    var_int (10 + var_size (to_u32 id))
    ∷ byte 0x2F
    ∷ var_int (to_u32 id)
    ∷ int16 dx
    ∷ int16 dy
    ∷ int16 dz
    ∷ byte yaw
    ∷ byte pitch
    ∷ byte on_ground
    ∷ []

unfoldable pub sc_set_entity_velocity : ℤ → ℤ → ℤ → ℤ → List Write
sc_set_entity_velocity id vx vy vz =
    var_int (7 + var_size (to_u32 id))
    ∷ byte 0x5E
    ∷ var_int (to_u32 id)
    ∷ int16 vx
    ∷ int16 vy
    ∷ int16 vz
    ∷ []

unfoldable pub sc_damage_event : ℤ → ℤ → List Write
sc_damage_event entity_id type_id =
    var_int (4 + var_size (to_u32 entity_id) + var_size (to_u32 type_id))
    ∷ byte 0x19
    ∷ var_int (to_u32 entity_id)
    ∷ var_int (to_u32 type_id)
    ∷ byte 0
    ∷ byte 0
    ∷ byte 0
    ∷ []

unfoldable pub sc_entity_event : ℤ → ℕ → List Write
sc_entity_event entity_id status =
    var_int 6 ∷ byte 0x1E ∷ uint32 (to_u32 entity_id) ∷ byte status ∷ []

unfoldable pub sc_remove_entity : ℤ → List Write
sc_remove_entity entity_id =
    var_int (2 + var_size (to_u32 entity_id)) ∷ byte 0x46 ∷ byte 1 ∷ var_int (to_u32 entity_id) ∷ []

unfoldable pub sc_pickup_item : ℤ → ℤ → ℕ → List Write
sc_pickup_item collected collector count =
    var_int (1 + var_size (to_u32 collected) + var_size (to_u32 collector) + var_size count)
    ∷ byte 0x75
    ∷ var_int (to_u32 collected)
    ∷ var_int (to_u32 collector)
    ∷ var_int count
    ∷ []
