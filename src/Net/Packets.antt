-- ===== src/Net/Packets.antt =====
-- The packets that packets.c sends, each as the writes that its function makes, in order.
pub mod Entities
pub mod Chunk
pub mod Frame
pub mod Send
use macintosh_craft.Base.{ℕ, zero, suc, ◌+◌, ◌-◌, ◌*◌, ◌%◌, ◌^◌, List, [], ◌∷◌, ◌++◌, ltb, ◌==◌}
use macintosh_craft.Base.{length, take, if◌then◌else◌}
use macintosh_craft.Base.Int.{ℤ, wrap, to_u32}
use macintosh_craft.Net.Write.{
  Write, var_int, byte, uint16, uint32, uint64, float, double, direct, gathered, var_size,
  array_bytes,
}

-- What the packets take from elsewhere: the generated `block_palette` and `network_block_palette`,
-- the settings, the world's age by the program's clock, and the bits of the two numbers of
-- `sc_setHealth` as floats.
pub record Environment : Type 0 where
  pub block_palette : ℕ → ℕ
  pub network_block_palette : List ℕ
  pub motd : List ℕ
  pub view_distance : ℤ
  pub world_age : ℕ
  pub health_float : ℕ → ℕ
  pub saturation_float : ℕ → ℕ

-- {"version":{"name":"1.21.8","protocol":772},"description":{"text":"
abbrev pub status_header : List ℕ
status_header =
    123 ∷ 34 ∷ 118 ∷ 101 ∷ 114 ∷ 115 ∷ 105 ∷ 111 ∷ 110 ∷ 34 ∷ 58 ∷ 123 ∷ 34 ∷ 110 ∷ 97 ∷ 109 ∷ 101
    ∷ 34 ∷ 58 ∷ 34 ∷ 49 ∷ 46 ∷ 50 ∷ 49 ∷ 46 ∷ 56 ∷ 34 ∷ 44 ∷ 34 ∷ 112 ∷ 114 ∷ 111 ∷ 116 ∷ 111 ∷ 99
    ∷ 111 ∷ 108 ∷ 34 ∷ 58 ∷ 55 ∷ 55 ∷ 50 ∷ 125 ∷ 44 ∷ 34 ∷ 100 ∷ 101 ∷ 115 ∷ 99 ∷ 114 ∷ 105 ∷ 112
    ∷ 116 ∷ 105 ∷ 111 ∷ 110 ∷ 34 ∷ 58 ∷ 123 ∷ 34 ∷ 116 ∷ 101 ∷ 120 ∷ 116 ∷ 34 ∷ 58 ∷ 34 ∷ []

-- "}}
abbrev pub status_footer : List ℕ
status_footer = 34 ∷ 125 ∷ 125 ∷ []

-- `sizeof` counts the terminators; `motd_len` is a `uint8_t`, `string_len` a `uint16_t`.
unfoldable pub sc_status_response : Environment → List Write
sc_status_response env =
    let motd_len = length env.motd % 256 in
    let string_len =
      (length status_header + 1 + (length status_footer + 1) + motd_len - 2) % 65536 in
    var_int (1 + string_len + var_size string_len)
    ∷ byte 0x00
    ∷ var_int string_len
    ∷ direct status_header
    ∷ direct (take motd_len env.motd)
    ∷ direct status_footer
    ∷ []

-- `name` is what is before its terminator; `name_length` is a `uint8_t`.
unfoldable pub sc_login_success : (ℕ → ℕ) → List ℕ → List Write
sc_login_success uuid name =
    let name_length = length name % 256 in
    var_int (1 + 16 + var_size name_length + name_length + 1)
    ∷ var_int 0x02
    ∷ direct (array_bytes 16 0 uuid)
    ∷ var_int name_length
    ∷ direct (take name_length name)
    ∷ var_int 0
    ∷ []

abbrev pub known_packs : List ℕ
known_packs =
    0x0e ∷ 0x01 ∷ 0x09 ∷ 0x6d ∷ 0x69 ∷ 0x6e ∷ 0x65 ∷ 0x63 ∷ 0x72 ∷ 0x61 ∷ 0x66 ∷ 0x74 ∷ 0x04 ∷ 0x63
    ∷ 0x6f ∷ 0x72 ∷ 0x65 ∷ 0x06 ∷ 0x31 ∷ 0x2e ∷ 0x32 ∷ 0x31 ∷ 0x2e ∷ 0x38 ∷ []

unfoldable pub sc_known_packs : List Write
sc_known_packs = var_int 24 ∷ direct known_packs ∷ []

unfoldable pub sc_send_plugin_message : List ℕ → List ℕ → List Write
sc_send_plugin_message channel bytes =
    let channel_len = length channel in
    let data_len = length bytes in
    var_int (1 + var_size channel_len + channel_len + var_size data_len + data_len)
    ∷ byte 0x01
    ∷ var_int channel_len
    ∷ direct channel
    ∷ var_int data_len
    ∷ direct bytes
    ∷ []

unfoldable pub sc_finish_configuration : List Write
sc_finish_configuration = var_int 1 ∷ var_int 0x03 ∷ []

-- overworld
abbrev pub dimension : List ℕ
dimension = 111 ∷ 118 ∷ 101 ∷ 114 ∷ 119 ∷ 111 ∷ 114 ∷ 108 ∷ 100 ∷ []

abbrev pub max_players : ℕ
max_players = 16

abbrev pub gamemode : ℕ
gamemode = 0

unfoldable pub sc_login_play : Environment → ℤ → List Write
sc_login_play env client_fd =
    let distance = to_u32 env.view_distance in
    var_int (47 + var_size max_players + var_size distance * 2)
    ∷ byte 0x2B
    ∷ uint32 (to_u32 client_fd)
    ∷ byte 0
    ∷ var_int 1
    ∷ var_int 9
    ∷ direct dimension
    ∷ var_int max_players
    ∷ var_int distance
    ∷ var_int distance
    ∷ byte 0
    ∷ byte 1
    ∷ byte 0
    ∷ var_int 0
    ∷ var_int 9
    ∷ direct dimension
    ∷ uint64 0x0123456789ABCDEF
    ∷ byte gamemode
    ∷ byte 0xFF
    ∷ byte 0
    ∷ byte 0
    ∷ byte 0
    ∷ var_int 0
    ∷ var_int 63
    ∷ byte 0
    ∷ []

-- -1, as a `uint32_t`
abbrev pub minus_one : ℕ
minus_one = 0xFFFFFFFF

-- The coordinates and angles are given by their bits.
unfoldable pub sc_synchronize_player_position : ℕ → ℕ → ℕ → ℕ → ℕ → List Write
sc_synchronize_player_position x y z yaw pitch =
    var_int (61 + var_size minus_one)
    ∷ byte 0x41
    ∷ var_int minus_one
    ∷ double x
    ∷ double y
    ∷ double z
    ∷ double 0
    ∷ double 0
    ∷ double 0
    ∷ float yaw
    ∷ float pitch
    ∷ uint32 0
    ∷ []

-- `((x & 0x3FFFFFF) << 38) | ((z & 0x3FFFFFF) << 12) | (y & 0xFFF)`; the parts share no bits.
unfoldable pub packed_position : ℤ → ℤ → ℤ → ℕ
packed_position x y z = wrap (2 ^ 26) x * 2 ^ 38 + wrap (2 ^ 26) z * 2 ^ 12 + wrap (2 ^ 12) y

unfoldable pub sc_set_default_spawn_position : ℤ → ℤ → ℤ → List Write
sc_set_default_spawn_position x y z =
    var_int (var_size 0x5A + 12) ∷ var_int 0x5A ∷ uint64 (packed_position x y z) ∷ float 0 ∷ []

-- 0.05f is 0x3D4CCCCD, 0.1f is 0x3DCCCCCD.
unfoldable pub sc_player_abilities : ℕ → List Write
sc_player_abilities flags =
    var_int 10 ∷ byte 0x39 ∷ byte flags ∷ float 0x3D4CCCCD ∷ float 0x3DCCCCCD ∷ []

unfoldable pub sc_update_time : Environment → ℕ → List Write
sc_update_time env ticks =
    var_int 18 ∷ var_int 0x6A ∷ uint64 env.world_age ∷ uint64 ticks ∷ byte 1 ∷ []

unfoldable pub sc_start_waiting_for_chunks : List Write
sc_start_waiting_for_chunks = var_int 6 ∷ byte 0x22 ∷ byte 13 ∷ uint32 0 ∷ []

unfoldable pub sc_set_center_chunk : ℤ → ℤ → List Write
sc_set_center_chunk x y =
    var_int (1 + var_size (to_u32 x) + var_size (to_u32 y))
    ∷ byte 0x57
    ∷ var_int (to_u32 x)
    ∷ var_int (to_u32 y)
    ∷ []

unfoldable pub sc_keep_alive : List Write
sc_keep_alive = var_int 9 ∷ byte 0x26 ∷ uint64 0 ∷ []

unfoldable pub sc_set_container_slot : ℤ → ℕ → ℕ → ℕ → List Write
sc_set_container_slot window_id slot count item =
    var_int (
      1
      + var_size (to_u32 window_id)
      + 1
      + 2
      + var_size count
      + (if ltb 0 count then var_size item + 2 else 0))
    ∷ byte 0x14
    ∷ var_int (to_u32 window_id)
    ∷ var_int 0
    ∷ uint16 slot
    ∷ var_int count
    ∷ (if ltb 0 count then var_int item ∷ var_int 0 ∷ var_int 0 ∷ [] else [])

unfoldable pub sc_block_update : Environment → ℤ → ℤ → ℤ → ℕ → List Write
sc_block_update env x y z block =
    var_int (9 + var_size (env.block_palette block))
    ∷ byte 0x08
    ∷ uint64 (packed_position x y z)
    ∷ var_int (env.block_palette block)
    ∷ []

unfoldable pub sc_acknowledge_block_change : ℤ → List Write
sc_acknowledge_block_change sequence =
    var_int (1 + var_size (to_u32 sequence)) ∷ byte 0x04 ∷ var_int (to_u32 sequence) ∷ []

-- `title` has the `length` bytes that are sent; `length` is a `uint16_t`.
unfoldable pub sc_open_screen : ℕ → List ℕ → List Write
sc_open_screen window title =
    var_int (1 + 2 * var_size window + 1 + 2 + length title)
    ∷ byte 0x34
    ∷ var_int window
    ∷ var_int window
    ∷ byte 8
    ∷ uint16 (length title)
    ∷ direct title
    ∷ []

unfoldable pub sc_set_cursor_item : ℕ → ℕ → List Write
sc_set_cursor_item item count =
    var_int (1 + var_size count + (if count == 0 then 0 else var_size item + 2))
    ∷ byte 0x59
    ∷ var_int count
    ∷ (if count == 0 then [] else var_int item ∷ byte 0 ∷ byte 0 ∷ [])

unfoldable pub sc_set_held_item : ℕ → List Write
sc_set_held_item slot = var_int (var_size 0x62 + 1) ∷ var_int 0x62 ∷ byte slot ∷ []

unfoldable pub sc_set_health : Environment → ℕ → ℕ → ℕ → List Write
sc_set_health env health food saturation =
    var_int (9 + var_size food)
    ∷ byte 0x61
    ∷ float (env.health_float health)
    ∷ var_int food
    ∷ float (env.saturation_float saturation)
    ∷ []

unfoldable pub sc_respawn : List Write
sc_respawn =
    var_int 28
    ∷ byte 0x4B
    ∷ var_int 0
    ∷ var_int 9
    ∷ direct dimension
    ∷ uint64 0x0123456789ABCDEF
    ∷ byte gamemode
    ∷ byte 0xFF
    ∷ byte 0
    ∷ byte 0
    ∷ byte 0
    ∷ var_int 0
    ∷ var_int 63
    ∷ byte 0
    ∷ []

-- `message` has the `len` bytes that are sent; `len` is a `uint16_t`.
unfoldable pub sc_system_chat : List ℕ → List Write
sc_system_chat message =
    var_int (5 + length message)
    ∷ byte 0x72
    ∷ byte 8
    ∷ uint16 (length message)
    ∷ gathered message
    ∷ byte 0
    ∷ []
