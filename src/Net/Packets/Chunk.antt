-- ===== src/Net/Packets/Chunk.antt =====
-- `sc_chunkDataAndUpdateLight` of packets.c, as the writes that it makes. What `buildChunkSection`
-- leaves in `chunk_section`, and the biome that it returns, is given for each of the 20 rounds. So is
-- what `chunk_interleave_callback`, `interleave_process_other_clients` of main.c, sends to this client
-- behind every fourth: it moves mobs and handles packets of other clients, which is broadcast.
use macintosh_craft.Base.{
  ℕ, zero, suc, ◌+◌, ◌*◌, ◌%◌, List, [], ◌∷◌, ◌++◌, length, Bool, ◌&&◌, ◌||◌, ◌==◌, if◌then◌else◌,
}
use macintosh_craft.Base.Int.{ℤ, pos, ◌*ℤ◌, to_u32}
use macintosh_craft.Registry.{Block}
use macintosh_craft.Terrain.{Generator, block}
use macintosh_craft.World.Changes.{BlockChange, Changes}
use macintosh_craft.World.Section.{Section, in_axis}
use macintosh_craft.Net.Write.{
  Write, var_int, byte, uint16, uint32, uint64, direct, flush, var_size, repeat, array_bytes,
}
use macintosh_craft.Net.Packets.{Environment, sc_block_update}

unfoldable pub chunk_data_size : Environment → ℕ
chunk_data_size env = (4101 + var_size 256 + length env.network_block_palette) * 20 + 6 * 12

unfoldable pub light_data_size : ℕ
light_data_size = 14 + (var_size 2048 + 2048) * 26

-- A section of one kind of block.
abbrev pub uniform_section : ℕ → List Write
uniform_section n = uint16 4096 ∷ byte 0 ∷ var_int n ∷ byte 0 ∷ byte 0 ∷ []

-- Every fourth section is followed by a flush and by the callback, which finds no batch started. The
-- buffer is empty again after it, and `between` is all that it has sent to the client.
unfoldable pub section_writes : Environment → Section → Bool → List ℕ → List Write
section_writes env section interleave between =
    uint16 4096
    ∷ byte 8
    ∷ var_int 256
    ∷ flush
    ∷ direct env.network_block_palette
    ∷ direct (array_bytes 4096 0 section.blocks)
    ∷ byte 0
    ∷ byte section.biome
    ∷ (if interleave then flush ∷ direct between ∷ [] else [])

-- `n` sections are left, from index `i` on.
unfoldable pub sections_writes : Environment → (ℕ → Section) → (ℕ → List ℕ) → ℕ → ℕ → List Write
sections_writes env sections between zero i = []
sections_writes env sections between (suc n) i =
    section_writes env (sections i) (i % 4 == 3) (between i)
    ++ sections_writes env sections between n (i + 1)

-- How many bytes the callback sends to the client in `n` rounds from round `i` on.
unfoldable pub interleaved_size : (ℕ → List ℕ) → ℕ → ℕ → ℕ
interleaved_size between zero i = 0
interleaved_size between (suc n) i =
    (if i % 4 == 3 then length (between i) else 0) + interleaved_size between n (i + 1)

-- One array of light: 2048 bytes of the same value.
abbrev pub light_array : ℕ → List Write
light_array value = var_int 2048 ∷ flush ∷ direct (array_bytes 2048 0 (λ _. value)) ∷ []

unfoldable pub light_writes : List Write
light_writes =
    var_int 1
    ∷ uint64 0x3FFFFFF
    ∷ var_int 0
    ∷ var_int 0
    ∷ var_int 0
    ∷ var_int 26
    ∷ flush
    ∷ (repeat 8 (light_array 0) ++ repeat 18 (light_array 0xFF) ++ var_int 0 ∷ [])

unfoldable pub chunk_data : Environment → (ℕ → Section) → (ℕ → List ℕ) → ℤ → ℤ → List Write
chunk_data env sections between x z =
    var_int (11 + var_size (chunk_data_size env) + chunk_data_size env + light_data_size)
    ∷ byte 0x27
    ∷ uint32 (to_u32 x)
    ∷ uint32 (to_u32 z)
    ∷ var_int 0
    ∷ var_int (chunk_data_size env)
    ∷ (repeat 4 (uniform_section 85)
        ++ sections_writes env sections between 20 0
        ++ repeat 8 (uniform_section 0)
        ++ var_int 0 ∷ light_writes)

-- The torches and chests of the chunk are sent as block updates of their own.
unfoldable pub is_overlaid : Generator → ℤ → ℤ → BlockChange → Bool
is_overlaid g x z e =
    (e.block == block g Block.torch || e.block == block g Block.chest)
    && (in_axis x e.x && in_axis z e.z)

-- `n` entries are left, from index `i` on.
unfoldable pub overlay_updates :
    Environment → Generator → Changes → ℤ → ℤ → ℕ → ℕ → List (List Write)
overlay_updates env g s x z zero i = []
overlay_updates env g s x z (suc n) i =
    let e = s.entries i in
    let rest = overlay_updates env g s x z n (i + 1) in
    if is_overlaid g x z e then sc_block_update env e.x (pos e.y) e.z e.block ∷ rest else rest

-- The packets, one after the other.
unfoldable pub sc_chunk_data_and_update_light :
    Environment → Generator → Changes → (ℕ → Section) → (ℕ → List ℕ) → ℤ → ℤ → List (List Write)
sc_chunk_data_and_update_light env g s sections between x z =
    chunk_data env sections between x z
    ∷ overlay_updates env g s (x *ℤ pos 16) (z *ℤ pos 16) s.count 0
