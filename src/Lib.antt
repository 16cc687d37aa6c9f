-- ===== src/Lib.antt =====
-- MacintoshCraft is a small Minecraft server, in C, for Macintosh System 7 and for POSIX systems.
-- This library models the code that decides what the world looks like, what of it is sent and
-- kept on disk, what players do to it, and how inventories change, and proves it against
-- independent descriptions.
--
-- The parts and how they interact. The world is generated from a seed, block by block or as
-- sections of 16 by 16 by 16 blocks, and the changes that players make are kept in one array. A
-- section is the generated terrain with the changes on top, and is cached. Packets are sequences
-- of writes, which may go through a buffer. Clients become players, who keep their slot and what
-- they have. All numbers of blocks, items and biomes come from a generated file.
--
-- - Base: numbers, lists, signed integers with C's `/`, `%` and conversions, arrays as functions.
-- - Registry: what `include/registries.h`, generated, gives the program. It is a parameter.
-- - Tools: `mod_abs` and `div_floor` of include/tools.h, `fast_rand` and `splitmix64` of
--   src/tools.c.
-- - Terrain: src/worldgen.c up to `getTerrainAt`, and the terrain part of
--   `buildChunkSectionInternal`. Terrain/Height is `getCornerHeight`, `interpolate` and the
--   `getHeightAt` functions, Terrain/Column is `getTerrainAtFromCache`, Terrain/Feature is
--   `getFeatureFromAnchor` and `getTerrainAt`, Terrain/Section the arrays of a section.
-- - World: World/Changes is the array `block_changes` of src/procedures.c with `getBlockChange`
--   and the part of `makeBlockChange` behind its broadcast, and World/Sorted the same for
--   USE_SORTED_BLOCK_CHANGES, with the broadcast and the cache in World/Sorted/Change;
--   World/Store is what the two versions have in common; World/Blocks is `getBlockAt` and the
--   whole `makeBlockChange`; World/Section is `buildChunkSectionInternal`; World/Cache is
--   `buildChunkSection` with the cache around it; World/Fluids is `handleFluidMovement`.
-- - Net: Net/VarNum is src/varnum.c, Net/Words and Net/Buffer the integers and the packet buffer
--   of src/tools.c. Net/Write is a call of a writer as a value, Net/Packets the packets that
--   src/packets.c sends, each as the list of its writes, with those about players and mobs in
--   Net/Packets/Entities and the chunk in Net/Packets/Chunk; Net/Packets/Frame collects them and
--   Net/Packets/Send is how they use the buffer. Net/Positions is how the coordinates
--   of a block are taken from what clients send.
-- - Items: the tables of src/procedures.c on items and blocks.
-- - Players: `PlayerData` of include/globals.h, and from src/procedures.c the slot numbers and
--   `givePlayerItem`, in Players/Clients the functions that keep the states of clients, and in
--   Players/Roster joining and leaving, and in Players/Eating what happens to the held item.
--   Players/Closing is `cs_closeContainer` of src/packets.c. Players/Actions is what a player does
--   to blocks: Players/Actions/Mining is `handlePlayerAction`, Players/Actions/Using
--   `handlePlayerUseItem`. What is broadcast stands in `Flow`, what the player is told in `Play`, so
--   that the order between the two is left out.
-- - Crafting: src/crafting.c. Crafting/Output is `getCraftingOutput`, with its recipes in
--   Crafting/Recipes, and Crafting/Smelting is `getSmeltingOutput`.
-- - Structures: src/structures.c, the growing of a tree.
-- - Disk: src/serialize.c on the file as entries and players, with what stdio answers in `Stdio`.
--   Disk/Session is a server from its first start to a restart.
-- - Mobs: the packed coordinates of include/globals.h.
-- - Tests: the code run on concrete data.
--
-- State is a record that an operation takes and returns: `Changes` is `block_changes` and
-- `block_changes_count`, `Cache` is `chunk_cache` with its size and clock, `PacketBuffer` is the
-- buffer with what was sent so far. A C array is a function of the index. A `short` or an `int` is
-- an integer, with the conversion to a narrower type written out, an unsigned number is a natural
-- number with its wrap-around written out. A function that fails returns an outcome that says so.
--
-- Bounds and fuel. The loop of `getBlockChange` has `block_changes_count` rounds as fuel, and
-- each round moves on by one entry at least. `writeVarInt` and `sizeVarInt` have five rounds,
-- which is what 32 bits in groups of seven need. The binary search has as many rounds as the
-- array has entries, and its range shrinks with every one. Other loops count down what is left
-- of a known number of rounds: entries of the array or of the file, 32 probes of the cache, 41
-- slots of an inventory, 16 clients. Calls of `handleFluidMovement` inside one another are
-- bounded by an argument, and a fluid that is fed stays below 8 for every height; what lies
-- deeper is left out and noted. The blocks above one that was mined are counted with a byte, so
-- 257 rounds are enough. A furnace has one round more than pieces of fuel, and every round that
-- calls itself uses one up.
--
-- What C leaves open, the result of `>>` by a count out of range and the byte order, is a
-- parameter in `Generator`. Floats and doubles are given by their bits, and the generated
-- palettes, the settings and the clock that packets need are in `Environment`. What
-- `chunk_interleave_callback` sends a client in the middle of a chunk is an argument of the
-- packet. The numbers that `I_to_B` gives items, the bits of pointers and GAMEMODE are in
-- `Rules`. The build that is modelled is the default one, with ALLOW_CHESTS and without
-- USE_SORTED_BLOCK_CHANGES, but for World/Sorted.
--
-- Not modelled: sockets, Macintosh networking and console, which are I/O; most packets that
-- clients send and their dispatch, fighting, the behaviour of mobs and the server's tick, which
-- build on what is modelled.
pub mod Base
pub mod Crafting
pub mod Disk
pub mod Items
pub mod Mobs
pub mod Net
pub mod Players
pub mod Registry
pub mod Structures
pub mod Terrain
pub mod Tests
pub mod Tools
pub mod World
