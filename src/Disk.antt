-- ===== src/Disk.antt =====
-- The world file of serialize.c: what is written, and how it is read back.
pub mod Saved
pub mod Restart
pub mod Session
pub mod Chests
use macintosh_craft.Base.{
  ℕ, zero, suc, ◌+◌, ◌-◌, ◌/◌, Bool, true, false, not, Option, none, some, ◌*◌, ◌&&◌, ltb, leb,
  ◌==◌, if◌then◌else◌,
}
use macintosh_craft.Base.Array.{update}
use macintosh_craft.World.Changes.{BlockChange, Changes, gap, max_block_changes}
use macintosh_craft.Players.{PlayerData}

-- "world.bin", entry by entry. `players` is what was last written behind the entries, and
-- `overwritten` says whether an entry was written over it since.
pub record WorldFile : Type 0 where
  pub entries : ℕ → BlockChange
  pub players : ℕ → PlayerData
  pub overwritten : Bool

-- What stdio does: whether files are opened and created, and positions found, whether the
-- arrays are read and written as a whole, and what `fwrite` makes of an old entry and a new
-- one, with whether it reports success. What is left of the players by a failed `fwrite`.
pub record Stdio : Type 0 where
  pub opens : Bool
  pub creates : Bool
  pub seeks : ℕ → Bool
  pub reads_entries : Bool
  pub reads_players : Bool
  pub writes_entries : Bool
  pub writes_players : Bool
  pub write_entry : ℕ → BlockChange → BlockChange → BlockChange × Bool
  pub torn_players : (ℕ → PlayerData) → (ℕ → PlayerData) → ℕ → PlayerData

-- The arrays in memory.
pub record Memory : Type 0 where
  pub changes : Changes
  pub players : ℕ → PlayerData

-- An entry at its offset; behind `max_block_changes` of them stands the player data.
unfoldable pub put_entry : ℕ → BlockChange → WorldFile → WorldFile
put_entry i e f =
    if ltb i max_block_changes
    then record f { entries = update f.entries i e }
    else record f { overwritten = true }

-- `n` entries are left, from `i` on.
unfoldable pub write_entries : ℕ → Stdio → Changes → ℕ → WorldFile → WorldFile
write_entries zero io s i f = f
write_entries (suc n) io s i f =
    let (e, done) = io.write_entry i (f.entries i) (s.entries i) in
    let f1 = put_entry i e f in
    let rest = write_entries n io s (i + 1) f1 in
    if not (io.seeks i) then f else if not done then f1 else rest

unfoldable pub write_block_changes_to_disk : Stdio → Changes → ℕ → ℕ → WorldFile → WorldFile
write_block_changes_to_disk io s from to f =
    if not io.opens then f else write_entries (to + 1 - from) io s from f

unfoldable pub write_player_data_to_disk : Stdio → (ℕ → PlayerData) → WorldFile → WorldFile
write_player_data_to_disk io players f =
    if not io.opens
    then f
    else if not (io.seeks max_block_changes)
    then f
    else if not io.writes_players
    then record f { players = io.torn_players f.players players }
    else record f { players = players; overwritten = false }

unfoldable pub write_all_data_to_disk : Stdio → Memory → WorldFile → WorldFile
write_all_data_to_disk io m f =
    write_block_changes_to_disk io m.changes 0 m.changes.count
      (write_player_data_to_disk io m.players f)

-- The storage of a chest begins with entry `first`, and an entry is six bytes long.
unfoldable pub write_chest_changes_to_disk : Stdio → Changes → ℕ → ℕ → WorldFile → WorldFile
write_chest_changes_to_disk io s first slot f =
    let index : ℕ = 6 * first / 6 + slot / 2 in write_block_changes_to_disk io s index index f

-- The loop that finds the last occupied entry, at `i` with the count `c` so far. Each round moves
-- on by one at least.
unfoldable pub recover_count : ℕ → ℕ → (ℕ → BlockChange) → ℕ → ℕ → ℕ
recover_count zero chest entries i c = c
recover_count (suc n) chest entries i c =
    let b = (entries i).block in
    let last : ℕ = if b == chest then i + 14 else i in
    let next : ℕ = if b == gap then i + 1 else last + 1 in
    let c' : ℕ = if b == gap then c else if leb c last then last + 1 else c in
    let rest = recover_count n chest entries next c' in if leb max_block_changes i then c else rest

-- `initSerializer`: the file and the memory afterwards, or `none` where it returns 1. The player data
-- behind the entries is what the file is given with; where it was overwritten, it is `damaged`.
unfoldable pub init_serializer :
    Stdio
    → ℕ
    → (damaged : (ℕ → PlayerData) → ℕ → PlayerData) → Option WorldFile
    → Memory
    → Option (WorldFile × Memory)
init_serializer io chest damaged none m =
    if not (io.creates && (io.writes_entries && (io.seeks max_block_changes && io.writes_players)))
    then none
    else some (record { entries = m.changes.entries; players = m.players; overwritten = false }, m)
init_serializer io chest damaged (some f) m =
    let count = recover_count max_block_changes chest f.entries 0 m.changes.count in
    if not (io.reads_entries && (io.seeks max_block_changes && io.reads_players))
    then none
    else some (
      f,
      record {
        changes = record { entries = f.entries; count = count };
        players = if f.overwritten then damaged f.players else f.players;
      },
    )
