-- ===== src/Disk/Saved.antt =====
-- What the writes leave in the file while stdio works.
use macintosh_craft.Base.{
  ℕ, zero, suc, ◌+◌, ◌-◌, ◌≤◌, ◌<◌, ◌≡◌, refl, sym, ◌∙◌, true, false, ◌&&◌, inl, inr, arith,
  Bool-cases, ltb, leb, if◌then◌else◌,
}
use macintosh_craft.Base.Array.{update}
use macintosh_craft.World.Changes.{BlockChange, Changes, max_block_changes}
use macintosh_craft.Players.{PlayerData}
use macintosh_craft.Disk.{
  WorldFile, Stdio, Memory, put_entry, write_entries, write_block_changes_to_disk,
  write_player_data_to_disk, write_all_data_to_disk,
}

-- No operation fails, and `fwrite` replaces the entry.
pub record IsWorking (io : Stdio) : Type 0 where
  pub opens : io.opens ≡ true
  pub seeks : (i : ℕ) → io.seeks i ≡ true
  pub creates : io.creates ≡ true
  pub writes_entries : io.writes_entries ≡ true
  pub reads_entries : io.reads_entries ≡ true
  pub reads_players : io.reads_players ≡ true
  pub writes_players : io.writes_players ≡ true
  pub write_entry : (i : ℕ) (old new : BlockChange) → io.write_entry i old new ≡ (new, true)

module _ (io : Stdio) (w : IsWorking io) (s : Changes) where
  -- The entries in the range are those of the array.
  pub write_entries-entries :
      (n i : ℕ) (f : WorldFile) (j : ℕ)
      → i + n ≤ max_block_changes
      → (write_entries n io s i f).entries j
        ≡ (if leb i j && ltb j (i + n) then s.entries j else f.entries j)
  unfolding write_entries put_entry
  write_entries-entries zero i f j h = ground arith
  write_entries-entries (suc n) i f j h =
      let room : ltb i max_block_changes ≡ true = ground arith in
      let f1 : WorldFile = record f { entries = update f.entries i (s.entries i) } in
      let rest = write_entries-entries n (i + 1) f1 j (omega arith) in
      rw (w.write_entry i (f.entries i) (s.entries i), w.seeks i, room, rest) (ground arith)

  pub write_entries-players :
      (n i : ℕ) (f : WorldFile)
      → i + n ≤ max_block_changes
      → ((write_entries n io s i f).players ≡ f.players)
        × ((write_entries n io s i f).overwritten ≡ f.overwritten)
  unfolding write_entries put_entry
  write_entries-players zero i f h = (refl, refl)
  write_entries-players (suc n) i f h =
      let room : ltb i max_block_changes ≡ true = ground arith in
      let f1 : WorldFile = record f { entries = update f.entries i (s.entries i) } in
      let rest = write_entries-players n (i + 1) f1 (omega arith) in
      rw (w.write_entry i (f.entries i) (s.entries i), w.seeks i, room) rest

  write_entries-over :
      (n i : ℕ) (f : WorldFile)
      → f.overwritten ≡ true
      → (write_entries n io s i f).overwritten ≡ true
  unfolding write_entries put_entry
  write_entries-over zero i f h = h
  write_entries-over (suc n) i f h =
      rw (w.write_entry i (f.entries i) (s.entries i), w.seeks i)
        (elim (Bool-cases (ltb i max_block_changes)) [
          | inl t ↦ rw t (
              write_entries-over n (i + 1) (record f { entries = update f.entries i (s.entries i) })
                h)
          | inr t ↦ rw t (write_entries-over n (i + 1) (record f { overwritten = true }) refl)
        ])

  pub write_entries-past :
      (n i : ℕ) (f : WorldFile)
      → i ≤ max_block_changes
      → max_block_changes < i + n
      → (write_entries n io s i f).overwritten ≡ true
  unfolding write_entries put_entry
  write_entries-past zero i f h k = absurd (omega arith)
  write_entries-past (suc n) i f h k =
      rw (w.write_entry i (f.entries i) (s.entries i), w.seeks i)
        (elim (Bool-cases (ltb i max_block_changes)) [
          | inl t ↦ rw t (
              write_entries-past n (i + 1) (record f { entries = update f.entries i (s.entries i) })
                (ground arith) (omega arith))
          | inr t ↦ rw t (write_entries-over n (i + 1) (record f { overwritten = true }) refl)
        ])

module _ (io : Stdio) (w : IsWorking io) where
  range_written :
      (s : Changes) (from to : ℕ) (f : WorldFile)
      → write_block_changes_to_disk io s from to f ≡ write_entries (to + 1 - from) io s from f
  unfolding write_block_changes_to_disk
  range_written s from to f = simp (w.opens) refl

  players_written :
      (players : ℕ → PlayerData) (f : WorldFile)
      → write_player_data_to_disk io players f ≡ record f { players = players; overwritten = false }
  unfolding write_player_data_to_disk
  players_written players f = simp (w.opens, w.seeks max_block_changes, w.writes_players) refl

  pub write_block_changes_to_disk-entries :
      (s : Changes) (from to : ℕ) (f : WorldFile) (j : ℕ)
      → from ≤ to
      → to < max_block_changes
      → (write_block_changes_to_disk io s from to f).entries j
        ≡ (if leb from j && leb j to then s.entries j else f.entries j)
  write_block_changes_to_disk-entries s from to f j h k =
      rw
        (
          range_written s from to f,
          write_entries-entries io w s (to + 1 - from) from f j (omega arith),
        )
        (ground arith)

  -- Everything is saved while the array is not full.
  pub write_all_data_to_disk-entries :
      (m : Memory) (f : WorldFile) (j : ℕ)
      → m.changes.count < max_block_changes
      → (write_all_data_to_disk io m f).entries j
        ≡ (if leb j m.changes.count then m.changes.entries j else f.entries j)
  unfolding write_all_data_to_disk
  write_all_data_to_disk-entries m f j h = rw (players_written m.players f) (
      write_block_changes_to_disk-entries m.changes 0 m.changes.count
        (record f { players = m.players; overwritten = false }) j (omega arith) h
      ∙ ground arith)

  pub write_all_data_to_disk-players :
      (m : Memory) (f : WorldFile)
      → m.changes.count < max_block_changes
      → ((write_all_data_to_disk io m f).players ≡ m.players)
        × ((write_all_data_to_disk io m f).overwritten ≡ false)
  unfolding write_all_data_to_disk
  write_all_data_to_disk-players m f h =
      let f1 : WorldFile = record f { players = m.players; overwritten = false } in
      rw (players_written m.players f, range_written m.changes 0 m.changes.count f1)
        (write_entries-players io w m.changes (m.changes.count + 1 - 0) 0 f1 (omega arith))

  overwritten_iff_full :
      (m : Memory) (f : WorldFile)
      → m.changes.count ≤ max_block_changes
      → (write_all_data_to_disk io m f).overwritten ≡ leb max_block_changes m.changes.count
  unfolding write_all_data_to_disk
  overwritten_iff_full m f h =
      let count = m.changes.count in
      let f1 : WorldFile = record f { players = m.players; overwritten = false } in
      elim (Bool-cases (leb max_block_changes count)) [
        | inl t ↦
            rw (players_written m.players f, range_written m.changes 0 count f1, t)
              (write_entries-past io w m.changes (count + 1 - 0) 0 f1 (omega arith) (ground arith))
        | inr t ↦ (write_all_data_to_disk-players m f (ground arith)).1 ∙ sym t
      ]

-- While stdio works and the array is within its bounds, saving everything damages the player data in
-- the file exactly when the array is full: the entry behind its last one is written then.
pub write_all_data_to_disk-overwritten :
    (io : Stdio) (m : Memory) (f : WorldFile)
    → IsWorking io
    → m.changes.count ≤ max_block_changes
    → (write_all_data_to_disk io m f).overwritten ≡ leb max_block_changes m.changes.count
write_all_data_to_disk-overwritten io m f w h = overwritten_iff_full io w m f h
