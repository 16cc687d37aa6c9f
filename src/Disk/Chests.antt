-- ===== src/Disk/Chests.antt =====
-- The contents of chests in the file.
use macintosh_craft.Base.{ℕ, ◌+◌, ◌*◌, ◌/◌, ◌<◌, ◌≡◌, ◌≢◌, refl, ◌∙◌, Bool, arith}
use macintosh_craft.World.Changes.{Changes, max_block_changes}
use macintosh_craft.Players.Actions.Using.{chest_slot}
use macintosh_craft.Disk.{
  WorldFile, Stdio, write_block_changes_to_disk, write_chest_changes_to_disk,
}
use macintosh_craft.Disk.Saved.{IsWorking, write_block_changes_to_disk-entries}

-- The three bytes of a slot stand in one entry.
slot_entry :
    (slot : ℕ)
    → ((3 * slot) / 6 ≡ slot / 2)
      × ((3 * slot + 1) / 6 ≡ slot / 2)
      × ((3 * slot + 2) / 6 ≡ slot / 2)
slot_entry slot = (omega arith, omega arith, omega arith)

whole_entries : (first : ℕ) → 6 * first / 6 ≡ first
whole_entries first = omega arith

-- While stdio works, writing the change of a slot of a chest that lies within the array makes the
-- slot read in the file as it is in memory, and leaves the entries that do not hold it.
pub write_chest_changes_to_disk-slot :
    (io : Stdio) (big : Bool) (s : Changes) (first slot j : ℕ) (f : WorldFile)
    → IsWorking io
    → first + slot / 2 < max_block_changes
    → j ≢ first + slot / 2
    → let g = write_chest_changes_to_disk io s first slot f in
      (chest_slot big (record s { entries = g.entries }) first slot ≡ chest_slot big s first slot)
      × (g.entries j ≡ f.entries j)
unfolding write_chest_changes_to_disk chest_slot
write_chest_changes_to_disk-slot io big s first slot j f w room other =
    let index : ℕ = first + slot / 2 in
    let (e0, e1, e2) = slot_entry slot in
    let g = write_block_changes_to_disk io s index index f in
    let written = write_block_changes_to_disk-entries io w s index index f in
    let same : g.entries index ≡ s.entries index =
      written index (omega arith) room ∙ ground arith in
    let kept : g.entries j ≡ f.entries j = written j (omega arith) room ∙ ground arith in
    rw (whole_entries first, e0, e1, e2, same) (refl, kept)
