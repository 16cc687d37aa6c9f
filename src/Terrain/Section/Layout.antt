-- ===== src/Terrain/Section/Layout.antt =====
-- The index of a block in `chunk_section` of worldgen.c.
use macintosh_craft.Base.{ℕ, ◌+◌, ◌-◌, ◌*◌, ◌/◌, ◌%◌, ◌<◌, ◌≡◌, arith}
use macintosh_craft.Terrain.Section.{section_index}

-- The index lies in the section, and no two blocks share one.
pub section_index_injective :
    (dx dy dz ex ey ez : ℕ)
    → (dx < 16) × (dy < 16) × (dz < 16)
    → (ex < 16) × (ey < 16) × (ez < 16)
    → section_index dx dy dz ≡ section_index ex ey ez
    → (section_index dx dy dz < 4096) × (dx ≡ ex) × (dy ≡ ey) × (dz ≡ ez)
unfolding section_index
section_index_injective dx dy dz ex ey ez d e h =
    let same : dx + dz * 16 + dy * 256 ≡ ex + ez * 16 + ey * 256 = omega arith in
    (omega arith, omega arith, omega arith, omega arith)

-- What the terrain loop recovers from the index: the column, the level, and the minichunk.
pub index_parts :
    (dx dy dz : ℕ)
    → dx < 16
    → dz < 16
    → let k = section_index dx dy dz in
      let j = k / 8 * 8 in
      ((j % 16 + (7 - k % 8)) % 16 ≡ dx)
      × (j / 16 % 16 ≡ dz)
      × (j / 256 ≡ dy)
      × (j % 16 / 8 ≡ dx / 8)
unfolding section_index
index_parts dx dy dz hx hz =
    let a : ℕ = dx + dz * 16 + dy * 256 in
    let k : ℕ = a / 8 * 8 + (7 - a % 8) in
    let e : k / 8 * 8 ≡ a / 8 * 8 = omega arith in
    let f : 7 - k % 8 ≡ a % 8 = omega arith in
    rw (e, f) (omega arith, omega arith, omega arith, omega arith)
