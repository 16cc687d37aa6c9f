-- ===== src/World/Section/Faithful.antt =====
-- `buildChunkSectionInternal` next to `getBlockAt` of worldgen.c.
use macintosh_craft.Base.{ℕ, ◌+◌, ◌≤◌, ◌<◌, ◌≡◌, ◌≢◌, sym, ◌∙◌, true, false, not, ◌⊎◌, inl, inr}
use macintosh_craft.Base.{arith, Bool-cases, ◌==◌, if◌then◌else◌}
use macintosh_craft.Base.Int.{ℤ, pos, ◌+ℤ◌, IsShort}
use macintosh_craft.Registry.{Block}
use macintosh_craft.Terrain.{Generator, block}
use macintosh_craft.Terrain.Feature.{anchor_of, get_terrain_at}
use macintosh_craft.Terrain.Section.{section_index, section_terrain}
use macintosh_craft.Terrain.Section.Agreement.{IsAligned, section_terrain-get_terrain_at}
use macintosh_craft.World.Blocks.{get_block_at}
use macintosh_craft.World.Blocks.Reads.{get_block_at-change}
use macintosh_craft.World.Changes.{Changes, Place, gap, is_at, get_block_change}
use macintosh_craft.World.Changes.Plain.{IsPlain, IsLive, Finds, found, absent, Finds-get}
use macintosh_craft.World.Section.{is_skipped, apply_changes, build_chunk_section_internal}
use macintosh_craft.World.Section.Overlay.{place_in, apply_none, apply_one}
use native.Mathlib.Decide.{ℕ_discrete}
use native.Mathlib.Nat.{add_comm}

module _ (g : Generator) (s : Changes) (cx cz : ℤ) (cy dx dy dz : ℕ) (hx : dx < 16) (hy : dy < 16)
    (hz : dz < 16) (v : IsPlain (block g Block.chest) s) where
  abbrev here : Place
  here = place_in g cx cz cy dx dy dz hx hy hz

  dead_skipped : (b : ℕ) → b ≡ gap → is_skipped g b ≡ true
  dead_skipped b e = ground arith

  not_shown :
      ((k : ℕ) → k < s.count → IsLive s k → is_at (s.entries k) here ≡ false)
      → (k : ℕ) → k < s.count
      → (is_at (s.entries k) here ≡ false) ⊎ (is_skipped g (s.entries k).block ≡ true)
  not_shown none_at k h = elim (ℕ_discrete (s.entries k).block gap) [
    | yes dead ↦ inr (dead_skipped _ dead)
    | no live ↦ inl (none_at k h live)
  ]

  other_entry :
      (j : ℕ)
      → j < s.count
      → IsLive s j
      → is_at (s.entries j) here ≡ true
      → (k : ℕ) → k < s.count
      → k ≢ j
      → (is_at (s.entries k) here ≡ false) ⊎ (is_skipped g (s.entries k).block ≡ true)
  other_entry j jc live at k kc ne = elim (ℕ_discrete (s.entries k).block gap) [
    | yes dead ↦ inr (dead_skipped _ dead)
    | no alive ↦ inl (elim (Bool-cases (is_at (s.entries k) here)) [
      | inl t ↦ absurd (ne (v.distinct k j here kc jc alive live t at))
      | inr f ↦ f
    ])
  ]

  kept :
      (j : ℕ)
      → j < s.count
      → IsLive s j
      → (s.entries j).block ≢ block g Block.torch
      → is_skipped g (s.entries j).block ≡ false
  kept j jc live ne = let plain = v.no_chest j jc in ground arith

  -- A change that is found, and is no torch, is what the loop leaves.
  pub shown_over :
      (f : ℕ → ℕ) (r : ℕ)
      → r ≢ block g Block.torch
      → r ≢ gap
      → Finds s here r
      → apply_changes g cx cy cz s s.count 0 f (section_index dx dy dz) ≡ r
  shown_over f r ne solid (found j jc live at e) =
      apply_one g cx cz cy dx dy dz hx hy hz s s.count 0 j f (omega arith) (omega arith) at
        (kept j jc live (λ t. ne (sym e ∙ t)))
        (λ k _ l q. other_entry j jc live at k (omega arith) q)
      ∙ e
  shown_over f r ne solid (absent _ e) = absurd (solid e)

  -- So the section shows it.
  pub shown_change :
      (r : ℕ)
      → r ≢ block g Block.torch
      → r ≢ gap
      → Finds s here r
      → (build_chunk_section_internal g s cx cy cz).blocks (section_index dx dy dz) ≡ r
  unfolding build_chunk_section_internal
  shown_change = shown_over (section_terrain g cx cy cz)

  -- With no change for the place, the loop leaves the block alone.
  pub shown_below :
      (f : ℕ → ℕ)
      → Finds s here gap
      → apply_changes g cx cy cz s s.count 0 f (section_index dx dy dz) ≡ f (section_index dx dy dz)
  shown_below f (found j jc live at e) = absurd (live e)
  shown_below f (absent none_at e) =
      apply_none g cx cz cy dx dy dz hx hy hz s s.count 0 f
        (λ k _ l. not_shown none_at k (omega arith))

  shown :
      (r : ℕ)
      → IsAligned cx
      → IsAligned cz
      → dy + cy ≤ 80
      → r ≢ block g Block.torch
      → Finds s here r
      → (build_chunk_section_internal g s cx cy cz).blocks (section_index dx dy dz) ≡ (
          if not (r == gap)
          then r
          else get_terrain_at g here.x (dy + cy) here.z (anchor_of g here.x here.z))
  shown r ax az low ne f = elim (ℕ_discrete r gap) [
    | no solid ↦ let e : (r == gap) ≡ false = ground arith in rw e (shown_change r ne solid f)
    | yes dead ↦
        let e : (r == gap) ≡ true = ground arith in
        rw e (
          unfold build_chunk_section_internal in
          shown_below (section_terrain g cx cy cz) (rw dead at f)
          ∙ section_terrain-get_terrain_at g cx cz cy dx dy dz ax az hx hz low)
  ]

-- Without chests, the section that is built for an aligned corner has, at the index where
-- the client looks for (dx, dy, dz), the block that `getBlockAt` gives for the world coordinates.
-- That is so up to level 80, within the range of `short`, and where the change is no torch.
pub section-get_block_at :
    (g : Generator) (s : Changes) (cx cz : ℤ) (cy dx dy dz : ℕ)
    → IsPlain (block g Block.chest) s
    → IsAligned cx
    → IsAligned cz
    → IsShort (cx +ℤ pos dx)
    → IsShort (cz +ℤ pos dz)
    → dx < 16
    → dy < 16
    → dz < 16
    → cy + dy ≤ 80
    → get_block_change
        (block g Block.chest)
        s
        (record { x = cx +ℤ pos dx; y = cy + dy; z = cz +ℤ pos dz })
      ≢ block g Block.torch
    → (build_chunk_section_internal g s cx cy cz).blocks (section_index dx dy dz)
      ≡ get_block_at g s (cx +ℤ pos dx) (pos (cy + dy)) (cz +ℤ pos dz)
section-get_block_at g s cx cz cy dx dy dz v ax az sx sz hx hy hz low ne =
    let p = place_in g cx cz cy dx dy dz hx hy hz in
    let f = Finds-get (block g Block.chest) s p v in
    shown g s cx cz cy dx dy dz hx hy hz v _ ax az (omega arith) ne f
    ∙ rw (add_comm dy cy) (sym (get_block_at-change g s p.x p.z (cy + dy) sx sz (omega arith)))
