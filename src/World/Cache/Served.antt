-- ===== src/World/Cache/Served.antt =====
-- The section that `buildChunkSection` of worldgen.c serves, next to `getBlockAt`.
use macintosh_craft.Base.{
  ℕ, ◌+◌, ◌≤◌, ◌<◌, ◌≡◌, ◌≢◌, refl, sym, ap, ◌∙◌, none, inl, inr, ◌⊎◌, arith, false, ◌==◌,
}
use mathlib.Core.Path.{subst}
use macintosh_craft.Base.Int.{ℤ, pos, ◌+ℤ◌, IsShort}
use macintosh_craft.Registry.{Block}
use macintosh_craft.Terrain.{Generator, block}
use macintosh_craft.Terrain.Feature.{anchor_of, get_terrain_at}
use macintosh_craft.Terrain.Section.{section_index}
use macintosh_craft.Terrain.Section.Agreement.{IsAligned}
use macintosh_craft.World.Blocks.{get_block_at}
use macintosh_craft.World.Blocks.Reads.{get_block_at-change}
use macintosh_craft.World.Changes.{Changes, Place, gap, get_block_change}
use macintosh_craft.World.Changes.Plain.{IsPlain, Finds, Finds-get}
use macintosh_craft.World.Section.Overlay.{place_in}
use macintosh_craft.World.Section.Faithful.{shown_over, shown_below, section-get_block_at}
use macintosh_craft.World.Cache.{Cache, key_of, find_cache_entry, build_chunk_section}
use macintosh_craft.World.Cache.Repeat.{build_chunk_section_cached}
use native.Mathlib.Decide.{ℕ_discrete}

-- What is read at a place by its change.
module _ (g : Generator) (s : Changes) (p : Place) (sx : IsShort p.x) (sz : IsShort p.z)
    (low : p.y < 256) where
  read_change :
      get_block_change (block g Block.chest) s p ≢ gap
      → get_block_at g s p.x (pos p.y) p.z ≡ get_block_change (block g Block.chest) s p
  read_change solid =
      let e : (get_block_change (block g Block.chest) s p == gap) ≡ false = ground arith in
      get_block_at-change g s p.x p.z p.y sx sz low ∙ rw e refl

  read_terrain :
      get_block_change (block g Block.chest) s p ≡ gap
      → get_block_at g s p.x (pos p.y) p.z ≡ get_terrain_at g p.x p.y p.z (anchor_of g p.x p.z)
  read_terrain dead = get_block_at-change g s p.x p.z p.y sx sz low ∙ rw dead refl

-- Without chests, a section that is not cached is served, for an aligned corner, with the block that
-- `getBlockAt` gives for the world coordinates at the index where the client looks for (dx, dy, dz).
-- The next time it comes from the cache, after whatever other changes, and the block is again the one
-- that `getBlockAt` gives then, unless the place was changed when the section was built and is the
-- terrain's since. That is so up to level 80, within the range of `short`, and where the change is no
-- torch.
pub build_chunk_section-get_block_at :
    (g : Generator) (s t : Changes) (c : Cache) (cx cz : ℤ) (cy dx dy dz : ℕ)
    → IsPlain (block g Block.chest) s
    → IsPlain (block g Block.chest) t
    → find_cache_entry c (key_of cx cy cz) ≡ none
    → IsAligned cx
    → IsAligned cz
    → IsShort (cx +ℤ pos dx)
    → IsShort (cz +ℤ pos dz)
    → dx < 16
    → dy < 16
    → dz < 16
    → cy + dy ≤ 80
    → let p : Place = record { x = cx +ℤ pos dx; y = cy + dy; z = cz +ℤ pos dz } in
      let change = λ (u : Changes). get_block_change (block g Block.chest) u p in
      change s ≢ block g Block.torch
      → change t ≢ block g Block.torch
      → (change s ≡ gap) ⊎ (change t ≢ gap)
      → let (first, c') = build_chunk_section g s c cx cy cz in
        let (second, _) = build_chunk_section g t c' cx cy cz in
        (first.blocks (section_index dx dy dz) ≡ get_block_at g s p.x (pos p.y) p.z)
        × (second.blocks (section_index dx dy dz) ≡ get_block_at g t p.x (pos p.y) p.z)
build_chunk_section-get_block_at g s t c cx cz cy dx dy dz v u absent ax az sx sz hx hy hz low
      s_torch t_torch fresh =
    let p = place_in g cx cz cy dx dy dz hx hy hz in
    let chest = block g Block.chest in
    let idx : ℕ = section_index dx dy dz in
    let (first, second) = build_chunk_section_cached g s t c cx cz cy absent in
    let f = (build_chunk_section g s c cx cy cz).0.blocks in
    let built : f idx ≡ get_block_at g s p.x (pos p.y) p.z =
      ap (λ x. x.blocks idx) first
      ∙ section-get_block_at g s cx cz cy dx dy dz v ax az sx sz hx hy hz low s_torch in
    let finds = Finds-get chest t p u in
    (
      built,
      ap (λ x. x.blocks idx) second ∙ elim (ℕ_discrete (get_block_change chest t p) gap) [
        | no solid ↦
            shown_over g t cx cz cy dx dy dz hx hy hz u f _ t_torch solid finds
            ∙ sym (read_change g t p sx sz (omega arith) solid)
        | yes dead ↦
            shown_below g t cx cz cy dx dy dz hx hy hz u f (subst (Finds t p) dead finds)
            ∙ built
            ∙ read_terrain g s p sx sz (omega arith) (unchanged fresh dead)
            ∙ sym (read_terrain g t p sx sz (omega arith) dead)
      ],
    )
  where
    unchanged : {a b : ℕ} → (a ≡ gap) ⊎ (b ≢ gap) → b ≡ gap → a ≡ gap
    unchanged (inl e) k = e
    unchanged (inr ne) k = absurd (ne k)
