-- ===== src/World/Blocks/Kept.antt =====
-- What a change of `makeBlockChange` leaves as it was: the order of the array, and other places.
use macintosh_craft.Base.{ℕ, ◌≡◌, ◌≢◌, refl, ◌∙◌, true, false, List, inl, inr, arith}
use macintosh_craft.Base.Int.{pos, eq_ℤ_iff}
use macintosh_craft.Registry.{Block}
use macintosh_craft.Terrain.{Generator, block}
use macintosh_craft.World.Changes.{Changes, Place, gap, store_change}
use macintosh_craft.World.Changes.Plain.{IsPlain}
use macintosh_craft.World.Changes.Write.{same_place}
use macintosh_craft.World.Changes.MapLaw.{store_change-IsPlain, store_change-refused}
use macintosh_craft.World.Blocks.{Viewer, get_block_at, make_block_change, finish, is_base_block}
use macintosh_craft.World.Blocks.Reads.{InWorld, Outcome-cases, make_block_change-get_block_at}
use macintosh_craft.World.Blocks.{Built, change_block}

-- A block that is neither a chest nor 0xFF.
abbrev pub IsPlantable : Generator → ℕ → Type 0
IsPlantable g b = (b ≢ block g Block.chest) × (b ≢ gap)

pub same_place-equal : (p q : Place) → same_place p q ≡ true → p ≡ q
same_place-equal p q h =
    let x = (eq_ℤ_iff p.x q.x).0 (ground arith) in
    let y : p.y ≡ q.y = ground arith in
    let z = (eq_ℤ_iff p.z q.z).0 (ground arith) in rw (x, y, z) refl

pub changed-IsPlain :
    (g : Generator) (players : List Viewer) (s : Changes) (p : Place) (b : ℕ)
    → block g Block.chest ≢ gap
    → IsPlain (block g Block.chest) s
    → IsPlantable g b
    → IsPlain (block g Block.chest) (make_block_change g players s p b).changes
unfolding make_block_change finish
changed-IsPlain g players s p b chest_solid v plant =
    let chest = block g Block.chest in
    elim (Outcome-cases (store_change chest (is_base_block g p b) s p b)) [
      | inl (t, h) ↦
          rw (h, make_block_change)
            (store_change-IsPlain chest (is_base_block g p b) s t p b v plant.0 chest_solid h)
      | inr (t, h) ↦
          let (_, _, same) =
            store_change-refused chest (is_base_block g p b) s t p b v plant.0 chest_solid h in
          rw (h, make_block_change, same) v
    ]

-- The array is in order, and the place reads as the block `b`.
abbrev pub Reads : Generator → Place → ℕ → Changes → Type 0
Reads g q b s = IsPlain (block g Block.chest) s × (get_block_at g s q.x (pos q.y) q.z ≡ b)

pub elsewhere :
    (g : Generator) (players : List Viewer) (q : Place)
    → InWorld q
    → block g Block.chest ≢ gap
    → (b : ℕ) (p : Place) (n : ℕ) (w : Built) → IsPlantable g n
    → same_place p q ≡ false
    → Reads g q b w.changes
    → Reads g q b (change_block g players p n w).changes
unfolding change_block
elsewhere g players q inside chest_solid b p n w plant other (v, r) = (
  changed-IsPlain g players w.changes p n chest_solid v plant,
  elim (make_block_change-get_block_at g players w.changes p q n v inside plant.0 plant.1
      chest_solid) [ inl (_, read) ↦ rw other at read ∙ r | inr (_, same, _) ↦ rw same r ],
)
