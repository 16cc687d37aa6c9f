-- ===== src/Players/Actions/Mining/Ends.antt =====
-- The loop over the blocks above one that was mined ends.
use macintosh_craft.Base.{
  ℕ, zero, suc, ◌+◌, ◌%◌, ◌≤◌, ◌<◌, ◌≡◌, ◌≢◌, refl, ◌∙◌, false, [], inl, inr, ◌⊎◌, arith,
  Bool-cases, ◌==◌, not_both,
}
use macintosh_craft.Base.Int.{ℤ, pos, ◌+ℤ◌, IsShort, to_u8, to_i16_id}
use macintosh_craft.Registry.{Block}
use macintosh_craft.Items.{is_column_block}
use macintosh_craft.Terrain.{block}
use macintosh_craft.World.Changes.{gap}
use macintosh_craft.World.Changes.Plain.{IsPlain}
use macintosh_craft.World.Changes.Write.{same_place}
use macintosh_craft.World.Blocks.{place_at, change_block}
use macintosh_craft.World.Blocks.Kept.{IsPlantable, Reads, elsewhere}
use macintosh_craft.World.Fluids.{flow_change}
use macintosh_craft.Players.Actions.{Rules, Play, block_at, registry}
use macintosh_craft.Players.Actions.Mining.{break_one, break_column}
use macintosh_craft.Players.Actions.Mining.Solid.{break_one-flow}

other_height : (y o : ℕ) → y < 256 → o < 256 → o ≢ 0 → (to_u8 (pos y +ℤ pos o) == y) ≡ false
unfolding to_u8 ◌+ℤ◌
other_height y o h k ne = ground arith

no_height : (y : ℕ) → pos y +ℤ pos 0 ≡ pos y
unfolding ◌+ℤ◌
no_height y = ground arith

next_round :
    (n o : ℕ)
    → o < 256
    → o ≢ 0
    → 257 ≤ suc n + o
    → (257 ≤ n + (o + 1) % 256) ⊎ ((o + 1) % 256 ≡ 0) × (0 < n)
next_round n o h ne k = grind arith

last_round : (n o : ℕ) → o ≢ 0 → (257 ≤ suc n + o) ⊎ (o ≡ 0) × (0 < suc n) → 257 ≤ suc n + o
last_round n o ne k = grind arith

-- What stands at the target stays when the block above it is broken, and the loop is as deep as it was.
break_one-target :
    (r : Rules) (x : ℤ) (y : ℕ) (z : ℤ) (offset above m : ℕ) (s : Play)
    → IsShort x
    → IsShort z
    → y < 256
    → offset < 256
    → offset ≢ 0
    → block r.generator Block.chest ≢ gap
    → IsPlantable r.generator 0
    → Reads r.generator (record { x = x; y = y; z = z }) m s.flow.changes
    → let t = break_one r x (pos y +ℤ pos offset) z above s in
      Reads r.generator (record { x = x; y = y; z = z }) m t.flow.changes
      × (t.flow.deep ≡ s.flow.deep)
unfolding flow_change change_block
break_one-target r x y z offset above m s sx sz hy ho far chest_solid air reads =
    let other : same_place (place_at x (pos y +ℤ pos offset) z) (record { x = x; y = y; z = z })
        ≡ false =
      rw (to_i16_id x sx, to_i16_id z sz, other_height y offset hy ho far) (ground arith) in
    rw (break_one-flow r x (pos y +ℤ pos offset) z above s) (
      elsewhere r.generator r.viewers (record { x = x; y = y; z = z }) (sx, sz, hy) chest_solid m
          (place_at x (pos y +ℤ pos offset) z) 0 (record { changes = s.flow.changes; sent = [] })
          air other reads,
      refl,
    )

-- The loop stops where its byte comes back to the place that was mined, if not before. In an array
-- without chests, with the place in the world and no block at it that needs one below, at most 256
-- rounds are begun, and the bound is not met.
pub break_column-ends :
    (r : Rules) (n : ℕ) (x : ℤ) (y : ℕ) (z : ℤ) (offset m : ℕ) (s : Play)
    → IsShort x
    → IsShort z
    → y < 256
    → offset < 256
    → block r.generator Block.chest ≢ gap
    → IsPlantable r.generator 0
    → IsPlain (block r.generator Block.chest) s.flow.changes
    → block_at r x (pos y) z s ≡ m
    → is_column_block (registry r) m ≡ false
    → 257 ≤ n + offset ⊎ (offset ≡ 0) × (0 < n)
    → (break_column n r x (pos y) z offset (block_at r x (pos y +ℤ pos offset) z s) s).flow.deep
      ≡ s.flow.deep
unfolding break_column
break_column-ends r zero x y z offset m s sx sz hy ho chest_solid air v at bare rounds =
    absurd (ground arith)
break_column-ends r (suc n) x y z offset m s sx sz hy ho chest_solid air v at bare rounds =
    let above = block_at r x (pos y +ℤ pos offset) z s in
    let t = break_one r x (pos y +ℤ pos offset) z above s in
    elim (Bool-cases (is_column_block (registry r) above)) [
      | inr e ↦ rw e refl
      | inl e ↦
          let far : offset ≢ 0 = λ k. not_both (rw (k, no_height y, at) at e) bare in
          let (now, deep) =
            break_one-target r x y z offset above m s sx sz hy ho far chest_solid air (v, at) in
          let more = next_round n offset ho far (last_round n offset far rounds) in
          rw e (
            break_column-ends r n x y z ((offset + 1) % 256) m t sx sz hy (omega arith) chest_solid
              air now.0 now.1 bare more
            ∙ deep)
    ]
