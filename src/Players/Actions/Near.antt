-- ===== src/Players/Actions/Near.antt =====
-- What a player's action reads near the target, and what the update of fluids there leaves alone.
use macintosh_craft.Base.{
  ℕ, ◌≡◌, ◌≢◌, refl, ap, sym, ◌∙◌, true, false, [], inl, inr, ◌⊎◌, arith, Bool-cases, not_both,
}
use macintosh_craft.Base.Int.{
  ℤ, pos, negsuc, ◌+ℤ◌, ◌-ℤ◌, ◌≤ℤ◌, ltb_ℤ, IsShort, to_u8, to_i16-IsShort, to_u8-lt,
}
use macintosh_craft.Registry.{Block}
use macintosh_craft.Items.{is_replaceable_block}
use macintosh_craft.Terrain.{Generator, block}
use macintosh_craft.World.Changes.{Changes, Place, gap}
use macintosh_craft.World.Changes.Write.{same_place}
use macintosh_craft.World.Blocks.{get_block_at, place_at, change_block}
use macintosh_craft.World.Blocks.Reads.{InWorld}
use macintosh_craft.World.Blocks.Kept.{IsPlantable, same_place-equal, Reads, elsewhere}
use macintosh_craft.World.Fluids.{check_fluid_update, flow_change}
use macintosh_craft.World.Fluids.Levels.{HasFluids, IsBarrier}
use macintosh_craft.World.Fluids.Sides.{IsInner, inner_short, inner-InWorld}
use macintosh_craft.World.Fluids.Solid.{check_fluid_update-Reads}
use macintosh_craft.Players.Actions.{
  give, Rules, Play, block_at, registry, check_fluid, update_fluids,
}

-- Coordinates at most one step out of the world.
abbrev pub IsNear : ℤ → ℤ → ℤ → Type 0
IsNear x y z =
    ((negsuc 32768 ≤ℤ x) × (x ≤ℤ pos 32768))
    × ((negsuc 32768 ≤ℤ z) × (z ≤ℤ pos 32768))
    × (negsuc 0 ≤ℤ y)
    × (y ≤ℤ pos 255)

pub place_at-InWorld : (x y z : ℤ) → InWorld (place_at x y z)
place_at-InWorld x y z = (to_i16-IsShort x, to_i16-IsShort z, to_u8-lt y)

byte_of : (n : ℕ) → pos n ≤ℤ pos 255 → to_u8 (pos n) ≡ n
unfolding to_u8
byte_of n h = omega arith

below_zero :
    (g : Generator) (s : Changes) (x z : ℤ) (n : ℕ)
    → get_block_at g s x (negsuc n) z ≡ block g Block.bedrock
unfolding get_block_at
below_zero g s x z n = let low : ltb_ℤ (negsuc n) (pos 0) ≡ true = ground arith in rw low refl

-- What is read there is what stands at the place that a change goes to, or bedrock.
pub read_near :
    (g : Generator) (s : Changes) (x y z : ℤ) (q : Place)
    → IsNear x y z
    → IsInner q
    → same_place (place_at x y z) q ≡ true
    → (get_block_at g s x y z ≡ get_block_at g s q.x (pos q.y) q.z)
      ⊎ (get_block_at g s x y z ≡ block g Block.bedrock)
read_near g s x (negsuc n) z q near inner same = inr (below_zero g s x z n)
read_near g s x (pos n) z q (nx, nz, _, up) (xl, xh, zl, zh, qy) same =
    let e = same_place-equal (place_at x (pos n) z) q same in
    let ex = inner_short x q.x nx (xl, xh) (ap (λ (t : Place). t.x) e) in
    let ez = inner_short z q.z nz (zl, zh) (ap (λ (t : Place). t.z) e) in
    let ey : n ≡ q.y = sym (byte_of n up) ∙ ap (λ (t : Place). t.y) e in inl (rw (ex, ey, ez) refl)

up-IsNear :
    (x y z : ℤ) → IsShort x → IsShort z → (pos 0 ≤ℤ y) × (y ≤ℤ pos 254) → IsNear x (y +ℤ pos 1) z
unfolding ◌+ℤ◌ ◌-ℤ◌
up-IsNear x y z sx sz h = ground arith

west-IsNear :
    (x y z : ℤ) → IsShort x → IsShort z → (pos 0 ≤ℤ y) × (y ≤ℤ pos 254) → IsNear (x -ℤ pos 1) y z
unfolding ◌+ℤ◌ ◌-ℤ◌
west-IsNear x y z sx sz h = ground arith

east-IsNear :
    (x y z : ℤ) → IsShort x → IsShort z → (pos 0 ≤ℤ y) × (y ≤ℤ pos 254) → IsNear (x +ℤ pos 1) y z
unfolding ◌+ℤ◌ ◌-ℤ◌
east-IsNear x y z sx sz h = ground arith

north-IsNear :
    (x y z : ℤ) → IsShort x → IsShort z → (pos 0 ≤ℤ y) × (y ≤ℤ pos 254) → IsNear x y (z -ℤ pos 1)
unfolding ◌+ℤ◌ ◌-ℤ◌
north-IsNear x y z sx sz h = ground arith

south-IsNear :
    (x y z : ℤ) → IsShort x → IsShort z → (pos 0 ≤ℤ y) × (y ≤ℤ pos 254) → IsNear x y (z +ℤ pos 1)
unfolding ◌+ℤ◌ ◌-ℤ◌
south-IsNear x y z sx sz h = ground arith

-- A gift does not concern the world.
pub give-flow : (r : Rules) (item count : ℕ) (s : Play) → (give r item count s).flow ≡ s.flow
unfolding give
give-flow r item count s = refl

module _ (r : Rules) (q : Place) (inner : IsInner q)
    (chest_solid : block r.generator Block.chest ≢ gap) (h : HasFluids r.generator) (b : ℕ)
    (solid : IsBarrier r.generator b) where
  abbrev pub Stays : Play → Type 0
  Stays s = Reads r.generator q b s.flow.changes

  -- A replaceable block is read elsewhere.
  pub replaceable-other :
      (x y z : ℤ) (s : Play)
      → IsNear x y z
      → Stays s
      → is_replaceable_block (registry r) (block_at r x y z s) ≡ true
      → same_place (place_at x y z) q ≡ false
  replaceable-other x y z s near stays way = elim (Bool-cases (same_place (place_at x y z) q)) [
    | inr far ↦ far
    | inl same ↦ elim (read_near r.generator s.flow.changes x y z q near inner same) [
      | inl e ↦ absurd (not_both (rw (e, stays.1) at way) solid.0)
      | inr e ↦ absurd (not_both (rw e at way) h.bedrock)
    ]
  ]

  check_fluid-Stays :
      (x y z : ℤ) (s t : Play)
      → IsNear x y z
      → Stays s
      → Stays t
      → Reads r.generator q b
          (check_fluid_update r.depth r.generator r.viewers
            (place_at x y z)
            (block_at r x y z s)
            t.flow).changes
  check_fluid-Stays x y z s t near old stays =
      check_fluid_update-Reads r.generator r.viewers q inner chest_solid h b solid r.depth
        (place_at x y z) (block_at r x y z s) t.flow (place_at-InWorld x y z)
        (replaceable-other x y z s near old) stays

  -- The update of fluids around a target between the heights 0 and 254.
  pub update_fluids-Stays :
      (x y z : ℤ) (s t : Play)
      → IsShort x
      → IsShort z
      → (pos 0 ≤ℤ y) × (y ≤ℤ pos 254)
      → Stays s
      → Stays t
      → Stays (update_fluids r x y z (block_at r x (y +ℤ pos 1) z s) t)
  unfolding update_fluids
  update_fluids-Stays x y z s t sx sz (low, high) old stays =
      let near = check_fluid-Stays in
      let t1 = check_fluid r x (y +ℤ pos 1) z (block_at r x (y +ℤ pos 1) z s) t in
      let k1 : Stays t1 = near x (y +ℤ pos 1) z s t (up-IsNear x y z sx sz (low, high)) old stays in
      let t2 = check_fluid r (x -ℤ pos 1) y z (block_at r (x -ℤ pos 1) y z t1) t1 in
      let k2 : Stays t2 = near (x -ℤ pos 1) y z t1 t1 (west-IsNear x y z sx sz (low, high)) k1 k1 in
      let t3 = check_fluid r (x +ℤ pos 1) y z (block_at r (x +ℤ pos 1) y z t2) t2 in
      let k3 : Stays t3 = near (x +ℤ pos 1) y z t2 t2 (east-IsNear x y z sx sz (low, high)) k2 k2 in
      let t4 = check_fluid r x y (z -ℤ pos 1) (block_at r x y (z -ℤ pos 1) t3) t3 in
      let k4 : Stays t4 =
        near x y (z -ℤ pos 1) t3 t3 (north-IsNear x y z sx sz (low, high)) k3 k3 in
      near x y (z +ℤ pos 1) t4 t4 (south-IsNear x y z sx sz (low, high)) k4 k4

  -- A change of another place.
  pub changed-Stays :
      (x y z : ℤ) (n : ℕ) (s t : Play)
      → IsPlantable r.generator n
      → same_place (place_at x y z) q ≡ false
      → t.flow ≡ flow_change r.generator r.viewers (place_at x y z) n s.flow
      → Stays s
      → Stays t
  unfolding flow_change change_block
  changed-Stays x y z n s t plant other e stays = rw e (
      elsewhere r.generator r.viewers q (inner-InWorld q inner) chest_solid b (place_at x y z) n
        (record { changes = s.flow.changes; sent = [] }) plant other stays)
