-- ===== src/World/Fluids/Solid.antt =====
-- What a fluid leaves alone.
use macintosh_craft.Base.{not_both}
use macintosh_craft.Base.{
  ℕ, zero, suc, ◌+◌, ◌-◌, ◌%◌, ◌≡◌, ◌≢◌, sym, ◌∙◌, true, false, not, ◌&&◌, ◌||◌, none, some, List,
  [], inl, inr, arith, Bool-cases, Option-cases, leb, ltb, ◌==◌,
}
use macintosh_craft.Base.Int.{pos, ◌-ℤ◌}
use macintosh_craft.Registry.{Block}
use macintosh_craft.Items.{is_water, is_lava, is_replaceable_block, is_replaceable_fluid}
use macintosh_craft.Terrain.{Generator, block}
use macintosh_craft.World.Changes.{Changes, Place, gap}
use macintosh_craft.World.Changes.Plain.{IsPlain}
use macintosh_craft.World.Changes.Write.{same_place}
use macintosh_craft.World.Blocks.{Viewer, get_block_at, change_block}
use macintosh_craft.World.Blocks.Reads.{InWorld}
use macintosh_craft.World.Blocks.Kept.{IsPlantable, same_place-equal, Reads, elsewhere}
use macintosh_craft.World.Fluids.{
  Flow, Side, adjacent, beside, beneath, Handler, flow_change, fluid_of, check_with, dry_up,
  spread_to, fall, spread, fluid_step, is_connected, handle_fluid_movement, check_fluid_update,
}
use macintosh_craft.World.Fluids.Side.{east, west, south, north}
use macintosh_craft.World.Fluids.Levels.{
  HasFluids, IsFluid, IsBarrier, IsFluid-IsPlantable, next_level,
}
use macintosh_craft.World.Fluids.Sides.{
  IsInner, inner-InWorld, adjacent-beside, below-beneath, beside-InWorld, beneath-InWorld,
}

fluid_of-IsFluid :
    (g : Generator) (b fluid : ℕ)
    → fluid_of g b ≡ some fluid
    → IsFluid g fluid b × (is_replaceable_block g.registry b ≡ true)
unfolding fluid_of is_replaceable_block
fluid_of-IsFluid g b fluid e = elim (Bool-cases (is_water g.registry b)) [
  | inl t ↦
      let same : block g Block.water ≡ fluid = some_eq (rw t at e) in
      ((inl (sym same), ground arith, ground arith), ground arith)
  | inr t ↦ elim (Bool-cases (is_lava g.registry b)) [
    | inl u ↦
        let same : block g Block.lava ≡ fluid = some_eq (rw (t, u) at e) in
        ((inr (sym same), ground arith, ground arith), ground arith)
    | inr u ↦ absurd (nothing (rw (t, u) at e))
  ]
]
  where
    some_eq : {m n : ℕ} → some m ≡ some n → m ≡ n
    some_eq h = cc

    nothing : {m : ℕ} → none ≡ some m → ⊥
    nothing h = cc

-- A fluid flows into no barrier.
barrier_holds :
    (g : Generator) (fluid n level b : ℕ)
    → IsFluid g fluid n
    → IsBarrier g b
    → is_replaceable_fluid g.registry b level fluid ≡ false
unfolding is_replaceable_fluid is_replaceable_block
barrier_holds g fluid n level b f (no_way, no_lava) =
    elim (Bool-cases (leb fluid b && ltb (b - fluid) 8)) [
      | inr t ↦ rw t no_way
      | inl t ↦ elim f.0 [ inl e ↦ absurd (ground arith) | inr e ↦ absurd (ground arith) ]
    ]

module _ (g : Generator) (players : List Viewer) (q : Place) (inner : IsInner q)
    (chest_solid : block g Block.chest ≢ gap) (h : HasFluids g) (b : ℕ)
    (solid : IsBarrier g b) where
  -- A handler for fluids that keeps the block at `q`.
  abbrev Keeps : Handler → Type 0
  Keeps handle =
      (p : Place) (fluid n : ℕ) (w : Flow)
      → InWorld p
      → IsFluid g fluid n
      → same_place p q ≡ false
      → Reads g q b w.changes
      → Reads g q b (handle p fluid n w).changes

  change_elsewhere :
      (p : Place) (n : ℕ) (w : Flow)
      → IsPlantable g n
      → same_place p q ≡ false
      → Reads g q b w.changes
      → Reads g q b (flow_change g players p n w).changes
  unfolding flow_change change_block
  change_elsewhere p n w plant other r =
      elsewhere g players q (inner-InWorld q inner) chest_solid b p n
        (record { changes = w.changes; sent = [] }) plant other r

  module _ (handle : Handler) (keeps : Keeps handle) where
    check-Reads :
        (p : Place) (n : ℕ) (w : Flow)
        → InWorld p
        → (is_replaceable_block g.registry n ≡ true → same_place p q ≡ false)
        → Reads g q b w.changes
        → Reads g q b (check_with g handle p n w).changes
    unfolding check_with
    check-Reads p n w inside other r = elim (Option-cases (fluid_of g n)) [
      | inl e ↦ rw (e, check_with) r
      | inr (fluid, e) ↦
          let (f, way) = fluid_of-IsFluid g n fluid e in
          rw (e, check_with) (keeps p fluid n w inside f (other way) r)
    ]

    -- A block beside `p` that is replaceable does not stand at `q`.
    beside-other :
        (s : Changes) (p : Place) (d : Side)
        → InWorld p
        → Reads g q b s
        → is_replaceable_block g.registry (adjacent g s p d) ≡ true
        → same_place (beside p d) q ≡ false
    beside-other s p d inside r way = elim (Bool-cases (same_place (beside p d) q)) [
      | inr other ↦ other
      | inl same ↦
          let here = adjacent-beside g s p q d inside inner same ∙ r.1 in
          absurd (not_both (rw here at way) solid.0)
    ]

    dry_up-Reads :
        (p : Place) (w : Flow)
        → InWorld p
        → same_place p q ≡ false
        → Reads g q b w.changes
        → Reads g q b (dry_up g players handle (adjacent g w.changes p) p w).changes
    unfolding dry_up
    dry_up-Reads p w inside other r =
        let a = adjacent g w.changes p in
        let near : (d : Side) (u : Flow)
            → Reads g q b u.changes
            → Reads g q b (check_with g handle (beside p d) (a d) u).changes =
          λ d u k.
            check-Reads (beside p d) (a d) u (beside-InWorld p d)
              (beside-other w.changes p d inside r) k in
        near north _ (
          near south _
            (near west _ (near east _ (change_elsewhere p (block g Block.air) w h.air other r))))

    fall-Reads :
        (p : Place) (fluid n : ℕ) (w : Flow)
        → InWorld p
        → IsFluid g fluid n
        → is_replaceable_block g.registry (get_block_at g w.changes p.x (pos p.y -ℤ pos 1) p.z)
          ≡ true
        → Reads g q b w.changes
        → Reads g q b (fall g players handle p fluid w).changes
    unfolding fall
    fall-Reads p fluid n w inside f way r =
        let source : IsFluid g fluid fluid = (f.0, omega arith, omega arith) in
        let other : same_place (beneath p) q ≡ false =
          elim (Bool-cases (same_place (beneath p) q)) [
            | inr far ↦ far
            | inl same ↦ elim (below-beneath g w.changes p q inside same) [
              | inl e ↦ absurd (not_both (rw (e, r.1) at way) solid.0)
              | inr e ↦ absurd (not_both (rw e at way) h.bedrock)
            ]
          ] in
        keeps (beneath p) fluid fluid _ (beneath-InWorld p) source other (
          change_elsewhere (beneath p) fluid w (IsFluid-IsPlantable g fluid fluid h source) other r)

    spread_to-Reads :
        (s : Changes) (p : Place) (fluid n : ℕ) (d : Side) (w : Flow)
        → InWorld p
        → IsFluid g fluid n
        → ((n + 256 - fluid) % 256 == 7) ≡ false
        → Reads g q b s
        → Reads g q b w.changes
        → Reads g q b (spread_to g players handle (adjacent g s p) p fluid n d w).changes
    unfolding spread_to
    spread_to-Reads s p fluid n d w inside f more rs r =
        let level : ℕ = (n + 256 - fluid) % 256 in
        let next : IsFluid g fluid ((n + 1) % 256) = next_level g fluid n h f more in
        elim (Bool-cases (is_replaceable_fluid g.registry (adjacent g s p d) level fluid)) [
          | inr t ↦ rw t r
          | inl t ↦
              let other : same_place (beside p d) q ≡ false =
                elim (Bool-cases (same_place (beside p d) q)) [
                  | inr far ↦ far
                  | inl same ↦
                      let here = adjacent-beside g s p q d inside inner same ∙ rs.1 in
                      absurd (not_both (rw here at t) (barrier_holds g fluid n level b f solid))
                ] in
              rw t (
                keeps (beside p d) fluid ((n + 1) % 256) _ (beside-InWorld p d) next other (
                  change_elsewhere (beside p d) ((n + 1) % 256) w
                    (IsFluid-IsPlantable g fluid ((n + 1) % 256) h next) other r))
        ]

    fluid_step-Reads : Keeps (fluid_step g players handle)
    unfolding fluid_step spread
    fluid_step-Reads p fluid n w inside f other r =
        let level : ℕ = (n + 256 - fluid) % 256 in
        let a = adjacent g w.changes p in
        let below = get_block_at g w.changes p.x (pos p.y -ℤ pos 1) p.z in
        elim (Bool-cases (not (level == 0) && not (is_connected a n))) [
          | inl t ↦ rw t (dry_up-Reads p w inside other r)
          | inr t ↦ elim (Bool-cases (is_replaceable_block g.registry below)) [
            | inl u ↦ rw (t, u) (fall-Reads p fluid n w inside f u r)
            | inr u ↦
                elim (Bool-cases ((level == 3 && fluid == block g Block.lava) || level == 7)) [
                  | inl v ↦ rw (t, u, v) r
                  | inr v ↦
                      let more : (level == 7) ≡ false = ground arith in
                      let to : (d : Side) (u : Flow)
                          → Reads g q b u.changes
                          → Reads g q b (spread_to g players handle a p fluid n d u).changes =
                        λ d u k. spread_to-Reads w.changes p fluid n d u inside f more r k in
                      rw (t, u, v) (to north _ (to south _ (to west _ (to east _ r))))
                ]
          ]
        ]

  handle_fluid_movement-Keeps : (n : ℕ) → Keeps (handle_fluid_movement n g players)
  unfolding handle_fluid_movement
  handle_fluid_movement-Keeps zero p fluid b w inside f other r = r
  handle_fluid_movement-Keeps (suc n) p fluid b w inside f other r =
      fluid_step-Reads (handle_fluid_movement n g players) (handle_fluid_movement-Keeps n) p fluid b
        w inside f other r

  -- A fluid starts elsewhere, since a block that moves is replaceable.
  pub check_fluid_update-Reads :
      (n : ℕ) (p : Place) (m : ℕ) (w : Flow)
      → InWorld p
      → (is_replaceable_block g.registry m ≡ true → same_place p q ≡ false)
      → Reads g q b w.changes
      → Reads g q b (check_fluid_update n g players p m w).changes
  unfolding check_fluid_update
  check_fluid_update-Reads n =
      check-Reads (handle_fluid_movement n g players) (handle_fluid_movement-Keeps n)

-- However deep the calls go, the update of a fluid changes no barrier: in an array without chests, a
-- place away from the border that `getBlockAt` gives a block that is neither replaceable nor one of
-- the eight numbers from lava's on, reads as that block after `checkFluidUpdate` of any place with
-- the block that stands there. Air and fluids have numbers of their own, and bedrock stays.
pub check_fluid_update-solid :
    (g : Generator) (players : List Viewer) (n : ℕ) (p q : Place) (w : Flow) (b : ℕ)
    → InWorld p
    → IsInner q
    → HasFluids g
    → block g Block.chest ≢ gap
    → IsPlain (block g Block.chest) w.changes
    → get_block_at g w.changes q.x (pos q.y) q.z ≡ b
    → IsBarrier g b
    → let m = get_block_at g w.changes p.x (pos p.y) p.z in
      get_block_at g (check_fluid_update n g players p m w).changes q.x (pos q.y) q.z ≡ b
check_fluid_update-solid g players n p q w b inside inner h chest_solid v at solid =
    let m = get_block_at g w.changes p.x (pos p.y) p.z in
    (check_fluid_update-Reads g players q inner chest_solid h b solid n p m w inside
      (λ way. elim (Bool-cases (same_place p q)) [
        | inr far ↦ far
        | inl same ↦
            let e = same_place-equal p q same in absurd (not_both (rw (e, at) at way) solid.0)
      ])
      (v, at)).1
