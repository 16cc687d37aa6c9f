-- ===== src/World/Fluids/Refused.antt =====
-- A change that was refused stays noted through the calls of `handleFluidMovement`.
use macintosh_craft.Base.{
  ℕ, zero, suc, ◌+◌, ◌-◌, ◌%◌, ◌≡◌, refl, true, not, ◌&&◌, ◌||◌, List, inl, inr, Bool-cases,
  Option-cases, ◌==◌,
}
use macintosh_craft.Base.Int.{pos, ◌-ℤ◌}
use macintosh_craft.Registry.{Block}
use macintosh_craft.Items.{is_replaceable_block, is_replaceable_fluid}
use macintosh_craft.Terrain.{Generator, block}
use macintosh_craft.World.Changes.{Place}
use macintosh_craft.World.Blocks.{Viewer, get_block_at}
use macintosh_craft.World.Fluids.{
  Flow, Side, adjacent, beside, beneath, Handler, flow_change, fluid_of, check_with, dry_up,
  spread_to, fall, spread, fluid_step, is_connected, handle_fluid_movement,
}
use macintosh_craft.World.Fluids.Side.{east, west, south, north}

-- A refused change stays noted.
abbrev pub Notes : Handler → Type 0
Notes handle =
    (p : Place) (fluid b : ℕ) (w : Flow) → w.refused ≡ true → (handle p fluid b w).refused ≡ true

module _ (g : Generator) (players : List Viewer) where
  pub flow_change-refused :
      (p : Place) (b : ℕ) (w : Flow)
      → w.refused ≡ true
      → (flow_change g players p b w).refused ≡ true
  unfolding flow_change
  flow_change-refused p b w h = rw h refl

  module _ (handle : Handler) (notes : Notes handle) where
    check-refused :
        (p : Place) (b : ℕ) (w : Flow)
        → w.refused ≡ true
        → (check_with g handle p b w).refused ≡ true
    unfolding check_with
    check-refused p b w h = elim (Option-cases (fluid_of g b)) [
      | inl e ↦ rw (e, check_with) h
      | inr (fluid, e) ↦ rw (e, check_with) (notes p fluid b w h)
    ]

    pub spread_to-refused :
        (a : Side → ℕ) (p : Place) (fluid b : ℕ) (d : Side) (w : Flow)
        → w.refused ≡ true
        → (spread_to g players handle a p fluid b d w).refused ≡ true
    unfolding spread_to
    spread_to-refused a p fluid b d w h =
        elim (Bool-cases (is_replaceable_fluid g.registry (a d) ((b + 256 - fluid) % 256) fluid)) [
          | inl t ↦ rw t (notes _ fluid _ _ (flow_change-refused (beside p d) ((b + 1) % 256) w h))
          | inr t ↦ rw t h
        ]

    dry_up-refused :
        (a : Side → ℕ) (p : Place) (w : Flow)
        → w.refused ≡ true
        → (dry_up g players handle a p w).refused ≡ true
    unfolding dry_up
    dry_up-refused a p w h =
        let near : (d : Side) (u : Flow)
            → u.refused ≡ true
            → (check_with g handle (beside p d) (a d) u).refused ≡ true =
          λ d u k. check-refused (beside p d) (a d) u k in
        near north _
          (near south _ (near west _ (near east _ (flow_change-refused p (block g Block.air) w h))))

    pub fluid_step-Notes : Notes (fluid_step g players handle)
    unfolding fluid_step spread fall
    fluid_step-Notes p fluid b w h =
        let level : ℕ = (b + 256 - fluid) % 256 in
        let a = adjacent g w.changes p in
        let below = get_block_at g w.changes p.x (pos p.y -ℤ pos 1) p.z in
        let to : (d : Side) (u : Flow)
            → u.refused ≡ true
            → (spread_to g players handle a p fluid b d u).refused ≡ true =
          λ d u k. spread_to-refused a p fluid b d u k in
        elim (Bool-cases (not (level == 0) && not (is_connected a b))) [
          | inl t ↦ rw t (dry_up-refused a p w h)
          | inr t ↦ elim (Bool-cases (is_replaceable_block g.registry below)) [
            | inl u ↦ rw (t, u) (notes _ fluid fluid _ (flow_change-refused (beneath p) fluid w h))
            | inr u ↦
                elim (Bool-cases ((level == 3 && fluid == block g Block.lava) || level == 7)) [
                  | inl v ↦ rw (t, u, v) h
                  | inr v ↦ rw (t, u, v) (to north _ (to south _ (to west _ (to east _ h))))
                ]
          ]
        ]

  pub handle_fluid_movement-Notes : (n : ℕ) → Notes (handle_fluid_movement n g players)
  unfolding handle_fluid_movement
  handle_fluid_movement-Notes zero p fluid b w h = h
  handle_fluid_movement-Notes (suc n) p fluid b w h =
      fluid_step-Notes (handle_fluid_movement n g players) (handle_fluid_movement-Notes n) p fluid b
        w h
