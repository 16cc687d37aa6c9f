-- ===== src/World/Fluids/Depth.antt =====
-- How deep the calls of `handleFluidMovement` go.
use macintosh_craft.Base.{
  ℕ, zero, suc, ◌+◌, ◌-◌, ◌*◌, ◌%◌, ◌≤◌, ◌<◌, ◌≡◌, ◌≢◌, refl, ◌∙◌, true, false, not, ◌&&◌, ◌||◌,
  List, inl, inr, ◌⊎◌, arith, Bool-cases, ◌==◌, if◌then◌else◌, not_both,
}
use macintosh_craft.Base.Int.{pos, ◌-ℤ◌}
use macintosh_craft.Registry.{Block}
use macintosh_craft.Items.{is_replaceable_block, is_replaceable_fluid}
use macintosh_craft.Terrain.{Generator, block}
use macintosh_craft.World.Changes.{Place, gap}
use macintosh_craft.World.Changes.Plain.{IsPlain}
use macintosh_craft.World.Changes.Write.{same_place}
use macintosh_craft.World.Blocks.{Viewer, get_block_at, make_block_change}
use macintosh_craft.World.Blocks.Reads.{InWorld, make_block_change-get_block_at}
use macintosh_craft.World.Blocks.Kept.{IsPlantable, same_place-equal, changed-IsPlain}
use macintosh_craft.World.Fluids.{
  Flow, Side, adjacent, beside, beneath, Handler, flow_change, spread_to, fall, spread, fluid_step,
  is_connected, handle_fluid_movement,
}
use macintosh_craft.World.Fluids.Side.{east, west, south, north}
use macintosh_craft.World.Fluids.Levels.{HasFluids, IsFluid, IsFluid-IsPlantable}
use macintosh_craft.World.Fluids.Sides.{beside-InWorld, beneath-InWorld}
use macintosh_craft.World.Fluids.Refused.{Notes, spread_to-refused, handle_fluid_movement-Notes}
use macintosh_craft.World.Fluids.Steps.{
  read, IsInside, IsInside-InWorld, opposite, beside_id, beside-IsInside, adjacent-opposite,
  beneath_id, adjacent-read, not_into_itself,
}

-- What a call on a fluid of level `l` at `p` keeps: everything higher, and at the same height the
-- same fluid up to its own level.
abbrev Kept : Generator → ℕ → Place → ℕ → Flow → Flow → Type 0
Kept g fluid p l w u =
    (q : Place)
    → InWorld q
    → (p.y < q.y) ⊎ (q.y ≡ p.y) × (fluid ≤ read g w q) × (read g w q ≤ fluid + l)
    → read g u q ≡ read g w q

-- The array is in order, and the bound was not met.
abbrev IsGoing : Generator → Flow → Type 0
IsGoing g w = IsPlain (block g Block.chest) w.changes × (w.deep ≡ false)

abbrev Passes : Generator → ℕ → Place → ℕ → Flow → Flow → Type 0
Passes g fluid p l w u = (u.refused ≡ true) ⊎ IsGoing g u × Kept g fluid p l w u

-- The fluid is a source, or beside a block that is one level lower.
abbrev pub IsFed : Generator → ℕ → Place → ℕ → Flow → Type 0
IsFed g fluid p l w = (l ≡ 0) ⊎ (d : Side) × (adjacent g w.changes p d + 1 ≡ fluid + l)

abbrev Settles : Generator → ℕ → ℕ → Handler → Type 0
Settles g fluid n handle =
    (p : Place) (l : ℕ) (w : Flow)
    → IsInside p n
    → l < 8
    → 8 * p.y + 8 ≤ n + l
    → IsGoing g w
    → read g w p ≡ fluid + l
    → IsFed g fluid p l w
    → Passes g fluid p l w (handle p fluid (fluid + l) w)

module _ (g : Generator) (players : List Viewer) (chest_solid : block g Block.chest ≢ gap) where
  flow_change-read :
      (p : Place) (b : ℕ) (w : Flow)
      → IsPlantable g b
      → IsGoing g w
      → let u = flow_change g players p b w in
        (u.refused ≡ true)
        ⊎ IsGoing g u
          × ((q : Place) → InWorld q → read g u q ≡ (if same_place p q then b else read g w q))
  unfolding flow_change
  flow_change-read p b w plant (v, going) =
      let e = make_block_change g players w.changes p b in
      elim (Bool-cases e.failed) [
        | inl bad ↦ inl (rw bad (ground arith))
        | inr fine ↦ inr (
          (changed-IsPlain g players w.changes p b chest_solid v plant, going),
          λ q inside.
              elim (make_block_change-get_block_at g players w.changes p q b v inside plant.0
                plant.1 chest_solid) [
                  | inl (_, shown) ↦ shown
                  | inr (bad, _, _) ↦ absurd (not_both bad fine)
                ],
        )
      ]

  module _ (h : HasFluids g) (fluid : ℕ)
      (which : (fluid ≡ block g Block.water) ⊎ (fluid ≡ block g Block.lava)) where
    at_level : (l : ℕ) → l < 8 → IsFluid g fluid (fluid + l)
    at_level l low = (which, omega arith, omega arith)

    level-plant : (l : ℕ) → l < 8 → IsPlantable g (fluid + l)
    level-plant l low = IsFluid-IsPlantable g fluid (fluid + l) h (at_level l low)

    -- A change of a place that is not to be kept.
    flow_change-Passes :
        (p c : Place) (l b : ℕ) (w0 w : Flow)
        → IsPlantable g b
        → IsGoing g w × Kept g fluid p l w0 w
        → ((p.y < c.y) ⊎ (c.y ≡ p.y) × (fluid ≤ read g w0 c) × (read g w0 c ≤ fluid + l) → ⊥)
        → let u = flow_change g players c b w in
          (u.refused ≡ true) ⊎ (IsGoing g u × Kept g fluid p l w0 u) × (InWorld c → read g u c ≡ b)
    flow_change-Passes p c l b w0 w plant (going, kept) free =
        elim (flow_change-read c b w plant going) [
          | inl bad ↦ inl bad
          | inr (going', shown) ↦ inr (
            (
              going',
              λ q inside cond. elim (Bool-cases (same_place c q)) [
                | inl same ↦ absurd (free (rw (same_place-equal c q same) cond))
                | inr other ↦ rw other at (shown q inside) ∙ kept q inside cond
              ],
            ),
            λ inside. rw (same_self c) at (shown c inside),
          )
        ]
      where
        same_self : (c : Place) → same_place c c ≡ true
        same_self c = ground arith

    fluid_byte : fluid + 8 ≤ 256
    fluid_byte = elim which [
      | inl e ↦ omega (arith, h.water_byte)
      | inr e ↦ omega (arith, h.lava_byte)
    ]

    next_byte : (l : ℕ) → l < 7 → (fluid + l + 1) % 256 ≡ fluid + (l + 1)
    next_byte l low = omega (arith, fluid_byte)

    -- Where a fluid flows to there was nothing to keep.
    free_side :
        (p : Place) (l n : ℕ) (d : Side) (w : Flow)
        → IsInside p (suc n)
        → l < 8
        → is_replaceable_fluid g.registry (adjacent g w.changes p d) l fluid ≡ true
        → (p.y < (beside p d).y)
          ⊎ ((beside p d).y ≡ p.y)
            × (fluid ≤ read g w (beside p d))
            × (read g w (beside p d) ≤ fluid + l)
        → ⊥
    free_side p l n d w inside low t (inl up) =
        let (_, _, y) = beside_id p d n inside in omega arith
    free_side p l n d w inside low t (inr (_, from, to)) =
        not_both (rw (adjacent-read g w p d n inside) at t)
          (not_into_itself g fluid l _ low from to)

    deeper-Passes :
        (p c : Place) (l : ℕ) (w0 w u : Flow)
        → c.y ≡ p.y
        → Kept g fluid p l w0 w
        → Passes g fluid c (l + 1) w u
        → Passes g fluid p l w0 u
    deeper-Passes p c l w0 w u y kept (inl bad) = inl bad
    deeper-Passes p c l w0 w u y kept (inr (going, kept')) = inr (
      going,
      λ q inside cond.
          let e = kept q inside cond in
          let cond' : (c.y < q.y)
              ⊎ (q.y ≡ c.y) × (fluid ≤ read g w q) × (read g w q ≤ fluid + (l + 1)) =
            elim cond [
              | inl up ↦ inl (omega arith)
              | inr (level, from, to) ↦ inr (omega arith, omega arith, omega arith)
            ] in
          kept' q inside cond' ∙ e,
    )

    lower-Passes :
        (p c : Place) (l : ℕ) (w0 w u : Flow)
        → c.y + 1 ≡ p.y
        → Kept g fluid p l w0 w
        → Passes g fluid c 0 w u
        → Passes g fluid p l w0 u
    lower-Passes p c l w0 w u y kept (inl bad) = inl bad
    lower-Passes p c l w0 w u y kept (inr (going, kept')) = inr (
      going,
      λ q inside cond.
          let up : c.y < q.y = elim cond [ inl k ↦ omega arith | inr (k, _, _) ↦ omega arith ] in
          kept' q inside (inl up) ∙ kept q inside cond,
    )

    fed_connected :
        (a : Side → ℕ) (l : ℕ)
        → (l ≡ 0) ⊎ (d : Side) × (a d + 1 ≡ fluid + l)
        → (not (l == 0) && not (is_connected a (fluid + l))) ≡ false
    fed_connected a l (inl e) = rw e refl
    fed_connected a l (inr (east, e)) = ground arith
    fed_connected a l (inr (west, e)) = ground arith
    fed_connected a l (inr (south, e)) = ground arith
    fed_connected a l (inr (north, e)) = ground arith

    module _ (n : ℕ) (handle : Handler) (notes : Notes handle)
        (settles : Settles g fluid n handle) where
      -- One side, after those before it.
      spread_to-Passes :
          (p : Place) (l : ℕ) (d : Side) (w0 w : Flow)
          → IsInside p (suc n)
          → l < 7
          → 8 * p.y + 8 ≤ suc n + l
          → read g w0 p ≡ fluid + l
          → Passes g fluid p l w0 w
          → Passes g fluid p l w0
              (spread_to g players handle (adjacent g w0.changes p) p fluid (fluid + l) d w)
      unfolding spread_to
      spread_to-Passes p l d w0 w inside low enough here (inl bad) = inl (
          spread_to-refused g players handle notes (adjacent g w0.changes p) p fluid (fluid + l) d w
            bad)
      spread_to-Passes p l d w0 w inside low enough here (inr (going, kept)) =
          let level : (fluid + l + 256 - fluid) % 256 ≡ l = omega arith in
          let next = next_byte l low in
          let c = beside p d in
          let a = adjacent g w0.changes p d in
          elim (Bool-cases (is_replaceable_fluid g.registry a l fluid)) [
            | inr t ↦ rw (level, t) (inr (going, kept))
            | inl t ↦
                rw (level, next, t)
                  (elim (flow_change-Passes p c l (fluid + (l + 1)) w0 w
                    (level-plant (l + 1) (omega arith)) (going, kept)
                    (free_side p l n d w0 inside (omega arith) t)) [
                      | inl bad ↦ inl (notes c fluid (fluid + (l + 1)) _ bad)
                      | inr ((going', kept'), shown) ↦
                          let (x, z, y) = beside_id p d n inside in
                          let u = flow_change g players c (fluid + (l + 1)) w in
                          let near = IsInside-InWorld p (suc n) inside in
                          let fed : adjacent g u.changes c (opposite d) + 1 ≡ fluid + (l + 1) =
                            omega (
                              arith,
                              adjacent-opposite g u p d n inside,
                              kept' p near (inr (refl, omega arith, omega arith)),
                            ) in
                          deeper-Passes p c l w0 u (handle c fluid (fluid + (l + 1)) u) y kept' (
                            settles c (l + 1) u (beside-IsInside p d n inside) (omega arith)
                              (omega arith) going' (shown (beside-InWorld p d))
                              (inr (opposite d, fed)))
                    ])
          ]

      fall-Passes :
          (p : Place) (l : ℕ) (w : Flow)
          → IsInside p (suc n)
          → l < 8
          → 8 * p.y + 8 ≤ suc n + l
          → is_replaceable_block g.registry (get_block_at g w.changes p.x (pos p.y -ℤ pos 1) p.z)
            ≡ true
          → IsGoing g w
          → Passes g fluid p l w (fall g players handle p fluid w)
      unfolding fall
      fall-Passes p l w inside low enough way going =
          let c = beneath p in
          let (x, z, y) = beneath_id g w p n h.bedrock inside way in
          let source : IsPlantable g fluid =
            IsFluid-IsPlantable g fluid fluid h (which, omega arith, omega arith) in
          let u = flow_change g players c fluid w in
          elim (flow_change-Passes p c l fluid w w source (going, λ q i k. refl)
            (λ cond. ground arith)) [
              | inl bad ↦ inl (notes c fluid fluid u bad)
              | inr ((going', kept'), shown) ↦
                  let now : read g u c ≡ fluid + 0 = omega (arith, shown (beneath-InWorld p)) in
                  let zero_level : fluid + 0 ≡ fluid = omega arith in
                  rw zero_level at (
                    lower-Passes p c l w u (handle c fluid (fluid + 0) u) y kept' (
                      settles c 0 u (rw (x, z) (ground arith)) (omega arith) (omega arith) going'
                        now (inl refl)))
            ]

      fluid_step-Settles : Settles g fluid (suc n) (fluid_step g players handle)
      unfolding fluid_step spread
      fluid_step-Settles p l w inside low enough going here fed =
          let level : (fluid + l + 256 - fluid) % 256 ≡ l = omega arith in
          let a = adjacent g w.changes p in
          let below = get_block_at g w.changes p.x (pos p.y -ℤ pos 1) p.z in
          let connected : (not (l == 0) && not (is_connected a (fluid + l))) ≡ false =
            fed_connected a l fed in
          elim (Bool-cases (is_replaceable_block g.registry below)) [
            | inl t ↦ rw (level, connected, t) (fall-Passes p l w inside low enough t going)
            | inr t ↦ elim (Bool-cases ((l == 3 && fluid == block g Block.lava) || l == 7)) [
              | inl u ↦ rw (level, connected, t, u) (inr (going, λ q i k. refl))
              | inr u ↦
                  let more : l < 7 = ground arith in
                  let to : (d : Side) (v : Flow)
                      → Passes g fluid p l w v
                      → Passes g fluid p l w
                          (spread_to g players handle a p fluid (fluid + l) d v) =
                    λ d v k. spread_to-Passes p l d w v inside more enough here k in
                  rw (level, connected, t, u)
                    (to north _ (to south _ (to west _ (to east _ (inr (going, λ q i k. refl))))))
            ]
          ]

    handle_fluid_movement-Settles : (n : ℕ) → Settles g fluid n (handle_fluid_movement n g players)
    unfolding handle_fluid_movement
    handle_fluid_movement-Settles zero p l w inside low enough going here fed = absurd (omega arith)
    handle_fluid_movement-Settles (suc n) p l w inside low enough going here fed =
        fluid_step-Settles n (handle_fluid_movement n g players)
          (handle_fluid_movement-Notes g players n) (handle_fluid_movement-Settles n) p l w inside
          low enough going here fed

-- The calls of `handleFluidMovement` inside one another go at most 8 deep for every height, less the
-- level, as long as no change is refused: in an array without chests, for water or lava of level `l`
-- that is a source or stands beside the level before, at a place that far from the border. Then
-- every higher place reads as before, and so does every place of the same height with the same fluid
-- up to level `l`.
pub handle_fluid_movement-depth :
    (g : Generator) (players : List Viewer) (n : ℕ) (p : Place) (fluid l : ℕ) (w : Flow)
    → (fluid ≡ block g Block.water) ⊎ (fluid ≡ block g Block.lava)
    → HasFluids g
    → block g Block.chest ≢ gap
    → IsInside p n
    → l < 8
    → 8 * p.y + 8 ≤ n + l
    → IsPlain (block g Block.chest) w.changes
    → w.deep ≡ false
    → read g w p ≡ fluid + l
    → IsFed g fluid p l w
    → let u = handle_fluid_movement n g players p fluid (fluid + l) w in
      (u.refused ≡ true)
      ⊎ (u.deep ≡ false)
        × ((q : Place)
            → InWorld q
            → (p.y < q.y) ⊎ (q.y ≡ p.y) × (fluid ≤ read g w q) × (read g w q ≤ fluid + l)
            → read g u q ≡ read g w q)
handle_fluid_movement-depth g players n p fluid l w which h chest_solid inside low enough v shallow
      here fed =
    elim (handle_fluid_movement-Settles g players chest_solid h fluid which n p l w inside low
      enough (v, shallow) here fed) [ inl bad ↦ inl bad | inr ((_, ends), kept) ↦ inr (ends, kept) ]
