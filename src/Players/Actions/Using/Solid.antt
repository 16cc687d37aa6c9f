-- ===== src/Players/Actions/Using/Solid.antt =====
-- What using an item leaves alone.
use macintosh_craft.Base.{
  and_left, and_right, ℕ, ◌%◌, ◌≡◌, ◌≢◌, refl, true, false, not, ◌&&◌, [], ◌∷◌, inl, inr, arith,
  Bool-cases, Option-cases, ◌==◌, if◌then◌else◌,
}
use macintosh_craft.Base.Int.{ℤ, pos, ◌-ℤ◌, ◌≤ℤ◌, IsShort, to_u8}
use macintosh_craft.Registry.{Block, Item}
use macintosh_craft.Items.{is_replaceable_block, is_block}
use macintosh_craft.Items.Armor.{get_item_defense_points}
use macintosh_craft.Tools.{fast_rand}
use macintosh_craft.Terrain.{block}
use macintosh_craft.World.Changes.{Place, gap}
use macintosh_craft.World.Changes.Plain.{IsPlain}
use macintosh_craft.World.Changes.Write.{same_place}
use macintosh_craft.World.Blocks.{place_at, make_block_change}
use macintosh_craft.World.Blocks.Kept.{IsPlantable}
use macintosh_craft.World.Fluids.{flow_change}
use macintosh_craft.World.Fluids.Levels.{HasFluids, IsBarrier}
use macintosh_craft.World.Fluids.Sides.{IsInner, inner-InWorld}
use macintosh_craft.Structures.Solid.{place_tree_structure-Reads}
use macintosh_craft.Players.Eating.{handle_player_eating}
use macintosh_craft.Players.Actions.{
  Rules, Play, block_at, registry, held_item, held_count, sync_hand, take_one, has_flag, set_flag,
}
use macintosh_craft.Players.Actions.Near.{
  IsNear, Stays, changed-Stays, replaceable-other, update_fluids-Stays,
}
use macintosh_craft.Players.Actions.Using.{
  use_container, swap_armor, grow_tree, use_bone_meal, behind_face, can_place, place_block,
  use_block, use_held, handle_player_use_item,
}
use macintosh_craft.Players.Actions.Using.Hand.{flagged_hand, meal_hand}
use macintosh_craft.Players.Actions.Using.Quiet.{use_container-flow}
use macintosh_craft.Players.Actions.Using.Faces.{behind_face-near, byte_level}

placed_way :
    (r : Rules) (m : ℕ) (x y z : ℤ) (s : Play)
    → can_place r m x y z s ≡ true
    → is_replaceable_block (registry r) (block_at r x y z s) ≡ true
unfolding can_place
placed_way r m x y z s t = and_left _ _ (and_right _ _ t)

near : (x y z : ℤ) → IsShort x → IsShort z → (pos 0 ≤ℤ y) × (y ≤ℤ pos 254) → IsNear x y z
near x y z sx sz h = omega arith

module _ (r : Rules) (q : Place) (inner : IsInner q)
    (chest_solid : block r.generator Block.chest ≢ gap) (h : HasFluids r.generator) (b : ℕ)
    (solid : IsBarrier r.generator b) where
  abbrev Keeps : Play → Type 0
  Keeps = Stays r q inner chest_solid h b solid

  place_block-Keeps :
      (m : ℕ) (x y z : ℤ) (s : Play)
      → IsPlantable r.generator m
      → IsShort x
      → IsShort z
      → (pos 0 ≤ℤ y) × (y ≤ℤ pos 254)
      → Keeps s
      → Keeps (place_block r m x y z s)
  unfolding place_block take_one sync_hand
  place_block-Keeps m x y z s plant sx sz high keeps =
      let e = make_block_change r.generator r.viewers s.flow.changes (place_at x y z) m in
      let changed = record s {
        flow = flow_change r.generator r.viewers (place_at x y z) m s.flow;
      } in
      let taken = take_one changed in
      elim (Bool-cases (can_place r m x y z s)) [
        | inr t ↦ rw t keeps
        | inl t ↦
            let way : is_replaceable_block (registry r) (block_at r x y z s) ≡ true =
              placed_way r m x y z s t in
            let other =
              replaceable-other r q inner chest_solid h b solid x y z s (near x y z sx sz high)
                keeps way in
            let now : Keeps changed =
              changed-Stays r q inner chest_solid h b solid x y z m s changed plant other refl
                keeps in
            elim (Bool-cases e.failed) [
              | inl u ↦ rw (t, u) now
              | inr u ↦
                  rw (t, u)
                    (update_fluids-Stays r q inner chest_solid h b solid x y z taken taken sx sz
                      high now now)
            ]
      ]

  use_block-Keeps :
      (x y z : ℤ) (face : ℕ) (s : Play)
      → IsPlantable r.generator (r.item_to_block (held_item s.player))
      → IsShort x
      → IsShort z
      → (pos 1 ≤ℤ y) × (y ≤ℤ pos 253)
      → Keeps s
      → Keeps (use_block r x y z face s)
  unfolding use_block
  use_block-Keeps x y z face s plant sx sz high keeps =
      let m = r.item_to_block (held_item s.player) in
      let (x', y', z') = behind_face face x y z in
      let (x_short, z_short, yl, yh) = behind_face-near face x y z sx sz high in
      elim (Bool-cases (face == 255)) [
        | inl t ↦ rw t keeps
        | inr t ↦ elim (Bool-cases (m == 0)) [
          | inl u ↦ rw (t, u) keeps
          | inr u ↦ rw (t, u) (place_block-Keeps m x' y' z' s plant x_short z_short (yl, yh) keeps)
        ]
      ]

  module _ (leafless : (b == block r.generator Block.oak_leaves) ≡ false)
      (dirt : IsPlantable r.generator (block r.generator Block.dirt))
      (logs : IsPlantable r.generator (block r.generator Block.oak_log))
      (leaves : IsPlantable r.generator (block r.generator Block.oak_leaves))
      (nothing : IsPlantable r.generator (r.item_to_block 0)) (x y z : ℤ) (sx : IsShort x)
      (sz : IsShort z) (high : (pos 1 ≤ℤ y) × (y ≤ℤ pos 253))
      (base : same_place (place_at x y z) q ≡ false)
      (below : same_place (place_at x (y -ℤ pos 1) z) q ≡ false) where
    grow_tree-Keeps : (s : Play) → Keeps s → Keeps (grow_tree r x y z s)
    unfolding grow_tree
    grow_tree-Keeps s keeps =
        let level : pos (to_u8 y) ≡ y = byte_level y high in
        place_tree_structure-Reads r.generator r.viewers s.seed x (to_u8 y) z s.flow.changes q b
          (inner-InWorld q inner) chest_solid dirt logs leaves (solid.0, leafless) (rw level base)
          (rw level below) keeps

    use_bone_meal-Keeps : (target : ℕ) (s : Play) → Keeps s → Keeps (use_bone_meal r target x y z s)
    unfolding use_bone_meal take_one sync_hand
    use_bone_meal-Keeps target s keeps =
        let under = block_at r x (y -ℤ pos 1) z s in
        let s1 = sync_hand (take_one s) in
        let random = fast_rand s1.seed in
        elim (Bool-cases (not (target == block r.generator Block.oak_sapling))) [
          | inl t ↦ rw t keeps
          | inr t ↦
              elim (Bool-cases (
                not (
                  is_block (registry r) under
                    (Block.dirt ∷ Block.grass_block ∷ Block.snowy_grass_block ∷ Block.mud ∷ [])))) [
                      | inl u ↦ rw (t, u) keeps
                      | inr u ↦ elim (Bool-cases (random % 4 == 0)) [
                        | inl w ↦ rw (t, u, w) (grow_tree-Keeps (record s1 { seed = random }) keeps)
                        | inr w ↦ rw (t, u, w) keeps
                      ]
                    ]
        ]

    meal_plant :
        (target : ℕ) (s : Play)
        → IsPlantable r.generator (r.item_to_block (held_item s.player))
        → IsPlantable r.generator
            (r.item_to_block (held_item (use_bone_meal r target x y z s).player))
    meal_plant target s plant = elim (meal_hand r target x y z s) [
      | inl e ↦ rw e plant
      | inr e ↦ rw e nothing
    ]

    use_held-Keeps :
        (target face : ℕ) (s : Play)
        → IsPlantable r.generator (r.item_to_block (held_item s.player))
        → Keeps s
        → Keeps (use_held r target x y z face s)
    unfolding use_held swap_armor set_flag
    use_held-Keeps target face s plant keeps =
        let item = held_item s.player in
        let meal = handle_player_eating (registry r) s.player true in
        let eating = record s { player = set_flag 16 (record s.player { flagval_16 = 0 }) } in
        elim (Bool-cases (item == (registry r).item Item.bone_meal)) [
          | inl t ↦ rw t (
              use_block-Keeps x y z face (use_bone_meal r target x y z s)
                (meal_plant target s plant) sx sz high (use_bone_meal-Keeps target s keeps))
          | inr t ↦ elim (Bool-cases meal.eaten) [
            | inl u ↦
                rw (t, u)
                  (use_block-Keeps x y z face eating
                    (rw (flagged_hand 16 (record s.player { flagval_16 = 0 })) plant) sx sz high
                    keeps)
            | inr u ↦ elim (Bool-cases (not (get_item_defense_points (registry r) item == 0))) [
              | inr w ↦ rw (t, u, w) (use_block-Keeps x y z face s plant sx sz high keeps)
              | inl w ↦ elim (Bool-cases (not (face == 255))) [
                | inl k ↦ rw (t, u, w, k) keeps
                | inr k ↦ rw (t, u, w, k) keeps
              ]
            ]
          ]
        ]

    rest-Keeps :
        (target face : ℕ) (s : Play)
        → IsPlantable r.generator (r.item_to_block (held_item s.player))
        → Keeps s
        → Keeps (if held_count s.player == 0 then s else use_held r target x y z face s)
    rest-Keeps target face s plant keeps = elim (Bool-cases (held_count s.player == 0)) [
      | inl t ↦ rw t keeps
      | inr t ↦ rw t (use_held-Keeps target face s plant keeps)
    ]

    use_item-Keeps :
        (face : ℕ) (s : Play)
        → IsPlantable r.generator (r.item_to_block (held_item s.player))
        → Keeps s
        → Keeps (handle_player_use_item r x y z face s)
    unfolding handle_player_use_item
    use_item-Keeps face s plant keeps =
        let target : ℕ = if face == 255 then 0 else block_at r x y z s in
        let rest = rest-Keeps target face s plant keeps in
        elim (Bool-cases (not (has_flag 4 s.player) && not (face == 255))) [
          | inr t ↦ rw t rest
          | inl t ↦ elim (Option-cases (use_container r target x y z s)) [
            | inl e ↦ rw (t, e) rest
            | inr (u, e) ↦ rw (t, e) (rw (use_container-flow r target x y z s u e) keeps)
          ]
        ]

-- What the item is placed as, and an empty hand, and what a tree is made of, is neither a chest nor
-- 0xFF. That is so of every item but the chest.
pub record CanPlant (r : Rules) (item : ℕ) : Type 0 where
  pub dirt : IsPlantable r.generator (block r.generator Block.dirt)
  pub logs : IsPlantable r.generator (block r.generator Block.oak_log)
  pub leaves : IsPlantable r.generator (block r.generator Block.oak_leaves)
  pub held : IsPlantable r.generator (r.item_to_block item)
  pub nothing : IsPlantable r.generator (r.item_to_block 0)

-- Using an item that is not placed as a chest replaces no solid block: whatever else is held and
-- whatever is aimed at, for a target between the heights 1 and 253, in an array without chests, a place away from the border that is neither the target nor the one below it, and that `getBlockAt`
-- gives a block that is neither replaceable nor leaves nor one of the eight numbers from lava's on,
-- reads as that block afterwards.
pub handle_player_use_item-solid :
    (r : Rules) (x y z : ℤ) (face : ℕ) (s : Play) (q : Place) (b : ℕ)
    → IsShort x
    → IsShort z
    → (pos 1 ≤ℤ y) × (y ≤ℤ pos 253)
    → same_place (place_at x y z) q ≡ false
    → same_place (place_at x (y -ℤ pos 1) z) q ≡ false
    → IsInner q
    → HasFluids r.generator
    → CanPlant r (held_item s.player)
    → block r.generator Block.chest ≢ gap
    → IsPlain (block r.generator Block.chest) s.flow.changes
    → block_at r q.x (pos q.y) q.z s ≡ b
    → IsBarrier r.generator b
    → (b == block r.generator Block.oak_leaves) ≡ false
    → block_at r q.x (pos q.y) q.z (handle_player_use_item r x y z face s) ≡ b
handle_player_use_item-solid r x y z face s q b sx sz high base below inner h can chest_solid v at
      solid leafless =
    (use_item-Keeps r q inner chest_solid h b solid leafless can.dirt can.logs can.leaves
      can.nothing x y z sx sz high base below face s can.held (v, at)).1
