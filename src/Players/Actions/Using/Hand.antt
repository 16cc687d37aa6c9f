-- ===== src/Players/Actions/Using/Hand.antt =====
-- The item that is in the hand when a block is placed.
use macintosh_craft.Base.{
  ℕ, ◌+◌, ◌%◌, ◌≡◌, refl, true, not, [], ◌∷◌, inl, inr, ◌⊎◌, Bool-cases, ◌==◌, ==_iff,
}
use macintosh_craft.Base.Int.{ℤ, pos, ◌-ℤ◌}
use macintosh_craft.Registry.{Block}
use macintosh_craft.Items.{is_block}
use macintosh_craft.Tools.{fast_rand}
use macintosh_craft.Terrain.{block}
use macintosh_craft.Players.{PlayerData}
use macintosh_craft.Players.Actions.{
  Rules, Play, block_at, registry, held_item, held_count, sync_hand, take_one, has_flag, set_flag,
}
use macintosh_craft.Players.Actions.Using.{grow_tree, use_bone_meal}

pub flagged_hand : (bit : ℕ) (p : PlayerData) → held_item (set_flag bit p) ≡ held_item p
unfolding set_flag
flagged_hand bit p = elim (Bool-cases (has_flag bit p)) [ inl t ↦ rw t refl | inr t ↦ rw t refl ]

-- The item in the hand stays, or the hand is empty.
taken_hand :
    (s : Play)
    → (held_item (take_one s).player ≡ held_item s.player) ⊎ (held_item (take_one s).player ≡ 0)
unfolding take_one
taken_hand s =
    let p = s.player in
    let here : (p.hotbar == p.hotbar) ≡ true = (==_iff p.hotbar p.hotbar).1 refl in
    elim (Bool-cases ((held_count p + 255) % 256 == 0)) [
      | inl t ↦ inr (rw (t, here) refl)
      | inr t ↦ inl (rw t refl)
    ]

pub meal_hand :
    (r : Rules) (target : ℕ) (x y z : ℤ) (s : Play)
    → let t = use_bone_meal r target x y z s in
      (held_item t.player ≡ held_item s.player) ⊎ (held_item t.player ≡ 0)
unfolding use_bone_meal sync_hand grow_tree
meal_hand r target x y z s =
    let under = block_at r x (y -ℤ pos 1) z s in
    let random = fast_rand (sync_hand (take_one s)).seed in
    let taken = taken_hand s in
    elim (Bool-cases (not (target == block r.generator Block.oak_sapling))) [
      | inl t ↦ rw t (inl refl)
      | inr t ↦
          elim (Bool-cases (
            not (
              is_block (registry r) under
                (Block.dirt ∷ Block.grass_block ∷ Block.snowy_grass_block ∷ Block.mud ∷ [])))) [
                  | inl u ↦ rw (t, u) taken
                  | inr u ↦ elim (Bool-cases (random % 4 == 0)) [
                    | inl w ↦ rw (t, u, w) taken
                    | inr w ↦ rw (t, u, w) taken
                  ]
                ]
    ]
