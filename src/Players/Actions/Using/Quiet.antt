-- ===== src/Players/Actions/Using/Quiet.antt =====
-- What using a container leaves alone: the world.
use macintosh_craft.Base.{
  ℕ, ◌≡◌, refl, ap, sym, ◌∙◌, none, some, inl, inr, Bool-cases, Option-cases, ◌==◌, ltb,
}
use macintosh_craft.Base.Int.{ℤ}
use macintosh_craft.Registry.{Block, Item}
use macintosh_craft.Items.{is_compost_item}
use macintosh_craft.Tools.{fast_rand}
use macintosh_craft.Terrain.{block}
use macintosh_craft.Players.Actions.{
  Rules, Play, registry, held_item, held_count, sync_hand, take_one,
}
use macintosh_craft.Players.Actions.Using.{
  use_composter, use_chest, open_chest, find_storage, use_container,
}
use macintosh_craft.Players.Actions.Near.{give-flow}

-- What does not concern the world.
taken-flow : (s : Play) → (sync_hand (take_one s)).flow ≡ s.flow
unfolding take_one sync_hand
taken-flow s = refl

some_eq : {s t : Play} → some s ≡ some t → s ≡ t
some_eq e = cc

use_composter-flow : (r : Rules) (s t : Play) → use_composter r s ≡ some t → t.flow ≡ s.flow
unfolding use_composter
use_composter-flow r s t e =
    let chance = is_compost_item (registry r) (held_item s.player) in
    let s1 = sync_hand (take_one s) in
    let random = fast_rand s1.seed in
    let s2 = record s1 { seed = random } in
    elim (Bool-cases (held_count s.player == 0)) [
      | inl u ↦ ap (λ (p : Play). p.flow) (sym (some_eq (rw u at e)))
      | inr u ↦ elim (Bool-cases (chance == 0)) [
        | inl v ↦ absurd (nothing (rw (u, v) at e))
        | inr v ↦ elim (Bool-cases (ltb random chance)) [
          | inl c ↦
              ap (λ (p : Play). p.flow) (sym (some_eq (rw (u, v, c) at e)))
              ∙ give-flow r ((registry r).item Item.bone_meal) 1 s2
              ∙ taken-flow s
          | inr c ↦ ap (λ (p : Play). p.flow) (sym (some_eq (rw (u, v, c) at e))) ∙ taken-flow s
        ]
      ]
    ]
  where
    nothing : {t : Play} → none ≡ some t → ⊥
    nothing k = cc

use_chest-flow : (r : Rules) (x y z : ℤ) (s : Play) → (use_chest r x y z s).flow ≡ s.flow
unfolding use_chest open_chest
use_chest-flow r x y z s =
    elim (Option-cases
      (find_storage s.flow.changes.count (block r.generator Block.chest) s.flow.changes x y z 0)) [
        | inl e ↦ rw (e, use_chest) refl
        | inr (first, e) ↦ rw (e, use_chest) refl
      ]

pub use_container-flow :
    (r : Rules) (target : ℕ) (x y z : ℤ) (s t : Play)
    → use_container r target x y z s ≡ some t
    → t.flow ≡ s.flow
unfolding use_container
use_container-flow r target x y z s t e =
    let flow_of = λ (p : Play). p.flow in
    elim (Bool-cases (target == block r.generator Block.crafting_table)) [
      | inl a ↦ ap flow_of (sym (some_eq (rw a at e)))
      | inr a ↦ elim (Bool-cases (target == block r.generator Block.furnace)) [
        | inl b ↦ ap flow_of (sym (some_eq (rw (a, b) at e)))
        | inr b ↦ elim (Bool-cases (target == block r.generator Block.composter)) [
          | inl c ↦ use_composter-flow r s t (rw (a, b, c) at e)
          | inr c ↦ elim (Bool-cases (target == block r.generator Block.chest)) [
            | inl d ↦ ap flow_of (sym (some_eq (rw (a, b, c, d) at e))) ∙ use_chest-flow r x y z s
            | inr d ↦ absurd (nothing (rw (a, b, c, d) at e))
          ]
        ]
      ]
    ]
  where
    nothing : {t : Play} → none ≡ some t → ⊥
    nothing k = cc
