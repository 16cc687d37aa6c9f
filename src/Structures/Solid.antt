-- ===== src/Structures/Solid.antt =====
-- What a tree of structures.c leaves alone.
use macintosh_craft.Base.{
  ℕ, zero, suc, ◌+◌, ◌≡◌, ◌≢◌, refl, Bool, true, false, not, ◌&&◌, List, [], ◌∷◌, ◌++◌, inl, inr,
  ◌⊎◌, Bool-cases, ◌==◌, if◌then◌else◌,
}
use macintosh_craft.Base.Int.{ℤ, pos, ◌-ℤ◌}
use macintosh_craft.Registry.{Block}
use macintosh_craft.Items.{is_replaceable_block}
use macintosh_craft.Tools.{fast_rand}
use macintosh_craft.Terrain.{Generator, block}
use macintosh_craft.World.Changes.{Changes, Place, gap}
use macintosh_craft.World.Changes.Write.{same_place}
use macintosh_craft.World.Blocks.{Viewer, get_block_at}
use macintosh_craft.World.Blocks.Reads.{InWorld}
use macintosh_craft.World.Blocks.Kept.{IsPlantable, same_place-equal, Reads, elsewhere}
use macintosh_craft.World.Blocks.{Built, change_block, place_at}
use macintosh_craft.Structures.{
  Step, set_block_if_replaceable, run_steps, trunk_steps, leaf_steps, leaf_step, crown_steps,
  tree_steps, place_tree_structure,
}

-- A block that a tree does not replace.
abbrev pub IsSolid : Generator → ℕ → Type 0
IsSolid g b =
    (is_replaceable_block g.registry b ≡ false) × ((b == block g Block.oak_leaves) ≡ false)

-- A step is guarded, or is for another place, and its block may be placed.
abbrev pub IsSafe : Generator → Place → Step → Type 0
IsSafe g q st = IsPlantable g st.block × ((st.always ≡ false) ⊎ (same_place st.place q ≡ false))

unfoldable pub AllSafe : Generator → Place → List Step → Type 0
AllSafe g q [] = Unit
AllSafe g q (st ∷ sts) = IsSafe g q st × AllSafe g q sts

append-AllSafe :
    (g : Generator) (q : Place) (us ws : List Step)
    → AllSafe g q us
    → AllSafe g q ws
    → AllSafe g q (us ++ ws)
unfolding AllSafe
append-AllSafe g q [] ws h k = k
append-AllSafe g q (u ∷ us) ws h k = (h.0, append-AllSafe g q us ws h.1 k)

module _ (g : Generator) (players : List Viewer) (q : Place) (inside : InWorld q)
    (chest_solid : block g Block.chest ≢ gap) (b : ℕ) (solid : IsSolid g b) where
  guarded :
      (p : Place) (n : ℕ) (w : Built)
      → IsPlantable g n
      → Reads g q b w.changes
      → Reads g q b (set_block_if_replaceable g players p n w).changes
  unfolding set_block_if_replaceable
  guarded p n w plant (v, r) = elim (Bool-cases (same_place p q)) [
    | inl same ↦ rw (same_place-equal p q same, r, solid.0, solid.1) (v, r)
    | inr other ↦
        let target = get_block_at g w.changes p.x (pos p.y) p.z in
        elim (Bool-cases (
          not (is_replaceable_block g.registry target)
          && not (target == block g Block.oak_leaves))) [
            | inl stop ↦ rw stop (v, r)
            | inr go ↦ rw go (elsewhere g players q inside chest_solid b p n w plant other (v, r))
          ]
  ]

  run_steps-Reads :
      (sts : List Step) (w : Built)
      → AllSafe g q sts
      → Reads g q b w.changes
      → Reads g q b (run_steps g players sts w).changes
  unfolding run_steps AllSafe
  run_steps-Reads [] w safe h = h
  run_steps-Reads (st ∷ sts) w ((plant, way), safe) h = elim (Bool-cases st.always) [
    | inr f ↦ rw f (
        run_steps-Reads sts (set_block_if_replaceable g players st.place st.block w) safe
          (guarded st.place st.block w plant h))
    | inl t ↦ elim way [
      | inl f ↦ absurd (cc (t, f))
      | inr other ↦ rw t (
          run_steps-Reads sts (change_block g players st.place st.block w) safe
            (elsewhere g players q inside chest_solid b st.place st.block w plant other h))
    ]
  ]

module _ (g : Generator) (q : Place) (logs : IsPlantable g (block g Block.oak_log))
    (leaves : IsPlantable g (block g Block.oak_leaves)) where
  trunk-AllSafe : (x : ℤ) (y : ℕ) (z : ℤ) (n i : ℕ) → AllSafe g q (trunk_steps g x y z n i)
  unfolding trunk_steps AllSafe
  trunk-AllSafe x y z zero i = tt
  trunk-AllSafe x y z (suc n) i = ((logs, inl refl), trunk-AllSafe x y z n (i + 1))

  one_leaf :
      (x low z : ℤ) (skip : Bool) (rest : List Step)
      → AllSafe g q rest
      → AllSafe g q (if skip then rest else leaf_step g x low z ∷ rest)
  unfolding AllSafe
  one_leaf x low z true rest h = h
  one_leaf x low z false rest h = ((leaves, inl refl), h)

  leaf-AllSafe :
      (r : ℕ) (x low z : ℤ) (n : ℕ) (offsets : List (ℤ × ℤ)) (t : ℕ)
      → AllSafe g q (leaf_steps g r x low z n offsets t).0
  unfolding leaf_steps AllSafe
  leaf-AllSafe r x low z n [] t = tt
  leaf-AllSafe r x low z n ((i, j) ∷ offsets) t =
      ((leaves, inl refl), one_leaf _ _ _ _ _ (leaf-AllSafe r x low z n offsets _))

  crown-AllSafe : (r : ℕ) (x : ℤ) (y : ℕ) (z : ℤ) → AllSafe g q (crown_steps g r x y z)
  unfolding crown_steps
  crown-AllSafe r x y z =
      append-AllSafe g q _ _ (trunk-AllSafe x y z _ 1)
        (append-AllSafe g q _ _ (leaf-AllSafe r x _ z 2 _ 2) (leaf-AllSafe r x _ z 1 _ _))

pub place_tree_structure-Reads :
    (g : Generator) (players : List Viewer) (seed : ℕ) (x : ℤ) (y : ℕ) (z : ℤ) (s : Changes)
    (q : Place) (b : ℕ)
    → InWorld q
    → block g Block.chest ≢ gap
    → IsPlantable g (block g Block.dirt)
    → IsPlantable g (block g Block.oak_log)
    → IsPlantable g (block g Block.oak_leaves)
    → IsSolid g b
    → same_place (place_at x (pos y) z) q ≡ false
    → same_place (place_at x (pos y -ℤ pos 1) z) q ≡ false
    → Reads g q b s
    → Reads g q b (place_tree_structure g players seed x y z s).0.changes
unfolding place_tree_structure tree_steps AllSafe
place_tree_structure-Reads g players seed x y z s q b inside chest_solid dirt logs leaves solid base
      below at =
    run_steps-Reads g players q inside chest_solid b solid (tree_steps g (fast_rand seed) x y z)
      (record { changes = s; sent = [] })
      ((dirt, inr below), ((logs, inr base), crown-AllSafe g q logs leaves (fast_rand seed) x y z))
      at
