-- ===== src/Structures.antt =====
-- `placeTreeStructure` of structures.c. Where it puts blocks does not depend on the world, so it is a
-- list of steps; each of them looks at the world as the steps before have left it.
pub mod Solid
use macintosh_craft.Base.{
  ℕ, zero, suc, ◌+◌, ◌-◌, ◌*◌, ◌/◌, ◌%◌, ◌^◌, ◌≤◌, ◌<◌, ◌≡◌, ◌≢◌, refl, sym, ap, ◌∙◌, Bool, true,
  false, not, ◌&&◌, ◌||◌, Option, none, some, List, [], ◌∷◌, ◌++◌, length, inl, inr, ◌⊎◌, ◌↔◌,
  arith, Bool-cases, Option-cases, ltb, leb, ◌==◌, if◌then◌else◌, ==→eq, ==_iff, ltb→lt, leb→le,
}
use macintosh_craft.Base.Int.{ℤ, pos, negsuc, ◌+ℤ◌, ◌-ℤ◌, eq_ℤ, to_i16, to_u8}
use macintosh_craft.Registry.{Block}
use macintosh_craft.Items.{is_replaceable_block}
use macintosh_craft.Tools.{fast_rand}
use macintosh_craft.Terrain.{Generator, block}
use macintosh_craft.World.Changes.{Changes, Place}
use macintosh_craft.World.Blocks.{
  Built, change_block, place_at, Viewer, Packet, get_block_at, make_block_change,
}

-- `always` is a `makeBlockChange`, otherwise it is a `setBlockIfReplaceable`.
pub record Step : Type 0 where
  pub place : Place
  pub block : ℕ
  pub always : Bool

unfoldable pub set_block_if_replaceable : Generator → List Viewer → Place → ℕ → Built → Built
set_block_if_replaceable g players p b w =
    let target = get_block_at g w.changes p.x (pos p.y) p.z in
    if not (is_replaceable_block g.registry target) && not (target == block g Block.oak_leaves)
    then w
    else change_block g players p b w

unfoldable pub run_steps : Generator → List Viewer → List Step → Built → Built
run_steps g players [] w = w
run_steps g players (st ∷ sts) w = run_steps g players sts (
    if st.always
    then change_block g players st.place st.block w
    else set_block_if_replaceable g players st.place st.block w)

-- `n` logs are left, from `i` above the base on.
unfoldable pub trunk_steps : Generator → ℤ → ℕ → ℤ → ℕ → ℕ → List Step
trunk_steps g x y z zero i = []
trunk_steps g x y z (suc n) i =
    record { place = place_at x (pos (y + i)) z; block = block g Block.oak_log; always = false }
    ∷ trunk_steps g x y z n (i + 1)

abbrev pub is_edge : ℕ → ℤ → Bool
is_edge n i = eq_ℤ i (pos n) || eq_ℤ i (pos 0 -ℤ pos n)

abbrev pub leaf_step : Generator → ℤ → ℤ → ℤ → Step
leaf_step g x y z = record {
  place = place_at x y z;
  block = block g Block.oak_leaves;
  always = false;
}

-- Two levels of leaves, `low` and the one above, over the given offsets. A random bit leaves out the
-- upper leaf of a corner; `t` counts the corners.
unfoldable pub leaf_steps : Generator → ℕ → ℤ → ℤ → ℤ → ℕ → List (ℤ × ℤ) → ℕ → List Step × ℕ
leaf_steps g r x low z n [] t = ([], t)
leaf_steps g r x low z n ((i, j) ∷ offsets) t =
    let corner = is_edge n i && is_edge n j in
    let t' : ℕ = if corner then t + 1 else t in
    let skip = corner && (r / 2 ^ t' % 2 == 1) in
    let (rest, u) = leaf_steps g r x low z n offsets t' in
    (
      leaf_step g (x +ℤ i) low (z +ℤ j)
          ∷ (if skip then rest else leaf_step g (x +ℤ i) (low +ℤ pos 1) (z +ℤ j) ∷ rest),
      u,
    )

-- For each `i` all `j`.
unfoldable pub row : ℤ → List ℤ → List (ℤ × ℤ)
row i [] = []
row i (j ∷ js) = (i, j) ∷ row i js

unfoldable pub square : List ℤ → List ℤ → List (ℤ × ℤ)
square [] js = []
square (i ∷ is') js = row i js ++ square is' js

abbrev pub within_one : List ℤ
within_one = negsuc 0 ∷ pos 0 ∷ pos 1 ∷ []

abbrev pub within_two : List ℤ
within_two = negsuc 1 ∷ negsuc 0 ∷ pos 0 ∷ pos 1 ∷ pos 2 ∷ []

-- All steps but the first two.
unfoldable pub crown_steps : Generator → ℕ → ℤ → ℕ → ℤ → List Step
crown_steps g r x y z =
    let height : ℕ = 4 + r % 3 in
    let (bottom, t) =
      leaf_steps g r x (pos (y + height) -ℤ pos 3) z 2 (square within_two within_two) 2 in
    let (top, _) =
      leaf_steps g r x (pos (y + height) -ℤ pos 1) z 1 (square within_one within_one) t in
    trunk_steps g x y z (height - 1) 1 ++ (bottom ++ top)

unfoldable pub tree_steps : Generator → ℕ → ℤ → ℕ → ℤ → List Step
tree_steps g r x y z =
    record { place = place_at x (pos y -ℤ pos 1) z; block = block g Block.dirt; always = true }
    ∷ record { place = place_at x (pos y) z; block = block g Block.oak_log; always = true }
    ∷ crown_steps g r x y z

-- The world afterwards, and the state of the random numbers.
unfoldable pub place_tree_structure : Generator → List Viewer → ℕ → ℤ → ℕ → ℤ → Changes → Built × ℕ
place_tree_structure g players seed x y z s =
    let r = fast_rand seed in
    (run_steps g players (tree_steps g r x y z) (record { changes = s; sent = [] }), r)
