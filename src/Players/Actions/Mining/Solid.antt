-- ===== src/Players/Actions/Mining/Solid.antt =====
-- What mining leaves alone, and that the loop over the blocks above ends.
use macintosh_craft.Base.{ℕ, ◌≡◌, ◌∙◌, inl, inr, arith, Bool-cases, ◌==◌}
use macintosh_craft.Base.Int.{ℤ}
use macintosh_craft.World.Blocks.{place_at}
use macintosh_craft.World.Fluids.{flow_change}
use macintosh_craft.Players.Actions.{Rules, Play}
use macintosh_craft.Players.Actions.Near.{give-flow}
use macintosh_craft.Players.Actions.Mining.{mine_result, break_one}

-- What does not concern the world.
mine_result-flow : (r : Rules) (held b : ℕ) (s : Play) → (mine_result r held b s).1.flow ≡ s.flow
unfolding mine_result
mine_result-flow r held b s = ground arith

pub break_one-flow :
    (r : Rules) (x y z : ℤ) (b : ℕ) (s : Play)
    → (break_one r x y z b s).flow ≡ flow_change r.generator r.viewers (place_at x y z) 0 s.flow
unfolding break_one
break_one-flow r x y z b s =
    let s1 = record s { flow = flow_change r.generator r.viewers (place_at x y z) 0 s.flow } in
    let (item, s2) = mine_result r 0 b s1 in
    let kept = mine_result-flow r 0 b s1 in
    elim (Bool-cases (item == 0)) [
      | inl t ↦ rw t kept
      | inr t ↦ rw t (give-flow r item 1 s2 ∙ kept)
    ]
