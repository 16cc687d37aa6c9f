-- ===== src/World/Fluids.antt =====
-- `handleFluidMovement` and `checkFluidUpdate` of procedures.c.
pub mod Sides
pub mod Levels
pub mod Refused
pub mod Steps
pub mod Depth
pub mod Solid
use macintosh_craft.Base.{
  ℕ, zero, suc, ◌+◌, ◌-◌, ◌%◌, Bool, true, false, not, ◌&&◌, ◌||◌, Option, none, some, List, [],
  ◌∷◌, ◌++◌, leb, ltb, ◌==◌, if◌then◌else◌,
}
use macintosh_craft.Base.Int.{ℤ, pos, negsuc, ◌+ℤ◌, ◌-ℤ◌}
use macintosh_craft.Registry.{Block}
use macintosh_craft.Items.{is_water, is_lava, is_replaceable_block, is_replaceable_fluid}
use macintosh_craft.Terrain.{Generator, block}
use macintosh_craft.World.Changes.{Changes, Place}
use macintosh_craft.World.Blocks.{Viewer, Packet, get_block_at, make_block_change, place_at}

-- The changes and what was sent; whether a change was refused, which the code does not look at; and
-- whether the calls went deeper than the bound, where the model leaves them out.
pub record Flow : Type 0 where
  pub changes : Changes
  pub sent : List Packet
  pub refused : Bool
  pub deep : Bool

unfoldable pub flow_change : Generator → List Viewer → Place → ℕ → Flow → Flow
flow_change g players p b w =
    let e = make_block_change g players w.changes p b in
    record {
      changes = e.changes;
      sent = w.sent ++ e.sent;
      refused = w.refused || e.failed;
      deep = w.deep;
    }

-- The four sides, in the order of `adjacent`.
pub data Side : Type 0 where
  east west south north : Side

abbrev pub side_x : Side → ℤ
side_x east = pos 1
side_x west = negsuc 0
side_x _ = pos 0

abbrev pub side_z : Side → ℤ
side_z south = pos 1
side_z north = negsuc 0
side_z _ = pos 0

-- What `getBlockAt` reads beside a place, and the place that a call is given.
unfoldable pub adjacent : Generator → Changes → Place → Side → ℕ
adjacent g s p d = get_block_at g s (p.x +ℤ side_x d) (pos p.y) (p.z +ℤ side_z d)

unfoldable pub beside : Place → Side → Place
beside p d = place_at (p.x +ℤ side_x d) (pos p.y) (p.z +ℤ side_z d)

unfoldable pub beneath : Place → Place
beneath p = place_at p.x (pos p.y -ℤ pos 1) p.z

-- A call of `handleFluidMovement` on a fluid and a block.
abbrev pub Handler : Type 0
Handler = Place → ℕ → ℕ → Flow → Flow

unfoldable pub fluid_of : Generator → ℕ → Option ℕ
fluid_of g b =
    if is_water g.registry b
    then some (block g Block.water)
    else if is_lava g.registry b
    then some (block g Block.lava)
    else none

unfoldable pub check_with : Generator → Handler → Place → ℕ → Flow → Flow
check_with g handle p b w = elim (fluid_of g b) [ none ↦ w | some fluid ↦ handle p fluid b w ]

-- A fluid that has lost its connection: `a` are the adjacent blocks as they were before.
unfoldable pub dry_up : Generator → List Viewer → Handler → (Side → ℕ) → Place → Flow → Flow
dry_up g players handle a p w = check_with g handle (beside p north) (a north) (
    check_with g handle (beside p south) (a south) (
      check_with g handle (beside p west) (a west) (
        check_with g handle (beside p east) (a east)
          (flow_change g players p (block g Block.air) w))))

-- The flow to one side.
unfoldable pub spread_to :
    Generator → List Viewer → Handler → (Side → ℕ) → Place → ℕ → ℕ → Side → Flow → Flow
spread_to g players handle a p fluid b d w =
    let level : ℕ = (b + 256 - fluid) % 256 in
    let next : ℕ = (b + 1) % 256 in
    let flown = handle (beside p d) fluid next (flow_change g players (beside p d) next w) in
    if is_replaceable_fluid g.registry (a d) level fluid then flown else w

-- One block lower a fluid has level 0 again.
unfoldable pub fall : Generator → List Viewer → Handler → Place → ℕ → Flow → Flow
fall g players handle p fluid w =
    handle (beneath p) fluid fluid (flow_change g players (beneath p) fluid w)

unfoldable pub spread : Generator → List Viewer → Handler → (Side → ℕ) → Place → ℕ → ℕ → Flow → Flow
spread g players handle a p fluid b w = spread_to g players handle a p fluid b north (
    spread_to g players handle a p fluid b south
      (spread_to g players handle a p fluid b west (spread_to g players handle a p fluid b east w)))

abbrev pub is_connected : (Side → ℕ) → ℕ → Bool
is_connected a b = a east + 1 == b || (a west + 1 == b || (a south + 1 == b || a north + 1 == b))

-- The body, with the calls of itself as `handle`.
unfoldable pub fluid_step : Generator → List Viewer → Handler → Handler
fluid_step g players handle p fluid b w =
    let level : ℕ = (b + 256 - fluid) % 256 in
    let a = adjacent g w.changes p in
    let below = get_block_at g w.changes p.x (pos p.y -ℤ pos 1) p.z in
    if not (level == 0) && not (is_connected a b)
    then dry_up g players handle a p w
    else if is_replaceable_block g.registry below
    then fall g players handle p fluid w
    else if (level == 3 && fluid == block g Block.lava) || level == 7
    then w
    else spread g players handle a p fluid b w

-- Calls inside one another, to a depth.
unfoldable pub handle_fluid_movement : ℕ → Generator → List Viewer → Handler
handle_fluid_movement zero g players p fluid b w = record w { deep = true }
handle_fluid_movement (suc n) g players p fluid b w =
    fluid_step g players (handle_fluid_movement n g players) p fluid b w

unfoldable pub check_fluid_update : ℕ → Generator → List Viewer → Place → ℕ → Flow → Flow
check_fluid_update n g players = check_with g (handle_fluid_movement n g players)
