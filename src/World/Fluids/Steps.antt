-- ===== src/World/Fluids/Steps.antt =====
-- The steps of a fluid away from the border, and what is read there.
use macintosh_craft.Base.{ℕ, suc, ◌+◌, ◌≤◌, ◌<◌, ◌≡◌, refl, true, false, inl, inr, arith, not_both}
use macintosh_craft.Base.Int.{ℤ, pos, ◌+ℤ◌, ◌-ℤ◌, to_i16, to_u8, to_i16_id, pos_part, neg_part}
use macintosh_craft.Registry.{Block}
use macintosh_craft.Items.{is_replaceable_block, is_replaceable_fluid}
use macintosh_craft.Terrain.{Generator, block}
use macintosh_craft.World.Changes.{Place}
use macintosh_craft.World.Blocks.{get_block_at}
use macintosh_craft.World.Blocks.Reads.{InWorld}
use macintosh_craft.World.Fluids.{Flow, Side, side_x, side_z, adjacent, beside, beneath}
use macintosh_craft.World.Fluids.Side.{east, west, south, north}
use macintosh_craft.World.Fluids.Sides.{ground_floor, under, lower_byte}

-- What is read at a place.
abbrev pub read : Generator → Flow → Place → ℕ
read g w q = get_block_at g w.changes q.x (pos q.y) q.z

-- `n` steps to a side stay within the range of `short`.
abbrev pub IsInside : Place → ℕ → Type 0
IsInside p n =
    (pos_part p.x + n ≤ 32767)
    × (neg_part p.x + n ≤ 32767)
    × (pos_part p.z + n ≤ 32767)
    × (neg_part p.z + n ≤ 32767)
    × (p.y < 256)

pub IsInside-InWorld : (p : Place) (n : ℕ) → IsInside p n → InWorld p
IsInside-InWorld p n h = omega arith

abbrev pub opposite : Side → Side
opposite east = west
opposite west = east
opposite south = north
opposite north = south

-- A step to a side and back.
pub beside_id :
    (p : Place) (d : Side) (n : ℕ)
    → IsInside p (suc n)
    → ((beside p d).x ≡ p.x +ℤ side_x d)
      × ((beside p d).z ≡ p.z +ℤ side_z d)
      × ((beside p d).y ≡ p.y)
unfolding beside ◌+ℤ◌ to_i16 to_u8
beside_id p east n h = ground arith
beside_id p west n h = ground arith
beside_id p south n h = ground arith
beside_id p north n h = ground arith

pub beside-IsInside : (p : Place) (d : Side) (n : ℕ) → IsInside p (suc n) → IsInside (beside p d) n
unfolding ◌+ℤ◌
beside-IsInside p east n h = let (x, z, y) = beside_id p east n h in rw (x, z, y) (ground arith)
beside-IsInside p west n h = let (x, z, y) = beside_id p west n h in rw (x, z, y) (ground arith)
beside-IsInside p south n h = let (x, z, y) = beside_id p south n h in rw (x, z, y) (ground arith)
beside-IsInside p north n h = let (x, z, y) = beside_id p north n h in rw (x, z, y) (ground arith)

back_x : (a : ℤ) (d : Side) → a +ℤ side_x d +ℤ side_x (opposite d) ≡ a
unfolding ◌+ℤ◌
back_x a east = ground arith
back_x a west = ground arith
back_x a south = ground arith
back_x a north = ground arith

back_z : (a : ℤ) (d : Side) → a +ℤ side_z d +ℤ side_z (opposite d) ≡ a
unfolding ◌+ℤ◌
back_z a east = ground arith
back_z a west = ground arith
back_z a south = ground arith
back_z a north = ground arith

pub adjacent-opposite :
    (g : Generator) (w : Flow) (p : Place) (d : Side) (n : ℕ)
    → IsInside p (suc n)
    → adjacent g w.changes (beside p d) (opposite d) ≡ read g w p
unfolding adjacent
adjacent-opposite g w p d n h =
    let (x, z, y) = beside_id p d n h in rw (x, z, y, back_x p.x d, back_z p.z d) refl

-- Where a fluid falls, the place is one lower.
pub beneath_id :
    (g : Generator) (w : Flow) (p : Place) (n : ℕ)
    → is_replaceable_block g.registry (block g Block.bedrock) ≡ false
    → IsInside p (suc n)
    → is_replaceable_block g.registry (get_block_at g w.changes p.x (pos p.y -ℤ pos 1) p.z) ≡ true
    → ((beneath p).x ≡ p.x) × ((beneath p).z ≡ p.z) × ((beneath p).y + 1 ≡ p.y)
unfolding beneath
beneath_id g w p n bedrock inside way =
    let (short_x, short_z, _) = IsInside-InWorld p (suc n) inside in
    (
      to_i16_id p.x short_x,
      to_i16_id p.z short_z,
      elim (ground_floor p.y (omega arith)) [
        | inr floor ↦ absurd (not_both (rw (floor, under g w.changes p) at way) bedrock)
        | inl above ↦ lower_byte p.y (omega arith) above
      ],
    )

pub adjacent-read :
    (g : Generator) (w : Flow) (p : Place) (d : Side) (n : ℕ)
    → IsInside p (suc n)
    → adjacent g w.changes p d ≡ read g w (beside p d)
unfolding adjacent
adjacent-read g w p d n h = let (x, z, y) = beside_id p d n h in rw (x, z, y) refl

-- A fluid does not flow into itself at its own level or a lower one.
pub not_into_itself :
    (g : Generator) (fluid l b : ℕ)
    → l < 8
    → fluid ≤ b
    → b ≤ fluid + l
    → is_replaceable_fluid g.registry b l fluid ≡ false
unfolding is_replaceable_fluid
not_into_itself g fluid l b low h k = ground arith
