-- ===== src/World/Fluids/Sides.antt =====
-- The places beside and below a fluid, as they are read and as they are given to a call.
use macintosh_craft.Base.{◌+◌, ℕ, ◌<◌, ◌≡◌, refl, ap, sym, ◌∙◌, true, inl, inr, ◌⊎◌, arith}
use macintosh_craft.Base.Int.{
  ℤ, pos, negsuc, ◌+ℤ◌, ◌-ℤ◌, ◌<ℤ◌, ◌≤ℤ◌, IsShort, to_i16, to_u8, to_i16_id, to_i16-IsShort,
  to_u8-lt,
}
use macintosh_craft.Registry.{Block}
use macintosh_craft.Terrain.{Generator, block}
use macintosh_craft.World.Changes.{Changes, Place}
use macintosh_craft.World.Changes.Write.{same_place}
use macintosh_craft.World.Blocks.{get_block_at}
use macintosh_craft.World.Blocks.Reads.{InWorld}
use macintosh_craft.World.Blocks.Kept.{same_place-equal}
use macintosh_craft.World.Fluids.{Side, side_x, side_z, adjacent, beside, beneath}
use macintosh_craft.World.Fluids.Side.{east, west, south, north}

-- The place is not at the border of the range of `short`.
abbrev pub IsInner : Place → Type 0
IsInner q =
    (negsuc 32767 <ℤ q.x)
    × (q.x <ℤ pos 32767)
    × (negsuc 32767 <ℤ q.z)
    × (q.z <ℤ pos 32767)
    × (q.y < 256)

pub inner-InWorld : (q : Place) → IsInner q → InWorld q
inner-InWorld q h = omega arith

-- The conversion to `short` next to the border.
pub inner_short :
    (v t : ℤ)
    → (negsuc 32768 ≤ℤ v) × (v ≤ℤ pos 32768)
    → (negsuc 32767 <ℤ t) × (t <ℤ pos 32767)
    → to_i16 v ≡ t
    → v ≡ t
unfolding to_i16
inner_short v t (l, h) (l', h') e = ground arith

side_x_bounds :
    (a : ℤ) (d : Side) → IsShort a → (negsuc 32768 ≤ℤ a +ℤ side_x d) × (a +ℤ side_x d ≤ℤ pos 32768)
unfolding ◌+ℤ◌
side_x_bounds a east h = ground arith
side_x_bounds a west h = ground arith
side_x_bounds a south h = ground arith
side_x_bounds a north h = ground arith

side_z_bounds :
    (a : ℤ) (d : Side) → IsShort a → (negsuc 32768 ≤ℤ a +ℤ side_z d) × (a +ℤ side_z d ≤ℤ pos 32768)
unfolding ◌+ℤ◌
side_z_bounds a east h = ground arith
side_z_bounds a west h = ground arith
side_z_bounds a south h = ground arith
side_z_bounds a north h = ground arith

same_byte : (y : ℕ) → y < 256 → to_u8 (pos y) ≡ y
unfolding to_u8
same_byte y h = omega arith

-- Where a call goes beside a place is where the block was read.
pub adjacent-beside :
    (g : Generator) (s : Changes) (p q : Place) (d : Side)
    → InWorld p
    → IsInner q
    → same_place (beside p d) q ≡ true
    → adjacent g s p d ≡ get_block_at g s q.x (pos q.y) q.z
unfolding adjacent beside
adjacent-beside g s p q d (px, pz, py) (xl, xh, zl, zh, qy) same =
    let e = same_place-equal (beside p d) q same in
    let x =
      inner_short (p.x +ℤ side_x d) q.x (side_x_bounds p.x d px) (xl, xh)
        (ap (λ (t : Place). t.x) e) in
    let z =
      inner_short (p.z +ℤ side_z d) q.z (side_z_bounds p.z d pz) (zl, zh)
        (ap (λ (t : Place). t.z) e) in
    let y : p.y ≡ q.y = sym (same_byte p.y py) ∙ ap (λ (t : Place). t.y) e in rw (x, y, z) refl

pub under :
    (g : Generator) (s : Changes) (p : Place)
    → get_block_at g s p.x (negsuc 0) p.z ≡ block g Block.bedrock
unfolding get_block_at
under g s p = refl

-- One block lower: the byte is the height, unless that is below 0.
lower :
    (y : ℕ) → y < 256 → to_u8 (pos y -ℤ pos 1) < 255 → pos y -ℤ pos 1 ≡ pos (to_u8 (pos y -ℤ pos 1))
unfolding to_u8 ◌-ℤ◌
lower y h k = ground arith

pub lower_byte : (y : ℕ) → y < 256 → to_u8 (pos y -ℤ pos 1) < 255 → to_u8 (pos y -ℤ pos 1) + 1 ≡ y
unfolding to_u8 ◌-ℤ◌
lower_byte y h k = ground arith

pub ground_floor : (y : ℕ) → y < 256 → (to_u8 (pos y -ℤ pos 1) < 255) ⊎ (pos y -ℤ pos 1 ≡ negsuc 0)
unfolding to_u8 ◌-ℤ◌
ground_floor y h = ground arith

-- So it is one block lower, where below the world there is bedrock.
pub below-beneath :
    (g : Generator) (s : Changes) (p q : Place)
    → InWorld p
    → same_place (beneath p) q ≡ true
    → (get_block_at g s p.x (pos p.y -ℤ pos 1) p.z ≡ get_block_at g s q.x (pos q.y) q.z)
      ⊎ (get_block_at g s p.x (pos p.y -ℤ pos 1) p.z ≡ block g Block.bedrock)
unfolding beneath
below-beneath g s p q (px, pz, py) same = elim (ground_floor p.y py) [
  | inr floor ↦ inr (rw floor (under g s p))
  | inl above ↦
      let e = same_place-equal (beneath p) q same in
      let x : p.x ≡ q.x = sym (to_i16_id p.x px) ∙ ap (λ (t : Place). t.x) e in
      let z : p.z ≡ q.z = sym (to_i16_id p.z pz) ∙ ap (λ (t : Place). t.z) e in
      let y : pos p.y -ℤ pos 1 ≡ pos q.y = lower p.y py above ∙ ap (λ (t : Place). pos t.y) e in
      inl (rw (x, y, z) refl)
]

pub beside-InWorld : (p : Place) (d : Side) → InWorld (beside p d)
unfolding beside
beside-InWorld p d = (to_i16-IsShort _, to_i16-IsShort _, to_u8-lt _)

pub beneath-InWorld : (p : Place) → InWorld (beneath p)
unfolding beneath
beneath-InWorld p = (to_i16-IsShort _, to_i16-IsShort _, to_u8-lt _)
