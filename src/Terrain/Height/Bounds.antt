-- ===== src/Terrain/Height/Bounds.antt =====
-- The range of `getCornerHeight`, `interpolate` and `getHeightAt` of worldgen.c.
use macintosh_craft.Base.{
  ℕ, ◌+◌, ◌-◌, ◌*◌, ◌/◌, ◌%◌, ◌≤◌, ◌<◌, ◌≡◌, ◌^◌, ap, arith, if◌then◌else◌, ltb, ◌==◌, Bool-cases,
  inl, inr,
}
use macintosh_craft.Tools.Division.{floor_8}
use macintosh_craft.Base.Int.{ℤ}
use macintosh_craft.Terrain.{Generator, biome}
use macintosh_craft.Terrain.Height.{
  get_corner_height, biome_height, interpolate, continent_height, swamp_height,
}
use macintosh_craft.Terrain.Height.{
  height_between, get_height_at, get_height_at_from_hash, corner_at,
}
use macintosh_craft.Registry.{Biome}

continent_bounds : (h : ℕ) → (53 ≤ continent_height h) × (continent_height h ≤ 67)
continent_bounds h = omega arith

swamp_bounds : (h : ℕ) → (50 ≤ swamp_height h) × (swamp_height h ≤ 81)
swamp_bounds h =
    swamp (continent_height h) (h % 3) (h / 2 ^ 4 % 3) (h / 2 ^ 8 % 3) (h / 2 ^ 12 % 3)
      (h / 2 ^ 24 % 4) (continent_bounds h) (omega arith) (omega arith) (omega arith) (omega arith)
      (omega arith)
  where
    swamp :
        (m a b c d e : ℕ)
        → (53 ≤ m) × (m ≤ 67)
        → a < 3
        → b < 3
        → c < 3
        → d < 3
        → e < 4
        → (50 ≤ (
            if ltb (m + (a + b + c + d)) 64 then m + (a + b + c + d) - e else m + (a + b + c + d)))
          × ((if ltb (m + (a + b + c + d)) 64 then m + (a + b + c + d) - e else m + (a + b + c + d))
              ≤ 81)
    swamp m a b c d e k ha hb hc hd he = ground arith

biome_bounds : (g : Generator) (h b : ℕ) → (50 ≤ biome_height g h b) × (biome_height g h b ≤ 81)
unfolding biome_height
biome_bounds g h b = elim (Bool-cases (b == biome g Biome.mangrove_swamp)) [
  | inl e ↦ rw e (swamp_bounds h)
  | inr e ↦ rw e (elim (Bool-cases (b == biome g Biome.plains)) [
    | inl e ↦ rw e (omega (arith, continent_bounds h))
    | inr e ↦ rw e (elim (Bool-cases (b == biome g Biome.desert)) [
      | inl e ↦ rw e (omega (arith, continent_bounds h))
      | inr e ↦ rw e (elim (Bool-cases (b == biome g Biome.beach)) [
        | inl e ↦ rw e (omega arith)
        | inr e ↦ rw e (elim (Bool-cases (b == biome g Biome.snowy_plains)) [
          | inl e ↦ rw e (omega (arith, continent_bounds h))
          | inr e ↦ rw e (omega (arith, continent_bounds h))
        ])
      ])
    ])
  ])
]

-- Every corner lies between 50 and 81, and the final clamp never changes it.
pub corner_bounds :
    (g : Generator) (hash b : ℕ)
    → (50 ≤ get_corner_height g hash b)
      × (get_corner_height g hash b ≤ 81)
      × (get_corner_height g hash b ≡ biome_height g hash b)
unfolding get_corner_height
corner_bounds g hash b = ground (arith, biome_bounds g hash b)

mul_le : (a m y : ℕ) → a ≤ m → a * y ≤ m * y
mul_le a m y h = grind arith

weights_sum : (x : ℕ) → x ≤ 8 → (8 - x) + x ≡ 8
weights_sum x h = omega arith

-- A blend of two values by weights that add up to 8.
blend_le : (a b m x : ℕ) → a ≤ m → b ≤ m → x ≤ 8 → a * (8 - x) + b * x ≤ 8 * m
blend_le a b m x ha hb hx =
    omega (arith, mul_le a m (8 - x) ha, mul_le b m x hb, ap (λ (t : ℕ). m * t) (weights_sum x hx))

blend_ge : (a b m x : ℕ) → m ≤ a → m ≤ b → x ≤ 8 → 8 * m ≤ a * (8 - x) + b * x
blend_ge a b m x ha hb hx =
    omega (arith, mul_le m a (8 - x) ha, mul_le m b x hb, ap (λ (t : ℕ). m * t) (weights_sum x hx))

-- The interpolated height lies between any bounds of the four corners, for bytes and columns
-- within the minichunk: no step of the computation wraps.
interpolate_bounds :
    (a b c d l m x z : ℕ)
    → (l ≤ a) × (l ≤ b) × (l ≤ c) × (l ≤ d)
    → (a ≤ m) × (b ≤ m) × (c ≤ m) × (d ≤ m)
    → m < 256
    → x ≤ 8
    → z ≤ 8
    → (l ≤ interpolate a b c d x z) × (interpolate a b c d x z ≤ m)
unfolding interpolate
interpolate_bounds a b c d l m x z lo hi hm hx hz =
    let top : ℕ = a * (8 - x) + b * x in
    let bottom : ℕ = c * (8 - x) + d * x in
    let t = blend_le a b m x hi.0 hi.1 hx in
    let t' = blend_ge a b l x lo.0 lo.1 hx in
    let u = blend_le c d m x hi.2 hi.3 hx in
    let u' = blend_ge c d l x lo.2 lo.3 hx in
    let e : top % 65536 ≡ top = omega arith in
    let f : bottom % 65536 ≡ bottom = omega arith in
    rw (e, f)
      (omega (arith, blend_le top bottom (8 * m) z t u hz, blend_ge top bottom (8 * l) z t' u' hz))

-- Corners between 50 and 81 give columns between 50 and 81.
pub height_between_bounds :
    (a b c d rx rz : ℕ)
    → (50 ≤ a) × (50 ≤ b) × (50 ≤ c) × (50 ≤ d)
    → (a ≤ 81) × (b ≤ 81) × (c ≤ 81) × (d ≤ 81)
    → rx < 8
    → rz < 8
    → (50 ≤ height_between a b c d rx rz) × (height_between a b c d rx rz ≤ 81)
unfolding height_between
height_between_bounds a b c d rx rz lo hi hx hz =
    ground (
      arith,
      interpolate_bounds a b c d 50 81 rx rz lo hi (omega arith) (omega arith) (omega arith),
    )

-- The terrain height is between 50 and 81 in every column of the world.
pub get_height_at_bounds :
    (g : Generator) (x z : ℤ) → (50 ≤ get_height_at g x z) × (get_height_at g x z ≤ 81)
unfolding get_height_at get_height_at_from_hash corner_at
get_height_at_bounds g x z =
    height_between_bounds _ _ _ _ _ _
      (
        (corner_bounds g _ _).0,
        (corner_bounds g _ _).0,
        (corner_bounds g _ _).0,
        (corner_bounds g _ _).0,
      )
      (
        (corner_bounds g _ _).1,
        (corner_bounds g _ _).1,
        (corner_bounds g _ _).1,
        (corner_bounds g _ _).1,
      )
      (floor_8 x).2 (floor_8 z).2
