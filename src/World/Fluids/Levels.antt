-- ===== src/World/Fluids/Levels.antt =====
-- The numbers of the fluids' levels.
use macintosh_craft.Base.{
  ℕ, ◌+◌, ◌-◌, ◌%◌, ◌≤◌, ◌<◌, ◌≡◌, false, ◌&&◌, inl, inr, ◌⊎◌, arith, leb, ltb, ◌==◌,
}
use macintosh_craft.Registry.{Block}
use macintosh_craft.Items.{is_replaceable_block}
use macintosh_craft.Terrain.{Generator, block}
use macintosh_craft.World.Blocks.Kept.{IsPlantable}

-- The numbers of air and of the eight levels of both fluids are bytes, and belong to no chest.
pub record HasFluids (g : Generator) : Type 0 where
  pub air : IsPlantable g (block g Block.air)
  pub water : (k : ℕ) → k < 8 → IsPlantable g (block g Block.water + k)
  pub lava : (k : ℕ) → k < 8 → IsPlantable g (block g Block.lava + k)
  pub water_byte : block g Block.water + 8 ≤ 256
  pub lava_byte : block g Block.lava + 8 ≤ 256
  pub bedrock : is_replaceable_block g.registry (block g Block.bedrock) ≡ false

-- Water or lava, at one of eight levels.
abbrev pub IsFluid : Generator → ℕ → ℕ → Type 0
IsFluid g fluid b =
    ((fluid ≡ block g Block.water) ⊎ (fluid ≡ block g Block.lava)) × (fluid ≤ b) × (b < fluid + 8)

-- What no fluid replaces: it is not replaceable, and not one of the eight numbers from lava's on.
abbrev pub IsBarrier : Generator → ℕ → Type 0
IsBarrier g b =
    (is_replaceable_block g.registry b ≡ false)
    × ((leb (block g Block.lava) b && ltb b (block g Block.lava + 8)) ≡ false)

pub IsFluid-IsPlantable :
    (g : Generator) (fluid b : ℕ) → HasFluids g → IsFluid g fluid b → IsPlantable g b
IsFluid-IsPlantable g fluid b h (which, low, high) = elim which [
  | inl e ↦
      let same : block g Block.water + (b - fluid) ≡ b = omega arith in
      rw same at (h.water (b - fluid) (omega arith))
  | inr e ↦
      let same : block g Block.lava + (b - fluid) ≡ b = omega arith in
      rw same at (h.lava (b - fluid) (omega arith))
]

pub next_level :
    (g : Generator) (fluid n : ℕ)
    → HasFluids g
    → IsFluid g fluid n
    → ((n + 256 - fluid) % 256 == 7) ≡ false
    → IsFluid g fluid ((n + 1) % 256)
next_level g fluid n h (which, low, high) more =
    let byte : fluid + 8 ≤ 256 = elim which [
      | inl e ↦ omega (arith, h.water_byte)
      | inr e ↦ omega (arith, h.lava_byte)
    ] in
    let not_last : n < fluid + 7 = ground arith in (which, omega arith, omega arith)
