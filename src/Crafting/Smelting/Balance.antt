-- ===== src/Crafting/Smelting/Balance.antt =====
-- `getSmeltingOutput` of crafting.c: its rounds, and what goes in and comes out.
use macintosh_craft.Base.{
  ◌*◌, ◌/◌, ℕ, zero, suc, ◌+◌, ◌≤◌, ◌<◌, ◌≡◌, ◌-◌, if◌then◌else◌, ltb, ◌≢◌, refl, Bool-cases,
  Option-cases, false, inl, inr, ◌⊎◌, arith, some, ◌==◌, ◌||◌,
}
use macintosh_craft.Registry.{Registry}
use macintosh_craft.Players.{PlayerData}
use macintosh_craft.Crafting.Smelting.{
  Furnace, fuel_value, find_recipe, recipes, Round, returns, again, burn, smelt_round, smelt_loop,
  furnace_of, put_furnace, get_smelting_output,
}

-- `g` has as many items of material and output together as `f`, less 256 for every time that the
-- count of the output wrapped, and no more material or fuel.
pub record IsBalanced (f g : Furnace) : Type 0 where
  pub wraps : ℕ
  pub total : g.material_count + g.output_count + 256 * wraps ≡ f.material_count + f.output_count
  pub material : g.material_count ≤ f.material_count
  pub fuel : g.fuel_count ≤ f.fuel_count

-- How a round ends.
data Rounds (f : Furnace) : Round → Type 0 where
  ends : (g : Furnace) → IsBalanced f g → Rounds f (returns g)
  goes_on : (g : Furnace) → IsBalanced f g → g.fuel_count < f.fuel_count → Rounds f (again g)

burn-Rounds :
    (f : Furnace) (value product seed : ℕ)
    → f.fuel_count ≢ 0
    → Rounds f (burn (record f { rng_seed = seed }) value product)
unfolding burn
burn-Rounds f value product seed some_fuel =
    let exchange : ℕ = if ltb value f.material_count then value else f.material_count in
    let within : exchange ≤ f.material_count = ground arith in
    let over : ℕ = (f.output_count + exchange) / 256 in
    elim (Bool-cases (f.material_count - exchange == 0)) [
      | inl done ↦ rw done (
          ends _ (record {
            wraps = over;
            total = omega arith;
            material = omega arith;
            fuel = omega arith;
          }))
      | inr more ↦ rw more (
          goes_on _
            (record {
              wraps = over;
              total = omega arith;
              material = omega arith;
              fuel = omega arith;
            })
            (omega arith))
    ]

unchanged : (f : Furnace) (seed : ℕ) → IsBalanced f (record f { rng_seed = seed })
unchanged f seed = record {
  wraps = 0;
  total = omega arith;
  material = omega arith;
  fuel = omega arith;
}

smelt_round-Rounds : (r : Registry) (f : Furnace) → Rounds f (smelt_round r f)
unfolding smelt_round
smelt_round-Rounds r f = elim (Bool-cases (f.material_count == 0 || f.fuel_count == 0)) [
  | inl empty ↦ rw empty (ends f (unchanged f f.rng_seed))
  | inr some_left ↦ rw some_left (elim (Bool-cases (f.material == 0 || f.fuel == 0)) [
    | inl nothing ↦ rw nothing (ends f (unchanged f f.rng_seed))
    | inr things ↦ rw things (elim (Option-cases (fuel_value r f.fuel f.rng_seed)) [
      | inl cold ↦ rw cold (ends f (unchanged f f.rng_seed))
      | inr ((value, seed), e) ↦
          rw e (elim (Option-cases (find_recipe r f.material f.output_item recipes)) [
            | inl no_recipe ↦ rw no_recipe (ends _ (unchanged f seed))
            | inr (product, q) ↦ rw q (burn-Rounds f value product seed (left some_left))
          ])
    ])
  ])
]
  where
    left : (f.material_count == 0 || f.fuel_count == 0) ≡ false → f.fuel_count ≢ 0
    left h e = ground arith

Rounds-cases :
    {f : Furnace} {o : Round}
    → Rounds f o
    → ((g : Furnace) × (o ≡ returns g) × IsBalanced f g)
      ⊎ ((g : Furnace) × (o ≡ again g) × IsBalanced f g × (g.fuel_count < f.fuel_count))
Rounds-cases (ends g b) = inl (g, refl, b)
Rounds-cases (goes_on g b h) = inr (g, refl, b, h)

-- More rounds than pieces of fuel are enough.
smelt_loop_total :
    (n : ℕ) (r : Registry) (f : Furnace)
    → f.fuel_count < n
    → (g : Furnace) × (smelt_loop n r f ≡ some g) × IsBalanced f g
unfolding smelt_loop
smelt_loop_total zero r f enough = absurd (omega arith)
smelt_loop_total (suc n) r f enough = elim (Rounds-cases (smelt_round-Rounds r f)) [
  | inl (g, e, b) ↦ (g, rw (e, smelt_loop) refl, b)
  | inr (g, e, b, less) ↦
      let (h, l, c) = smelt_loop_total n r g (omega arith) in
      (
        h,
        rw (e, smelt_loop) l,
        record {
          wraps = b.wraps + c.wraps;
          total = omega (arith, b.total, c.total);
          material = omega (arith, b.material, c.material);
          fuel = omega (arith, b.fuel, c.fuel);
        },
      )
]

-- A furnace always comes to rest. Then it has turned material into as much output: the two counts
-- together are what they were, less 256 for every time that the byte of the output wrapped, and there
-- is no more material and no more fuel than before. So nothing is lost where the two counts together
-- were below 256.
pub get_smelting_output-balance :
    (r : Registry) (p : PlayerData) (seed : ℕ)
    → (q : PlayerData) × (seed' : ℕ) × (wraps : ℕ) × (get_smelting_output r p seed
        ≡ some (q, seed'))
      × (q.craft_count 0 + q.craft_count 2 + 256 * wraps ≡ p.craft_count 0 + p.craft_count 2)
      × (q.craft_count 0 ≤ p.craft_count 0)
      × (q.craft_count 1 ≤ p.craft_count 1)
unfolding get_smelting_output
get_smelting_output-balance r p seed =
    let (g, l, b) = smelt_loop_total (p.craft_count 1 + 1) r (furnace_of p seed) (omega arith) in
    (
      put_furnace p g,
      g.rng_seed,
      b.wraps,
      rw (l, get_smelting_output) refl,
      b.total,
      b.material,
      b.fuel,
    )
