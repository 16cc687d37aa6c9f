-- ===== src/Tests/Fluids.antt =====
-- Water beside a rock.
use macintosh_craft.Base.{ℕ, ◌+◌, ◌≤◌, ◌<◌, ◌≡◌, refl, true, false, inl, ◌⊎◌, [], arith}
use macintosh_craft.Base.Int.{pos, negsuc, to_i16, to_u8}
use macintosh_craft.Base.Array.{update}
use macintosh_craft.Registry.{Block}
use macintosh_craft.Items.{is_replaceable_block, is_block}
use macintosh_craft.Terrain.{Generator}
use macintosh_craft.World.Changes.{Changes, Place, change_at, blank, get_block_change}
use macintosh_craft.World.Changes.Plain.{IsPlain}
use macintosh_craft.World.Blocks.{get_block_at}
use macintosh_craft.World.Blocks.Reads.{InWorld}
use macintosh_craft.World.Fluids.{Flow, handle_fluid_movement, check_fluid_update}
use macintosh_craft.World.Fluids.Levels.{HasFluids}
use macintosh_craft.World.Fluids.Solid
use macintosh_craft.World.Fluids.Depth
use macintosh_craft.World.Fluids.Steps.{read}
use macintosh_craft.Tests.Data.{generator, numbers, block_number}

-- Eight numbers for each fluid.
abbrev wet_number : Block → ℕ
wet_number Block.water = 20
wet_number Block.lava = 30
wet_number Block.chest = 40
wet_number b = block_number b

abbrev pub wet : Generator
wet = record generator { registry = record numbers { block = wet_number } }

pub bedrock_stays : is_replaceable_block wet.registry 4 ≡ false
unfolding is_replaceable_block is_block
bedrock_stays = refl

pub wet-HasFluids : HasFluids wet
wet-HasFluids = record {
  air = (omega arith, omega arith);
  water = λ k h. (omega arith, omega arith);
  lava = λ k h. (omega arith, omega arith);
  water_byte = omega arith;
  lava_byte = omega arith;
  bedrock = bedrock_stays;
}

abbrev pub rock : Place
rock = record { x = pos 17; y = 70; z = negsuc 2 }

abbrev spring : Place
spring = record { x = pos 16; y = 70; z = negsuc 2 }

abbrev spring_and_rock : Changes
spring_and_rock = record {
  entries = update (update (λ _. blank) 0 (change_at rock 4)) 1 (change_at spring 20);
  count = 2;
}

pub spring_and_rock-IsPlain : IsPlain 40 spring_and_rock
spring_and_rock-IsPlain = record {
  bounded = omega arith;
  no_chest = λ i h e. ground arith;
  distinct = λ i j p hi hj li lj ai aj. ground arith;
}

abbrev pub still : Flow
still = record { changes = spring_and_rock; sent = []; refused = false; deep = false }

pub rock_there : get_block_at wet spring_and_rock (pos 17) (pos 70) (negsuc 2) ≡ 4
unfolding get_block_at get_block_change to_i16 to_u8
rock_there = refl

pub spring_there : get_block_at wet spring_and_rock (pos 16) (pos 70) (negsuc 2) ≡ 20
unfolding get_block_at get_block_change to_i16 to_u8
spring_there = refl

check_fluid_update-solid_example :
    let m = get_block_at wet spring_and_rock (pos 16) (pos 70) (negsuc 2) in
    get_block_at wet
      (check_fluid_update 9 wet [] spring m still).changes
      (pos 17)
      (pos 70)
      (negsuc 2)
    ≡ 4
check_fluid_update-solid_example =
    Solid.check_fluid_update-solid wet [] 9 spring rock still 4
      ((omega arith, omega arith), (omega arith, omega arith), omega arith)
      (omega arith, omega arith, omega arith, omega arith, omega arith) wet-HasFluids (omega arith)
      spring_and_rock-IsPlain rock_there (bedrock_stays, refl)

handle_fluid_movement-depth_example :
    let u = handle_fluid_movement 600 wet [] spring 20 (20 + 0) still in
    (u.refused ≡ true)
    ⊎ (u.deep ≡ false)
      × ((q : Place)
          → InWorld q
          → (70 < q.y) ⊎ (q.y ≡ 70) × (20 ≤ read wet still q) × (read wet still q ≤ 20 + 0)
          → read wet u q ≡ read wet still q)
handle_fluid_movement-depth_example =
    Depth.handle_fluid_movement-depth wet [] 600 spring 20 0 still (inl refl) wet-HasFluids
      (omega arith) (omega arith, omega arith, omega arith, omega arith, omega arith) (omega arith)
      (omega arith) spring_and_rock-IsPlain refl spring_there (inl refl)
