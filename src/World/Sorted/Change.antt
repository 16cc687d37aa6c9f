-- ===== src/World/Sorted/Change.antt =====
-- `makeBlockChange` of procedures.c with USE_SORTED_BLOCK_CHANGES, with its broadcast and the
-- invalidation of the section cache.
pub mod Fresh
use macintosh_craft.Base.{
  ℕ, zero, suc, ◌+◌, ◌-◌, ◌*◌, ◌/◌, ◌%◌, ◌^◌, ◌≤◌, ◌<◌, ◌≡◌, ◌≢◌, refl, sym, ap, ◌∙◌, Bool, true,
  false, not, ◌&&◌, ◌||◌, Option, none, some, List, [], ◌∷◌, ◌++◌, length, inl, inr, ◌⊎◌, ◌↔◌,
  arith, Bool-cases, Option-cases, ltb, leb, ◌==◌, if◌then◌else◌, ==→eq, ==_iff, ltb→lt, leb→le,
}
use macintosh_craft.Base.Int.{pos}
use macintosh_craft.Terrain.{Generator}
use macintosh_craft.World.Changes.{Changes, Place}
use macintosh_craft.World.Blocks.{
  Viewer, Packet, in_game, send_update, fail_block_change, is_base_block,
}
use macintosh_craft.World.Cache.{Cache, invalidate_chunk_cache}
use macintosh_craft.World.Sorted.{
  SortedOutcome, unchanged, changed, no_space, store_sorted_change, get_sorted_change,
}
use macintosh_craft.Terrain.Feature.{anchor_of, get_terrain_at}
use macintosh_craft.Base.Int.{ℤ, pos_part, ltb_ℤ, to_i16, to_u8}
use macintosh_craft.Registry.{Block}
use macintosh_craft.Terrain.{block}
use macintosh_craft.World.Changes.{gap}

-- `getBlockAt` of worldgen.c, over the sorted array.
unfoldable pub get_sorted_block_at : Generator → Changes → ℤ → ℤ → ℤ → ℕ
get_sorted_block_at g s x y z =
    let change = get_sorted_change s (record { x = to_i16 x; y = to_u8 y; z = to_i16 z }) in
    if ltb_ℤ y (pos 0)
    then block g Block.bedrock
    else if not (change == gap)
    then change
    else get_terrain_at g x (pos_part y) z (anchor_of g x z)

-- The state after the call, what it sent, and the value that it returns.
pub record SortedEffect : Type 0 where
  pub changes : Changes
  pub cache : Cache
  pub sent : List Packet
  pub failed : Bool

unfoldable pub finish_sorted :
    Generator → Changes → Cache → Place → List ℤ → List Packet → SortedOutcome → SortedEffect
finish_sorted g s c p fds sent unchanged = record {
  changes = s;
  cache = c;
  sent = sent;
  failed = false;
}
finish_sorted g s c p fds sent (changed t) = record {
  changes = t;
  cache = invalidate_chunk_cache c p.x p.y p.z;
  sent = sent;
  failed = false;
}
finish_sorted g s c p fds sent no_space = record {
  changes = s;
  cache = c;
  sent = sent ++ fail_block_change p (get_sorted_block_at g s p.x (pos p.y) p.z) fds;
  failed = true;
}

unfoldable pub make_sorted_block_change :
    Generator → List Viewer → Changes → Cache → Place → ℕ → SortedEffect
make_sorted_block_change g players s c p b =
    let fds = in_game players in
    finish_sorted g s c p fds (send_update p b fds)
      (store_sorted_change (is_base_block g p b) s p b)
