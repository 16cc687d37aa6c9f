-- ===== src/World/Blocks.antt =====
-- `getBlockAt` of worldgen.c and `makeBlockChange` of procedures.c, with the packets that it sends.
pub mod Reads
pub mod Kept
use macintosh_craft.Base.{ℕ, Bool, true, false, not, List, [], ◌∷◌, ◌++◌}
use macintosh_craft.Base.{◌==◌, if◌then◌else◌}
use macintosh_craft.Base.Int.{ℤ, pos, negsuc, pos_part, eq_ℤ, ltb_ℤ, to_i16, to_u8}
use macintosh_craft.Registry.{Block}
use macintosh_craft.Terrain.{Generator, block}
use macintosh_craft.Terrain.Feature.{anchor_of, get_terrain_at}
use macintosh_craft.World.Changes.{Changes, Place, gap, get_block_change, store_change}
use macintosh_craft.World.Changes.{Outcome, stored, full}

-- The block at any coordinates. They become `short` and `uint8_t` for the changes.
unfoldable pub get_block_at : Generator → Changes → ℤ → ℤ → ℤ → ℕ
get_block_at g s x y z =
    let change =
      get_block_change (block g Block.chest) s
        (record { x = to_i16 x; y = to_u8 y; z = to_i16 z }) in
    if ltb_ℤ y (pos 0)
    then block g Block.bedrock
    else if not (change == gap)
    then change
    else get_terrain_at g x (pos_part y) z (anchor_of g x z)

-- What the broadcasts look at in a player: `client_fd`, and the flag "client loading".
pub record Viewer : Type 0 where
  pub client_fd : ℤ
  pub loading : Bool

-- `sc_blockUpdate` and `sc_systemChat`, with the client that they are sent to.
pub data Packet : Type 0 where
  block_update : ℤ → Place → ℕ → Packet
  limit_warning : ℤ → Packet

-- The clients that a broadcast reaches.
unfoldable pub in_game : List Viewer → List ℤ
in_game [] = []
in_game (v ∷ vs) =
    let rest = in_game vs in
    if eq_ℤ v.client_fd (negsuc 0) then rest else if v.loading then rest else v.client_fd ∷ rest

unfoldable pub send_update : Place → ℕ → List ℤ → List Packet
send_update p b [] = []
send_update p b (fd ∷ fds) = block_update fd p b ∷ send_update p b fds

-- `failBlockChange`: the clients are given back what stood there before, and a warning.
unfoldable pub fail_block_change : Place → ℕ → List ℤ → List Packet
fail_block_change p before [] = []
fail_block_change p before (fd ∷ fds) =
    block_update fd p before ∷ limit_warning fd ∷ fail_block_change p before fds

-- The state after the call, what it sent, and the value that it returns.
pub record Effect : Type 0 where
  pub changes : Changes
  pub sent : List Packet
  pub failed : Bool

unfoldable pub finish : Generator → Place → List ℤ → List Packet → Outcome → Effect
finish g p fds sent (stored t) = record { changes = t; sent = sent; failed = false }
finish g p fds sent (full t) = record {
  changes = t;
  sent = sent ++ fail_block_change p (get_block_at g t p.x (pos p.y) p.z) fds;
  failed = true;
}

-- A block that is the terrain's own is not stored.
unfoldable pub is_base_block : Generator → Place → ℕ → Bool
is_base_block g p b = b == get_terrain_at g p.x p.y p.z (anchor_of g p.x p.z)

unfoldable pub make_block_change : Generator → List Viewer → Changes → Place → ℕ → Effect
make_block_change g players s p b =
    let fds = in_game players in
    finish g p fds (send_update p b fds)
      (store_change (block g Block.chest) (is_base_block g p b) s p b)

-- The changes and what was sent, for code that makes several changes and does not look at what
-- `makeBlockChange` returns.
pub record Built : Type 0 where
  pub changes : Changes
  pub sent : List Packet

unfoldable pub change_block : Generator → List Viewer → Place → ℕ → Built → Built
change_block g players p b w =
    let e = make_block_change g players w.changes p b in
    record { changes = e.changes; sent = w.sent ++ e.sent }

-- Arguments that are converted to `short` and `uint8_t`.
abbrev pub place_at : ℤ → ℤ → ℤ → Place
place_at x y z = record { x = to_i16 x; y = to_u8 y; z = to_i16 z }
