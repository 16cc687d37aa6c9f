-- ===== src/Disk/Session.antt =====
-- A server from its first start to a restart.
use macintosh_craft.Base.{ℕ, false, ◌<◌, ◌≡◌, ◌≢◌, refl, none, some, List, [], ◌∷◌, inl, inr, arith}
use macintosh_craft.Base.Int.{ℤ, to_i16, to_u8}
use macintosh_craft.Registry.{Block}
use macintosh_craft.Terrain.{Generator, block}
use macintosh_craft.World.Changes.{
  Changes, Place, gap, max_block_changes, store_change, get_block_change,
}
use macintosh_craft.World.Changes.Blank.{IsTidy, store_change-IsTidy, array_of}
use macintosh_craft.World.Blocks.{Viewer, get_block_at, make_block_change, finish, is_base_block}
use macintosh_craft.World.Blocks.Reads.{Outcome-cases}
use macintosh_craft.World.Store.Arrays.{no_changes}
use macintosh_craft.Players.{PlayerData}
use macintosh_craft.Disk.{WorldFile, Stdio, Memory, write_all_data_to_disk, init_serializer}
use macintosh_craft.Disk.Saved.{IsWorking}
use macintosh_craft.Disk.Restart.{init_serializer-saved}

-- The changes one after the other, whatever `makeBlockChange` returns.
unfoldable pub make_block_changes : Generator → List Viewer → List (Place × ℕ) → Changes → Changes
make_block_changes g players [] s = s
make_block_changes g players (r ∷ rs) s =
    make_block_changes g players rs (make_block_change g players s r.0 r.1).changes

-- Memory as `main` leaves it before `initSerializer`.
abbrev pub first_memory : (ℕ → PlayerData) → Memory
first_memory players = record { changes = no_changes; players = players }

no_changes-IsTidy : IsTidy no_changes
no_changes-IsTidy = (omega arith, λ j h k. refl)

make_block_change-IsTidy :
    (g : Generator) (players : List Viewer) (s : Changes) (p : Place) (b : ℕ)
    → IsTidy s
    → IsTidy (make_block_change g players s p b).changes
unfolding make_block_change finish
make_block_change-IsTidy g players s p b tidy =
    let chest = block g Block.chest in
    let kept = store_change-IsTidy chest (is_base_block g p b) s p b tidy in
    elim (Outcome-cases (store_change chest (is_base_block g p b) s p b)) [
      | inl (t, h) ↦ rw (h, make_block_change) (rw (h, array_of) at kept)
      | inr (t, h) ↦ rw (h, make_block_change) (rw (h, array_of) at kept)
    ]

make_block_changes-IsTidy :
    (g : Generator) (players : List Viewer) (rs : List (Place × ℕ)) (s : Changes)
    → IsTidy s
    → IsTidy (make_block_changes g players rs s)
unfolding make_block_changes
make_block_changes-IsTidy g players [] s tidy = tidy
make_block_changes-IsTidy g players (r ∷ rs) s tidy =
    make_block_changes-IsTidy g players rs (make_block_change g players s r.0 r.1).changes
      (make_block_change-IsTidy g players s r.0 r.1 tidy)

same_block :
    (g : Generator) (s t : Changes) (x y z : ℤ)
    → ((p : Place)
        → get_block_change (block g Block.chest) s p ≡ get_block_change (block g Block.chest) t p)
    → get_block_at g s x y z ≡ get_block_at g t x y z
unfolding get_block_at
same_block g s t x y z same = rw (same (record { x = to_i16 x; y = to_u8 y; z = to_i16 z })) refl

created :
    (io : Stdio) (chest : ℕ) (damaged : (ℕ → PlayerData) → ℕ → PlayerData) (before : ℕ → PlayerData)
    → IsWorking io
    → init_serializer io chest damaged none (first_memory before)
      ≡ some (
        record { entries = no_changes.entries; players = before; overwritten = false },
        first_memory before,
      )
unfolding init_serializer
created io chest damaged before w =
    simp (w.creates, w.writes_entries, w.seeks max_block_changes, w.writes_players) refl

-- The world survives a restart: a server that starts without a world file, whose players make any
-- sequence of changes, chests included and failed ones too, after which the array is not full, and
-- that saves everything, is followed by one that starts with the players that were saved and gives
-- every block as it was, all while stdio works.
pub restart-get_block_at :
    (io : Stdio) (damaged : (ℕ → PlayerData) → ℕ → PlayerData) (g : Generator)
    (viewers : List Viewer) (rs : List (Place × ℕ)) (before after : ℕ → PlayerData)
    → IsWorking io
    → block g Block.chest ≢ gap
    → (make_block_changes g viewers rs no_changes).count < max_block_changes
    → let chest = block g Block.chest in
      let s = make_block_changes g viewers rs no_changes in
      (first : WorldFile) × (last : WorldFile) × (m : Memory) × (init_serializer io chest damaged
          none
          (first_memory before)
        ≡ some (first, first_memory before))
      × (write_all_data_to_disk io (record { changes = s; players = after }) first ≡ last)
      × (init_serializer io chest damaged (some last) (first_memory before) ≡ some (last, m))
      × (m.players ≡ after)
      × ((x y z : ℤ) → get_block_at g m.changes x y z ≡ get_block_at g s x y z)
restart-get_block_at io damaged g viewers rs before after w solid room =
    let chest = block g Block.chest in
    let s = make_block_changes g viewers rs no_changes in
    let tidy = make_block_changes-IsTidy g viewers rs no_changes no_changes-IsTidy in
    let first : WorldFile = record {
      entries = no_changes.entries;
      players = before;
      overwritten = false;
    } in
    let (m, read, players, same) =
      init_serializer-saved io chest damaged first (record { changes = s; players = after })
        (first_memory before) w solid room tidy.1 (λ j h k. refl) refl in
    (
      first,
      write_all_data_to_disk io (record { changes = s; players = after }) first,
      m,
      created io chest damaged before w,
      refl,
      read,
      players,
      λ x y z. same_block g m.changes s x y z same,
    )
