-- ===== src/World/Changes.antt =====
-- The array `block_changes` of procedures.c, as it is built by default, with ALLOW_CHESTS:
-- unsorted, with gaps marked 0xFF, and a chest followed by 14 entries of item data.
pub mod Plain
pub mod Write
pub mod MapLaw
pub mod Blank
use macintosh_craft.Base.{ℕ, zero, suc, ◌+◌, ◌-◌, Bool, true, false, ◌&&◌, ◌||◌, Option, none, some}
use macintosh_craft.Base.{ltb, leb, ◌==◌, if◌then◌else◌}
use macintosh_craft.Base.Int.{ℤ, pos, eq_ℤ}
use macintosh_craft.Base.Array.{update, modify_range}

-- `short x, z; uint8_t y, block`
pub record BlockChange : Type 0 where
  pub x : ℤ
  pub z : ℤ
  pub y : ℕ
  pub block : ℕ

-- The coordinates that the operations take.
pub record Place : Type 0 where
  pub x : ℤ
  pub y : ℕ
  pub z : ℤ

-- `block_changes` and `block_changes_count`. The array is a function of the index; the indices
-- that the operations touch are below `max_block_changes`.
pub record Changes : Type 0 where
  pub entries : ℕ → BlockChange
  pub count : ℕ

abbrev pub max_block_changes : ℕ
max_block_changes = 20000

abbrev pub gap : ℕ
gap = 0xff

abbrev pub is_at : BlockChange → Place → Bool
is_at e p = eq_ℤ e.x p.x && (e.y == p.y && eq_ℤ e.z p.z)

-- `chest` is B_chest.
module _ (chest : ℕ) where
  -- The loop of `getBlockChange`, from index `i` on. The item data of a chest is jumped over.
  unfoldable pub get_loop : ℕ → Changes → Place → ℕ → ℕ
  get_loop zero s p i = gap
  get_loop (suc fuel) s p i =
      let e = s.entries i in
      let next : ℕ = if e.block == gap then i + 1 else if e.block == chest then i + 15 else i + 1 in
      let rest = get_loop fuel s p next in
      if ltb i s.count
      then (if e.block == gap then rest else if is_at e p then e.block else rest)
      else gap

  -- Each round moves on by one at least, so `count` rounds are enough.
  unfoldable pub get_block_change : Changes → Place → ℕ
  unfolding get_loop
  get_block_change s p = get_loop s.count s p 0

-- How the first loop of `makeBlockChange` ends: at an entry for the place, or behind the last one,
-- with the first gap seen on the way.
pub data Scan : Type 0 where
  hit : ℕ → ℕ → Scan
  miss : ℕ → Scan

-- `n` entries are left, from index `i` on.
unfoldable pub scan : ℕ → Changes → Place → ℕ → ℕ → Scan
scan zero s p i first_gap = miss first_gap
scan (suc n) s p i first_gap =
    let e = s.entries i in
    let first_gap' : ℕ =
      if e.block == gap then (if first_gap == s.count then i else first_gap) else first_gap in
    let rest = scan n s p (i + 1) first_gap' in
    if e.block == gap then rest else if is_at e p then hit i first_gap else rest

abbrev pub set_block : ℕ → BlockChange → BlockChange
set_block b e = record e { block = b }

abbrev pub change_at : Place → ℕ → BlockChange
change_at p block = record { x = p.x; z = p.z; y = p.y; block = block }

abbrev pub blank : BlockChange
blank = record { x = pos 0; z = pos 0; y = 0; block = 0 }

-- The search for 15 gaps in a row. `start` is the source's `last_real_entry + 1`, so that its
-- `i - last_real_entry == 15` is `i + 1 == start + 15`. The result is `start` and `i`.
unfoldable pub chest_search : ℕ → Changes → ℕ → ℕ → Option (ℕ × ℕ)
chest_search zero s i start = none
chest_search (suc n) s i start =
    let real : Bool = if (s.entries i).block == gap then false else true in
    let rest = chest_search n s (i + 1) (if real then i + 1 else start) in
    if leb max_block_changes i
    then none
    else if real
    then rest
    else if i + 1 == start + 15
    then some (start, i)
    else rest

-- What `makeBlockChange` returns: 0, or 1 after `failBlockChange`, with the array as it is then.
pub data Outcome : Type 0 where
  stored : Changes → Outcome
  full : Changes → Outcome

abbrev pub place_chest : Changes → Place → ℕ → ℕ → ℕ → Changes
place_chest s p block start i = record {
  entries = modify_range 14 (start + 1) (λ _. blank) (update s.entries start (change_at p block));
  count = if leb s.count i then i + 1 else s.count;
}

-- The chest routine: `i` runs from the first gap to `count + 15`.
unfoldable pub store_chest : Changes → Place → ℕ → ℕ → Outcome
unfolding chest_search
store_chest s p block first_gap =
    elim (chest_search (s.count + 16 - first_gap) s first_gap first_gap) [
      | some (start, i) ↦ stored (place_chest s p block start i)
      | none ↦ full s
    ]

unfoldable pub store_plain : Changes → Place → ℕ → ℕ → Outcome
store_plain s p block first_gap =
    if first_gap == max_block_changes
    then full s
    else stored (record {
      entries = update s.entries first_gap (change_at p block);
      count = if first_gap == s.count then s.count + 1 else s.count;
    })

-- What follows the first loop, when no entry is left for the place.
unfoldable pub store_new : ℕ → Bool → Changes → Place → ℕ → ℕ → Outcome
unfolding store_chest store_plain
store_new chest is_base_block s p block first_gap =
    if is_base_block
    then stored s
    else if block == chest
    then store_chest s p block first_gap
    else store_plain s p block first_gap

-- A replaced chest gives up the 14 entries of its item data.
abbrev pub clear_chest : ℕ → Changes → ℕ → ℕ → BlockChange
clear_chest chest s i =
    if (s.entries i).block == chest
    then modify_range 14 (i + 1) (set_block gap) s.entries
    else s.entries

unfoldable pub replace : ℕ → Bool → Changes → Place → ℕ → ℕ → ℕ → Outcome
unfolding store_new
replace chest is_base_block s p block i first_gap =
    let cleared = clear_chest chest s i in
    let freed : Changes = record {
      entries = update cleared i (set_block gap (cleared i));
      count = s.count;
    } in
    if is_base_block
    then stored freed
    else if block == chest
    then store_new chest false freed p block (if ltb i first_gap then i else first_gap)
    else stored
        (record { entries = update cleared i (set_block block (cleared i)); count = s.count })

-- `makeBlockChange` behind its first loop.
unfoldable pub after_scan : ℕ → Bool → Changes → Place → ℕ → Scan → Outcome
unfolding replace
after_scan chest is_base_block s p block (hit i first_gap) =
    replace chest is_base_block s p block i first_gap
after_scan chest is_base_block s p block (miss first_gap) =
    store_new chest is_base_block s p block first_gap

-- `makeBlockChange` from the first loop on; `is_base_block` is the comparison with the terrain.
unfoldable pub store_change : ℕ → Bool → Changes → Place → ℕ → Outcome
unfolding scan after_scan
store_change chest is_base_block s p block =
    after_scan chest is_base_block s p block (scan s.count s p 0 s.count)
