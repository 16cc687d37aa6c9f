-- ===== src/World/Sorted.antt =====
-- The array `block_changes` of procedures.c with USE_SORTED_BLOCK_CHANGES: sorted by coordinates,
-- without gaps and without chests.
pub mod Order
pub mod Search
pub mod Edit
pub mod Law
pub mod Change
use macintosh_craft.Base.{
  ℕ, zero, suc, ◌+◌, ◌-◌, ◌*◌, ◌/◌, ◌%◌, ◌^◌, ◌≤◌, ◌<◌, ◌≡◌, ◌≢◌, refl, sym, ap, ◌∙◌, Bool, true,
  false, not, ◌&&◌, ◌||◌, Option, none, some, List, [], ◌∷◌, ◌++◌, length, inl, inr, ◌⊎◌, ◌↔◌,
  arith, Bool-cases, Option-cases, ltb, leb, ◌==◌, if◌then◌else◌, ==→eq, ==_iff, ltb→lt, leb→le,
}
use macintosh_craft.Base.Int.{ℤ, pos, eq_ℤ, ltb_ℤ}
use macintosh_craft.Base.Array.{update}
use macintosh_craft.World.Changes.{
  BlockChange, Changes, Place, gap, max_block_changes, set_block, change_at,
}

-- The results -1, 0 and 1 of `compareBlockChangeCoords`.
pub data Comparison : Type 0 where
  before same after : Comparison

-- By x, then z, then y.
unfoldable pub compare_coords : Place → BlockChange → Comparison
compare_coords p e =
    if not (eq_ℤ p.x e.x)
    then (if ltb_ℤ p.x e.x then before else after)
    else if not (eq_ℤ p.z e.z)
    then (if ltb_ℤ p.z e.z then before else after)
    else if not (p.y == e.y)
    then (if ltb p.y e.y then before else after)
    else same

-- The index of the entry, or -1 with the index to insert one at.
pub data Position : Type 0 where
  existing : ℕ → Position
  insert_pos : ℕ → Position

-- `end` is `right + 1`, which is never negative. The range shrinks with every round, so that
-- `n` rounds for at most `n` entries end at the loop's own test.
unfoldable pub search_loop : ℕ → Changes → Place → ℕ → ℕ → Position
search_loop zero s p left end = insert_pos left
search_loop (suc n) s p left end =
    let mid = left + (end - 1 - left) / 2 in
    let lower = search_loop n s p left mid in
    let upper = search_loop n s p (mid + 1) end in
    if ltb left end
    then elim (compare_coords p (s.entries mid)) [
      | same ↦ existing mid
      | before ↦ lower
      | after ↦ upper
    ]
    else insert_pos left

unfoldable pub binary_search_block_change : Changes → Place → Position
binary_search_block_change s p = search_loop s.count s p 0 s.count

unfoldable pub get_sorted_change : Changes → Place → ℕ
get_sorted_change s p = elim (binary_search_block_change s p) [
  | existing i ↦ (s.entries i).block
  | insert_pos _ ↦ gap
]

-- `for (i = from; i < from + n; i ++) entries[i] = entries[i + 1]`
unfoldable pub shift_entries_left : ℕ → ℕ → (ℕ → BlockChange) → ℕ → BlockChange
shift_entries_left zero from f = f
shift_entries_left (suc n) from f = shift_entries_left n (from + 1) (update f from (f (from + 1)))

-- `for (i = to + n; i > to; i --) entries[i] = entries[i - 1]`
unfoldable pub shift_entries_right : ℕ → ℕ → (ℕ → BlockChange) → ℕ → BlockChange
shift_entries_right zero to f = f
shift_entries_right (suc n) to f = shift_entries_right n to (update f (to + n + 1) (f (to + n)))

-- How `makeBlockChange` ends: nothing to do, the array is changed, or there is no space left.
pub data SortedOutcome : Type 0 where
  unchanged : SortedOutcome
  changed : Changes → SortedOutcome
  no_space : SortedOutcome

-- `makeBlockChange` behind its binary search.
unfoldable pub store_at : Bool → Changes → Place → ℕ → Position → SortedOutcome
store_at is_base_block s p block (existing i) =
    if is_base_block
    then changed
        (record { entries = shift_entries_left (s.count - 1 - i) i s.entries; count = s.count - 1 })
    else changed
        (record { entries = update s.entries i (set_block block (s.entries i)); count = s.count })
store_at is_base_block s p block (insert_pos i) =
    if is_base_block
    then unchanged
    else if leb max_block_changes s.count
    then no_space
    else changed (record {
      entries = update (shift_entries_right (s.count - i) i s.entries) i (change_at p block);
      count = s.count + 1;
    })

-- `makeBlockChange` from the binary search on; `is_base_block` is the comparison with the terrain.
unfoldable pub store_sorted_change : Bool → Changes → Place → ℕ → SortedOutcome
unfolding store_at
store_sorted_change is_base_block s p block =
    store_at is_base_block s p block (binary_search_block_change s p)
