-- ===== src/World/Store/Arrays.antt =====
-- The unsorted and the sorted array of procedures.c as implementations of one interface.
use macintosh_craft.Base.{
  ℕ, ◌+◌, ◌≤◌, ◌<◌, ◌≡◌, ◌≢◌, refl, ap, Bool, Option, none, some, List, length, inl, inr, arith,
  Bool-cases,
}
use mathlib.Core.Path.{subst}
use macintosh_craft.World.Blocks.Reads.{Outcome-cases}
use macintosh_craft.World.Changes.{
  Changes, Place, Outcome, stored, full, gap, blank, set_block, max_block_changes, Scan, hit, miss,
  scan, store_change, after_scan, replace, store_new, store_plain, get_block_change,
}
use macintosh_craft.World.Changes.Plain.{IsPlain}
use macintosh_craft.World.Changes.MapLaw.{
  get-store_change, store_change-IsPlain, store_change-refused,
}
use macintosh_craft.World.Changes.Write.{same_place}
use macintosh_craft.World.Sorted.{
  search_loop, binary_search_block_change, Position, existing, insert_pos, store_at, SortedOutcome,
  unchanged, changed, no_space, store_sorted_change, get_sorted_change,
}
use macintosh_craft.World.Sorted.Search.{IsSorted}
use macintosh_craft.World.Sorted.Law.{
  edited, untouched, out_of_space, get_sorted-none, store_sorted_change-law,
  store_sorted_change-StoresSorted,
}
use macintosh_craft.World.Store.{
  ChangeStore, Request, apply_request, apply_requests, write_all, write_all-start, NoChests,
}

-- The arrays as the server starts with them, without a world on disk.
abbrev pub no_changes : Changes
no_changes = record { entries = λ _. set_block gap blank; count = 0 }

abbrev pub accepted : Outcome → Option Changes
accepted (stored t) = some t
accepted (full t) = none

-- A change that has nothing to do leaves the array as it is.
abbrev pub accepted_sorted : Changes → SortedOutcome → Option Changes
accepted_sorted s unchanged = some s
accepted_sorted s (changed t) = some t
accepted_sorted s no_space = none

count_of : Outcome → ℕ
count_of (stored t) = t.count
count_of (full t) = t.count

module _ (chest : ℕ) where
  count_of-after_scan :
      (b : Bool) (s : Changes) (p : Place) (block : ℕ) (r : Scan)
      → block ≢ chest
      → count_of (after_scan chest b s p block r) ≤ s.count + 1
  unfolding count_of after_scan replace store_new store_plain
  count_of-after_scan b s p block (hit i g) plain = ground arith
  count_of-after_scan b s p block (miss g) plain = ground arith

  stored_count :
      (b : Bool) (s t : Changes) (p : Place) (block : ℕ)
      → block ≢ chest
      → store_change chest b s p block ≡ stored t
      → t.count ≤ s.count + 1
  unfolding count_of store_change
  stored_count b s t p block plain h =
      subst (λ o. count_of o ≤ s.count + 1) h
        (count_of-after_scan b s p block (scan s.count s p 0 s.count) plain)

  pub accepted-law :
      (solid : chest ≢ gap)
      → (r : Request) (s : Changes) → IsPlain chest s
      → r.block ≢ chest
      → s.count < max_block_changes
      → (t : Changes) × (accepted (store_change chest r.is_base_block s r.place r.block) ≡ some t)
        × IsPlain chest t
        × (t.count ≤ s.count + 1)
        × ((q : Place) → get_block_change chest t q ≡ apply_request r (get_block_change chest s) q)
  unfolding apply_request
  accepted-law solid r s v plain room =
      elim (Outcome-cases (store_change chest r.is_base_block s r.place r.block)) [
        | inl (t, e) ↦ (
          t,
          ap accepted e,
          store_change-IsPlain chest r.is_base_block s t r.place r.block v plain solid e,
          stored_count r.is_base_block s t r.place r.block plain e,
          λ q. get-store_change chest r.is_base_block s t r.place q r.block v plain solid e,
        )
        | inr (t, e) ↦
            let (_, f, _) =
              store_change-refused chest r.is_base_block s t r.place r.block v plain solid e in
            absurd (omega (arith, f.0))
      ]

count_of_sorted : ℕ → SortedOutcome → ℕ
count_of_sorted n (changed t) = t.count
count_of_sorted n unchanged = n
count_of_sorted n no_space = n

count_of-store_at :
    (b : Bool) (s : Changes) (p : Place) (block : ℕ) (o : Position)
    → count_of_sorted s.count (store_at b s p block o) ≤ s.count + 1
unfolding count_of_sorted store_at
count_of-store_at b s p block (existing i) = ground arith
count_of-store_at b s p block (insert_pos i) = ground arith

sorted_count :
    (b : Bool) (s t : Changes) (p : Place) (block : ℕ)
    → store_sorted_change b s p block ≡ changed t
    → t.count ≤ s.count + 1
unfolding count_of_sorted store_sorted_change
sorted_count b s t p block h =
    subst (λ o. count_of_sorted s.count o ≤ s.count + 1) h
      (count_of-store_at b s p block (binary_search_block_change s p))

pub accepted_sorted-law :
    (r : Request) (s : Changes)
    → IsSorted s
    → s.count < max_block_changes
    → (t : Changes) × (accepted_sorted s (store_sorted_change r.is_base_block s r.place r.block)
        ≡ some t)
      × IsSorted t
      × (t.count ≤ s.count + 1)
      × ((q : Place) → get_sorted_change t q ≡ apply_request r (get_sorted_change s) q)
unfolding apply_request
accepted_sorted-law r s v room =
    elim (store_sorted_change-StoresSorted r.is_base_block s r.place r.block v) [
      | edited t e u ed ↦ (
        t,
        ap (accepted_sorted s) e,
        u,
        sorted_count r.is_base_block s t r.place r.block e,
        λ q. (store_sorted_change-law r.is_base_block s t r.place q r.block v e).1,
      )
      | untouched e b none_at ↦ (
        s,
        ap (accepted_sorted s) e,
        v,
        omega arith,
        λ q. elim (Bool-cases (same_place r.place q)) [
          | inl same ↦ rw (same, b) (get_sorted-none s r.place q v none_at same)
          | inr other ↦ rw other refl
        ],
      )
      | out_of_space _ _ all _ ↦ absurd (omega arith)
    ]

pub no_changes-IsPlain : (chest : ℕ) → IsPlain chest no_changes
no_changes-IsPlain chest = record {
  bounded = omega arith;
  no_chest = λ i h. absurd (omega arith);
  distinct = λ i j p h. absurd (omega arith);
}

pub no_changes-IsSorted : IsSorted no_changes
no_changes-IsSorted = record { bounded = omega arith; ordered = λ i j h l. absurd (omega arith) }

unfoldable pub unsorted_array : (chest : ℕ) → chest ≢ gap → ChangeStore chest Changes
unfolding get_block_change
unsorted_array chest solid = record {
  IsValid = IsPlain chest;
  size = λ s. s.count;
  read = get_block_change chest;
  write = λ r s. accepted (store_change chest r.is_base_block s r.place r.block);
  start = no_changes;
  start-IsValid = no_changes-IsPlain chest;
  start_size = refl;
  read_start = λ q. refl;
  write_law = accepted-law chest solid;
}

unfoldable pub sorted_array : (chest : ℕ) → ChangeStore chest Changes
unfolding get_sorted_change binary_search_block_change search_loop
sorted_array chest = record {
  IsValid = IsSorted;
  size = λ s. s.count;
  read = get_sorted_change;
  write = λ r s. accepted_sorted s (store_sorted_change r.is_base_block s r.place r.block);
  start = no_changes;
  start-IsValid = no_changes-IsSorted;
  start_size = refl;
  read_start = λ q. refl;
  write_law = λ r s v plain room. accepted_sorted-law r s v room;
}

-- If 0xFF is no chest, any sequence of block changes without chests that fits, done from the start, is accepted by the
-- unsorted and by the sorted array, and afterwards both read the same at every place, which is what
-- a map that is updated with the changes one by one holds.
pub arrays-refine :
    (chest : ℕ) (solid : chest ≢ gap) (rs : List Request)
    → NoChests chest rs
    → length rs ≤ max_block_changes
    → (s t : Changes) × (write_all (unsorted_array chest solid) rs no_changes ≡ some s)
      × (write_all (sorted_array chest) rs no_changes ≡ some t)
      × ((q : Place)
          → (get_block_change chest s q ≡ apply_requests rs (λ _. gap) q)
            × (get_sorted_change t q ≡ apply_requests rs (λ _. gap) q))
unfolding unsorted_array sorted_array
arrays-refine chest solid rs plain room =
    let (s, e, f) = write_all-start (unsorted_array chest solid) rs plain room in
    let (t, g, h) = write_all-start (sorted_array chest) rs plain room in
    (s, t, e, g, λ q. (f q, h q))
