-- ===== src/World/Sorted/Law.antt =====
-- The sorted `makeBlockChange` and `getBlockChange` of procedures.c as operations on a map.
use macintosh_craft.Base.{
  ℕ, ◌<◌, ◌≡◌, refl, sym, ◌∙◌, Bool, true, false, inl, inr, arith, Bool-cases, leb, if◌then◌else◌,
  leb→le,
}
use mathlib.Core.Path.{subst}
use macintosh_craft.World.Changes.{Changes, Place, gap, is_at, max_block_changes}
use macintosh_craft.World.Changes.Write.{same_place}
use macintosh_craft.World.Sorted.{
  Position, SortedOutcome, unchanged, changed, no_space, store_at, store_sorted_change,
  get_sorted_change,
}
use macintosh_craft.World.Sorted.Search.{
  IsSorted, IsLocated, at_existing, at_insert, search-IsLocated, no_entry, located_none, get-Reads,
  Reads-get,
}
use macintosh_craft.World.Sorted.Edit

-- What the place has after a change.
abbrev pub stored_block : Bool → ℕ → ℕ
stored_block is_base block = if is_base then gap else block

module _ (is_base : Bool) (s : Changes) (p : Place) (block : ℕ) (v : IsSorted s) where
  -- The array afterwards is sorted and an edit of the one before, or nothing is stored.
  pub data StoresSorted (o : SortedOutcome) : Type 0 where
    edited :
        (t : Changes)
        → o ≡ changed t
        → IsSorted t
        → Edit.IsEdit s t p (stored_block is_base block)
        → StoresSorted o
    untouched :
        o ≡ unchanged
        → is_base ≡ true
        → ((k : ℕ) → k < s.count → is_at (s.entries k) p ≡ false)
        → StoresSorted o
    out_of_space :
        o ≡ no_space
        → is_base ≡ false
        → s.count ≡ max_block_changes
        → ((k : ℕ) → k < s.count → is_at (s.entries k) p ≡ false)
        → StoresSorted o

  store_at-StoresSorted :
      {o : Position} → IsLocated s p o → StoresSorted (store_at is_base s p block o)
  unfolding store_at
  store_at-StoresSorted (at_existing i hi at) = elim (Bool-cases is_base) [
    | inl b ↦ rw b (
        edited (Edit.delete_at s i) refl (Edit.delete-IsSorted s p v i hi at)
          (Edit.delete-IsEdit s p v i hi at))
    | inr b ↦ rw b (
        edited (Edit.set_at s i block) refl (Edit.set-IsSorted s p v i block hi at)
          (Edit.set-IsEdit s p v i block hi at))
  ]
  store_at-StoresSorted (at_insert i hi below above) = elim (Bool-cases is_base) [
    | inl b ↦ rw b (untouched refl refl (located_none s p i below above))
    | inr b ↦ elim (Bool-cases (leb max_block_changes s.count)) [
      | inl out ↦
          rw (b, out)
            (out_of_space refl refl (omega (arith, v.bounded, leb→le max_block_changes s.count out))
              (located_none s p i below above))
      | inr room ↦
          let fits : s.count < max_block_changes = ground arith in
          rw (b, room)
            (edited (Edit.grown s p block v i hi fits below above) refl
              (Edit.insert-IsSorted s p block v i hi fits below above)
              (Edit.insert-IsEdit s p block v i hi fits below above))
    ]
  ]

  pub store_sorted_change-StoresSorted : StoresSorted (store_sorted_change is_base s p block)
  unfolding store_sorted_change
  store_sorted_change-StoresSorted = store_at-StoresSorted (search-IsLocated s p v)

changed-injective : {s t : Changes} → changed s ≡ changed t → s ≡ t
changed-injective e = cc

-- When the sorted `makeBlockChange` changes a sorted array, the array stays sorted and within its
-- size, the binary search finds the new block at the place, or nothing if the block is what the
-- terrain has there, and it finds at every other place what it found before.
pub store_sorted_change-law :
    (is_base : Bool) (s t : Changes) (p q : Place) (block : ℕ)
    → IsSorted s
    → store_sorted_change is_base s p block ≡ changed t
    → IsSorted t
      × (get_sorted_change t q
          ≡ (if same_place p q then (if is_base then gap else block) else get_sorted_change s q))
store_sorted_change-law is_base s t p q block v h =
    go (store_sorted_change-StoresSorted is_base s p block v)
  where
    go :
        StoresSorted is_base s p block v (store_sorted_change is_base s p block)
        → IsSorted t
          × (get_sorted_change t q
              ≡ (if same_place p q then stored_block is_base block else get_sorted_change s q))
    go (edited t' e u ed) =
        subst
          (λ x.
            IsSorted x
            × (get_sorted_change x q
                ≡ (if same_place p q then stored_block is_base block else get_sorted_change s q)))
          (changed-injective (sym e ∙ h))
          (u, get-Reads t' q _ u (Edit.edit-Reads ed q (get_sorted_change s q) (Reads-get s q v)))
    go (untouched e _ _) = absurd (cc)
    go (out_of_space e _ _ _) = absurd (cc)

-- Without an entry for the place, nothing is found there.
pub get_sorted-none :
    (s : Changes) (p q : Place)
    → IsSorted s
    → ((k : ℕ) → k < s.count → is_at (s.entries k) p ≡ false)
    → same_place p q ≡ true
    → get_sorted_change s q ≡ gap
get_sorted-none s p q v none_at same =
    get-Reads s q gap v (Edit.Reads-same s p q gap same (no_entry none_at refl))
