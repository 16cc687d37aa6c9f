-- ===== src/World/Sorted/Search.antt =====
-- The binary search of procedures.c.
use macintosh_craft.Base.{
  ℕ, zero, suc, ◌+◌, ◌-◌, ◌/◌, ◌≤◌, ◌<◌, ◌≡◌, refl, sym, ap, ◌∙◌, true, false, inl, inr, arith,
  Bool-cases, ltb, ltb→lt,
}
use native.Mathlib.Decide.{ℕ_discrete, dec_lt}
use mathlib.Core.Path.{subst}
use macintosh_craft.World.Changes.{BlockChange, Changes, Place, gap, is_at, max_block_changes}
use macintosh_craft.World.Sorted.{
  Position, existing, insert_pos, search_loop, binary_search_block_change, get_sorted_change,
}
use macintosh_craft.World.Sorted.Order.{
  place_of, Earlier, Earlier-trans, compare_view, Earlier-at, at-Earlier, Earlier-both,
}

-- Strictly ascending, so with one entry at most for each place.
pub record IsSorted (s : Changes) : Type 0 where
  pub bounded : s.count ≤ max_block_changes
  pub ordered :
      (i j : ℕ) → i < j → j < s.count → Earlier (place_of (s.entries i)) (place_of (s.entries j))

-- The entry of a place, or the index that separates the earlier entries from the later ones.
pub data IsLocated (s : Changes) (p : Place) : Position → Type 0 where
  at_existing : (j : ℕ) → j < s.count → is_at (s.entries j) p ≡ true → IsLocated s p (existing j)
  at_insert :
      (i : ℕ)
      → i ≤ s.count
      → ((k : ℕ) → k < i → Earlier (place_of (s.entries k)) p)
      → ((k : ℕ) → i ≤ k → k < s.count → Earlier p (place_of (s.entries k)))
      → IsLocated s p (insert_pos i)

module _ (s : Changes) (p : Place) (v : IsSorted s) where
  up_to :
      (m k : ℕ)
      → m < s.count
      → Earlier (place_of (s.entries m)) p
      → k < m + 1
      → Earlier (place_of (s.entries k)) p
  up_to m k hm e h = elim (ℕ_discrete k m) [
    | yes q ↦ subst (λ x. Earlier (place_of (s.entries x)) p) (sym q) e
    | no ne ↦ Earlier-trans (v.ordered k m (omega arith) hm) e
  ]

  from_on :
      (m k : ℕ)
      → Earlier p (place_of (s.entries m))
      → m ≤ k
      → k < s.count
      → Earlier p (place_of (s.entries k))
  from_on m k e h hk = elim (ℕ_discrete m k) [
    | yes q ↦ subst (λ x. Earlier p (place_of (s.entries x))) q e
    | no ne ↦ Earlier-trans e (v.ordered m k (omega arith) hk)
  ]

  search_loop-IsLocated :
      (n left end : ℕ)
      → end ≤ left + n
      → left ≤ end
      → end ≤ s.count
      → ((k : ℕ) → k < left → Earlier (place_of (s.entries k)) p)
      → ((k : ℕ) → end ≤ k → k < s.count → Earlier p (place_of (s.entries k)))
      → IsLocated s p (search_loop n s p left end)
  unfolding search_loop
  search_loop-IsLocated zero left end small order within below above =
      at_insert left (omega arith) below (λ k h. above k (omega arith))
  search_loop-IsLocated (suc n) left end small order within below above =
      let mid : ℕ = left + (end - 1 - left) / 2 in
      elim (Bool-cases (ltb left end)) [
        | inr over ↦ rw over (at_insert left (omega arith) below (λ k h. above k (ground arith)))
        | inl more ↦
            let inside : mid < end = omega (arith, ltb→lt left end more) in
            rw more (elim (compare_view p (s.entries mid)) [
              | inl (c, e) ↦ rw c (
                  search_loop-IsLocated n left mid (omega arith) (omega arith) (omega arith) below
                    (λ k. from_on mid k e))
              | inr (inl (c, at)) ↦ rw c (at_existing mid (omega arith) at)
              | inr (inr (c, e)) ↦ rw c (
                  search_loop-IsLocated n (mid + 1) end (omega arith) (omega arith) within
                    (λ k. up_to mid k (omega arith) e) above)
            ])
      ]

  pub search-IsLocated : IsLocated s p (binary_search_block_change s p)
  unfolding binary_search_block_change
  search-IsLocated =
      search_loop-IsLocated s.count 0 s.count (omega arith) (omega arith) (omega arith)
        (λ k h. absurd (omega arith)) (λ k h l. absurd (omega arith))

  -- A place has one entry at most.
  pub at_unique :
      (i j : ℕ)
      → i < s.count
      → j < s.count
      → is_at (s.entries i) p ≡ true
      → is_at (s.entries j) p ≡ true
      → i ≡ j
  at_unique i j hi hj ai aj = elim (ℕ_discrete i j) [
    | yes e ↦ e
    | no ne ↦ elim (dec_lt i j) [
      | yes l ↦ absurd (Earlier-both p (s.entries i) (s.entries j) ai aj (v.ordered i j l hj))
      | no l ↦
          absurd (Earlier-both p (s.entries j) (s.entries i) aj ai (v.ordered j i (omega arith) hi))
    ]
  ]

-- What is stored for a place, without the search: the block of an entry, or the gap.
pub data Reads (s : Changes) (p : Place) (r : ℕ) : Type 0 where
  entry :
      (j : ℕ) → j < s.count → is_at (s.entries j) p ≡ true → (s.entries j).block ≡ r → Reads s p r
  no_entry : ((k : ℕ) → k < s.count → is_at (s.entries k) p ≡ false) → r ≡ gap → Reads s p r

not_at : (p : Place) (e : BlockChange) → ¬ (is_at e p ≡ true) → is_at e p ≡ false
not_at p e h = elim (Bool-cases (is_at e p)) [ inl t ↦ absurd (h t) | inr t ↦ t ]

-- Outside the separating index there is no entry for the place.
pub located_none :
    (s : Changes) (p : Place) (i : ℕ)
    → ((k : ℕ) → k < i → Earlier (place_of (s.entries k)) p)
    → ((k : ℕ) → i ≤ k → k < s.count → Earlier p (place_of (s.entries k)))
    → (k : ℕ) → k < s.count
    → is_at (s.entries k) p ≡ false
located_none s p i below above k h = not_at p (s.entries k) (λ at. elim (dec_lt k i) [
  | yes l ↦ at-Earlier p (s.entries k) at (below k l)
  | no l ↦ Earlier-at p (s.entries k) at (above k (omega arith) h)
])

-- In a sorted array the search reads what is stored.
pub get-Reads :
    (s : Changes) (p : Place) (r : ℕ) → IsSorted s → Reads s p r → get_sorted_change s p ≡ r
unfolding get_sorted_change
get-Reads s p r v h = go (search-IsLocated s p v) h
  where
    go :
        {o : Position}
        → IsLocated s p o
        → Reads s p r
        → (elim o [ existing i ↦ (s.entries i).block | insert_pos _ ↦ gap ]) ≡ r
    go (at_existing j hj at) (entry k hk bt e) =
        ap (λ n. (s.entries n).block) (at_unique s p v j k hj hk at bt) ∙ e
    go (at_existing j hj at) (no_entry none_at e) = absurd (cc (at, none_at j hj))
    go (at_insert i hi below above) (entry k hk bt e) =
        absurd (cc (bt, located_none s p i below above k hk))
    go (at_insert i hi below above) (no_entry none_at e) = sym e

pub Reads-get : (s : Changes) (p : Place) → IsSorted s → Reads s p (get_sorted_change s p)
unfolding get_sorted_change
Reads-get s p v = go (search-IsLocated s p v)
  where
    go :
        {o : Position}
        → IsLocated s p o
        → Reads s p (elim o [ existing i ↦ (s.entries i).block | insert_pos _ ↦ gap ])
    go (at_existing j hj at) = entry j hj at refl
    go (at_insert i hi below above) = no_entry (located_none s p i below above) refl
