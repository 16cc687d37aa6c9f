-- ===== src/World/Changes/Plain.antt =====
-- The array of block changes while it holds no chest: what `getBlockChange` finds, as a relation
-- that does not mention the loops.
use macintosh_craft.Base.{ℕ, zero, suc, ◌+◌, ◌≤◌, ◌<◌, ◌≡◌, ◌≢◌, refl, true, false, ◌⊎◌}
use macintosh_craft.Base.{inl, inr, arith, Bool-cases, ◌==◌, ==_iff}
use macintosh_craft.Base.Below.{below_suc}
use macintosh_craft.World.Changes.{Changes, Place, gap, is_at, get_loop, get_block_change}
use macintosh_craft.World.Changes.{Scan, hit, miss, scan, max_block_changes}

abbrev pub IsLive : Changes → ℕ → Type 0
IsLive s i = (s.entries i).block ≢ gap

-- No chest among the entries, and no two live entries for one place.
pub record IsPlain (chest : ℕ) (s : Changes) : Type 0 where
  pub bounded : s.count ≤ max_block_changes
  pub no_chest : (i : ℕ) → i < s.count → (s.entries i).block ≢ chest
  pub distinct :
      (i j : ℕ) (p : Place)
      → i < s.count
      → j < s.count
      → IsLive s i
      → IsLive s j
      → is_at (s.entries i) p ≡ true
      → is_at (s.entries j) p ≡ true
      → i ≡ j

-- The place has the block `r` of a live entry, or has no live entry and `r` is the gap.
pub data Finds (s : Changes) (p : Place) (r : ℕ) : Type 0 where
  found :
      (j : ℕ)
      → j < s.count
      → IsLive s j
      → is_at (s.entries j) p ≡ true
      → (s.entries j).block ≡ r
      → Finds s p r
  absent :
      ((k : ℕ) → k < s.count → IsLive s k → is_at (s.entries k) p ≡ false) → r ≡ gap → Finds s p r

module _ (chest : ℕ) (s : Changes) (p : Place)
    (no_chest : (i : ℕ) → i < s.count → (s.entries i).block ≢ chest) where
  get_loop_found :
      (j : ℕ)
      → j < s.count
      → IsLive s j
      → is_at (s.entries j) p ≡ true
      → ((k : ℕ) → k < s.count → IsLive s k → is_at (s.entries k) p ≡ true → k ≡ j)
      → (fuel i : ℕ) → i ≤ j
      → s.count ≤ i + fuel
      → get_loop chest fuel s p i ≡ (s.entries j).block
  unfolding get_loop
  get_loop_found j jc live at unique zero i h c = absurd (omega arith)
  get_loop_found j jc live at unique (suc fuel) i h c =
      ground (arith, no_chest i, unique i, get_loop_found j jc live at unique fuel (i + 1))

  get_loop_absent :
      ((k : ℕ) → k < s.count → IsLive s k → is_at (s.entries k) p ≡ false)
      → (fuel i : ℕ) → get_loop chest fuel s p i ≡ gap
  unfolding get_loop
  get_loop_absent none_at zero i = refl
  get_loop_absent none_at (suc fuel) i =
      ground (arith, no_chest i, none_at i, get_loop_absent none_at fuel (i + 1))

pub get-Finds :
    (chest : ℕ) (s : Changes) (p : Place) (r : ℕ)
    → IsPlain chest s
    → Finds s p r
    → get_block_change chest s p ≡ r
unfolding get_block_change
get-Finds chest s p r v (found j jc live at e) =
    rw
      (get_loop_found chest s p v.no_chest j jc live at
        (λ k kc kl ka. v.distinct k j p kc jc kl live ka at) s.count 0 (omega arith) (omega arith))
      e
get-Finds chest s p r v (absent none_at e) =
    rw (get_loop_absent chest s p v.no_chest none_at s.count 0, e)

-- What the first loop of `makeBlockChange` knows when it ends.
pub data Scanned (s : Changes) (p : Place) : Scan → Type 0 where
  at_entry :
      (j g : ℕ) → j < s.count → IsLive s j → is_at (s.entries j) p ≡ true → Scanned s p (hit j g)
  at_end :
      (g : ℕ)
      → ((k : ℕ) → k < s.count → IsLive s k → is_at (s.entries k) p ≡ false)
      → (g ≡ s.count) ⊎ ((g < s.count) × ((s.entries g).block ≡ gap))
      → (g ≡ s.count → (k : ℕ) → k < s.count → IsLive s k)
      → Scanned s p (miss g)

scan-Scanned :
    (s : Changes) (p : Place) (n i g : ℕ)
    → n + i ≡ s.count
    → ((k : ℕ) → k < i → IsLive s k → is_at (s.entries k) p ≡ false)
    → (g ≡ s.count) ⊎ ((g < s.count) × ((s.entries g).block ≡ gap))
    → (g ≡ s.count → (k : ℕ) → k < i → IsLive s k)
    → Scanned s p (scan n s p i g)
unfolding scan
scan-Scanned s p zero i g e before gap_at all_live =
    at_end g (λ k h. before k (omega arith)) gap_at (λ e' k h. all_live e' k (omega arith))
scan-Scanned s p (suc n) i g e before gap_at all_live =
    elim (Bool-cases ((s.entries i).block == gap)) [
      | inl empty ↦ rw empty (elim (Bool-cases (g == s.count)) [
        | inl none_yet ↦ rw none_yet (
            scan-Scanned s p n (i + 1) i (omega arith)
              (below_suc _ i before (λ live. absurd (live ((==_iff _ gap).0 empty))))
              (inr (omega arith, (==_iff _ gap).0 empty)) (λ q. absurd (omega arith)))
        | inr some_gap ↦
            let later : g ≢ s.count = ground arith in
            rw some_gap (
              scan-Scanned s p n (i + 1) g (omega arith)
                (below_suc _ i before (λ live. absurd (live ((==_iff _ gap).0 empty)))) gap_at
                (λ q. absurd (later q)))
      ])
      | inr used ↦
          let live : IsLive s i = ground arith in
          rw used (elim (Bool-cases (is_at (s.entries i) p)) [
            | inl here ↦ rw here (at_entry i g (omega arith) live here)
            | inr other ↦ rw other (
                scan-Scanned s p n (i + 1) g (omega arith) (below_suc _ i before (λ _. other))
                  gap_at (λ q. below_suc _ i (all_live q) live))
          ])
    ]

-- Every run of the first loop, from the start of the array.
pub scan_all : (s : Changes) (p : Place) → Scanned s p (scan s.count s p 0 s.count)
scan_all s p =
    scan-Scanned s p s.count 0 s.count (omega arith) (λ k h. absurd (omega arith)) (inl refl)
      (λ q k h. absurd (omega arith))

Scanned-Finds : (s : Changes) (p : Place) {r : Scan} → Scanned s p r → (b : ℕ) × Finds s p b
Scanned-Finds s p (at_entry j g jc live at) = ((s.entries j).block, found j jc live at refl)
Scanned-Finds s p (at_end g none_at _ _) = (gap, absent none_at refl)

-- `getBlockChange` finds what it returns.
pub Finds-get :
    (chest : ℕ) (s : Changes) (p : Place) → IsPlain chest s → Finds s p (get_block_change chest s p)
Finds-get chest s p v =
    let (b, f) = Scanned-Finds s p (scan_all s p) in rw (get-Finds chest s p b v f) f
