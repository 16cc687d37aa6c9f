-- ===== src/World/Changes/MapLaw.antt =====
-- `makeBlockChange` and `getBlockChange` of procedures.c as operations on a map.
use mathlib.Core.Path.{subst}
use macintosh_craft.Base.{ℕ, ◌+◌, ◌<◌, ◌≡◌, ◌≢◌, refl, Bool, true, false, ◌⊎◌, inl, inr, arith}
use macintosh_craft.Base.{Bool-cases, ==→eq, sym, ◌∙◌, ◌↔◌, ◌==◌, if◌then◌else◌}
use macintosh_craft.World.Changes.{Changes, Place, Outcome, stored, full, gap, is_at, set_block}
use macintosh_craft.World.Changes.{change_at, max_block_changes, store_change, after_scan, replace}
use macintosh_craft.World.Changes.{store_new, store_plain, Scan, get_block_change}
use macintosh_craft.World.Changes.Plain.{
  IsLive, IsPlain, Finds, found, absent, get-Finds, Finds-get,
}
use macintosh_craft.World.Changes.Plain.{Scanned, at_entry, at_end, scan_all}
use macintosh_craft.World.Changes.Write.{
  at_back, same_place, write, IsWrite, write-Finds, write-IsPlain,
}

-- The array is full: no gap is left, and the place has no entry.
abbrev pub IsFull : Changes → Place → Type 0
IsFull s p =
    (s.count ≡ max_block_changes)
    × ((k : ℕ) → k < s.count → IsLive s k)
    × ((k : ℕ) → k < s.count → IsLive s k → is_at (s.entries k) p ≡ false)

module _ (chest : ℕ) (is_base : Bool) (s : Changes) (p : Place) (block : ℕ) where
  -- `t` is `s` with the place changed, as a map.
  abbrev Obeys : Changes → Type 0
  Obeys t =
      (q : Place) (r : ℕ)
      → Finds s q r
      → Finds t q (if same_place p q then (if is_base then gap else block) else r)

  -- What is stored reads back at the place, or the array is full.
  data Stores (o : Outcome) : Type 0 where
    done :
        (t : Changes)
        → o ≡ stored t
        → IsPlain chest t
        → ((q : Place) (r : ℕ)
            → Finds s q r
            → Finds t q (if same_place p q then (if is_base then gap else block) else r))
        → Stores o
    refused :
        o ≡ full s
        → is_base ≡ false
        → s.count ≡ max_block_changes
        → ((k : ℕ) → k < s.count → IsLive s k)
        → ((k : ℕ) → k < s.count → IsLive s k → is_at (s.entries k) p ≡ false)
        → Stores o

module _ (chest : ℕ) (s : Changes) (p : Place) (block : ℕ) (v : IsPlain chest s)
    (plain : block ≢ chest) (solid : chest ≢ gap) where
  hit-IsWrite :
      (j b : ℕ)
      → j < s.count
      → IsLive s j
      → is_at (s.entries j) p ≡ true
      → IsWrite s p j (set_block b (s.entries j)) s.count
  hit-IsWrite j b jc live at = record {
    others = λ k kc kl ne. elim (Bool-cases (is_at (s.entries k) p)) [
      | inl t ↦ absurd (ne (v.distinct k j p kc jc kl live t at))
      | inr f ↦ f
    ];
    old = λ _ _. at;
    new = at;
    size = inl (refl, jc);
  }

  replace_plain :
      (is_base : Bool) (j g : ℕ)
      → j < s.count
      → replace chest is_base s p block j g
        ≡ stored (write s j (set_block (if is_base then gap else block) (s.entries j)) s.count)
  unfolding replace
  replace_plain is_base j g jc = ground (arith, v.no_chest j jc)

  -- With no entry for the place, it reads as the gap.
  none-Finds :
      (q : Place) (r : ℕ)
      → ((k : ℕ) → k < s.count → IsLive s k → is_at (s.entries k) p ≡ false)
      → same_place p q ≡ true
      → Finds s q r
      → r ≡ gap
  none-Finds q r none_at same (found j jc live at e) =
      let none : is_at (s.entries j) p ≡ false = none_at j jc live in
      let back = at_back (s.entries j) p q at same in cc
  none-Finds q r none_at same (absent _ e) = e

  keep-Finds :
      (q : Place) (r : ℕ)
      → ((k : ℕ) → k < s.count → IsLive s k → is_at (s.entries k) p ≡ false)
      → Finds s q r
      → Finds s q (if same_place p q then gap else r)
  keep-Finds q r none_at f = elim (Bool-cases (same_place p q)) [
    | inl same ↦ rw (same, ← none-Finds q r none_at same f) f
    | inr other ↦ rw other f
  ]

  miss-IsWrite :
      (g c : ℕ)
      → ((k : ℕ) → k < s.count → IsLive s k → is_at (s.entries k) p ≡ false)
      → (g < s.count → (s.entries g).block ≡ gap)
      → ((c ≡ s.count) × (g < s.count)) ⊎ ((c ≡ s.count + 1) × (g ≡ s.count))
      → IsWrite s p g (change_at p block) c
  miss-IsWrite g c none_at dead size = record {
    others = λ k kc kl _. none_at k kc kl;
    old = λ gc live. absurd (live (dead gc));
    new = ground arith;
    size = size;
  }

  after_scan-Stores :
      (is_base : Bool) {r : Scan}
      → Scanned s p r
      → Stores chest is_base s p block (after_scan chest is_base s p block r)
  unfolding after_scan store_new store_plain
  after_scan-Stores is_base (at_entry j g jc live at) =
      let b : ℕ = if is_base then gap else block in
      let w = hit-IsWrite j b jc live at in
      done _ (replace_plain is_base j g jc)
        (write-IsPlain s p j _ _ w chest v (ground arith) v.bounded) (write-Finds s p j _ _ w)
  after_scan-Stores true (at_end g none_at gap_at all_live) =
      done s refl v (λ q r f. keep-Finds q r none_at f)
  after_scan-Stores false (at_end g none_at gap_at all_live) =
      let c : ℕ = if g == s.count then s.count + 1 else s.count in
      elim (Bool-cases (g == max_block_changes)) [
        | inl out ↦
            refused (ground arith) refl (omega (arith, ==→eq, v.bounded))
              (all_live (omega (arith, ==→eq, v.bounded))) none_at
        | inr room ↦
            let w = miss-IsWrite g c none_at (λ gc. omega (arith, gap_at)) (ground arith) in
            done (write s g (change_at p block) c) (ground arith)
              (write-IsPlain s p g _ _ w chest v plain (ground (arith, v.bounded)))
              (write-Finds s p g _ _ w)
      ]

  full_of : {r : Scan} → Scanned s p r → IsFull s p → after_scan chest false s p block r ≡ full s
  unfolding after_scan store_new store_plain
  full_of (at_entry j g jc live at) f = absurd (cc (f.2 j jc live, at))
  full_of (at_end g _ gap_at _) f = let last = last_gap g f.1 gap_at in ground arith
    where
      last_gap :
          (g : ℕ)
          → ((k : ℕ) → k < s.count → IsLive s k)
          → (g ≡ s.count) ⊎ ((g < s.count) × ((s.entries g).block ≡ gap))
          → g ≡ s.count
      last_gap g all (inl e) = e
      last_gap g all (inr (h, dead)) = absurd (all g h dead)

stored-injective : {s t : Changes} → stored s ≡ stored t → s ≡ t
stored-injective e = cc

full-injective : {s t : Changes} → full s ≡ full t → s ≡ t
full-injective e = cc

module _ (chest : ℕ) (s : Changes) (p : Place) (block : ℕ) (v : IsPlain chest s)
    (plain : block ≢ chest) (solid : chest ≢ gap) (is_base : Bool) where
  store_change-Stores : Stores chest is_base s p block (store_change chest is_base s p block)
  unfolding store_change
  store_change-Stores = after_scan-Stores chest s p block v plain solid is_base (scan_all s p)

  stored_law :
      {t : Changes} {o : Outcome}
      → Stores chest is_base s p block o
      → o ≡ stored t
      → IsPlain chest t × Obeys chest is_base s p block t
  stored_law {t} (done t' e u f) h =
      subst (λ x. IsPlain chest x × Obeys chest is_base s p block x) (stored-injective (sym e ∙ h))
        (u, f)
  stored_law (refused e _ _ _ _) h = absurd (cc)

  refused_law :
      {o : Outcome} {t : Changes}
      → Stores chest is_base s p block o
      → o ≡ full t
      → (is_base ≡ false) × IsFull s p × (t ≡ s)
  refused_law (done t e _ _) h = absurd (cc)
  refused_law (refused e b c all none_at) h = (b, (c, all, none_at), full-injective (sym h ∙ e))

-- A refused change leaves the array alone.
pub store_change-refused :
    (chest : ℕ) (is_base : Bool) (s t : Changes) (p : Place) (block : ℕ)
    → IsPlain chest s
    → block ≢ chest
    → chest ≢ gap
    → store_change chest is_base s p block ≡ full t
    → (is_base ≡ false) × IsFull s p × (t ≡ s)
store_change-refused chest is_base s t p block v plain solid h =
    refused_law chest s p block v plain solid is_base
      (store_change-Stores chest s p block v plain solid is_base) h

-- Without chests, a successful `makeBlockChange` makes the place read as the new block, or as
-- unchanged terrain (the gap) if that is what the block is, and leaves every other place as it was.
pub get-store_change :
    (chest : ℕ) (is_base : Bool) (s t : Changes) (p q : Place) (block : ℕ)
    → IsPlain chest s
    → block ≢ chest
    → chest ≢ gap
    → store_change chest is_base s p block ≡ stored t
    → get_block_change chest t q
      ≡ (if same_place p q then (if is_base then gap else block) else get_block_change chest s q)
get-store_change chest is_base s t p q block v plain solid h =
    let (u, law) =
      stored_law chest s p block v plain solid is_base
        (store_change-Stores chest s p block v plain solid is_base) h in
    get-Finds chest t q _ u (law q _ (Finds-get chest s q v))

-- A successful `makeBlockChange` of a block that is no chest keeps the array without chests, with
-- one live entry at most for each place and no more entries than fit.
pub store_change-IsPlain :
    (chest : ℕ) (is_base : Bool) (s t : Changes) (p : Place) (block : ℕ)
    → IsPlain chest s
    → block ≢ chest
    → chest ≢ gap
    → store_change chest is_base s p block ≡ stored t
    → IsPlain chest t
store_change-IsPlain chest is_base s t p block v plain solid h =
    (stored_law chest s p block v plain solid is_base
      (store_change-Stores chest s p block v plain solid is_base) h).0

-- Without chests, `makeBlockChange` of a block that is no chest fails exactly when the block differs
-- from the terrain, the place has no entry, and all `max_block_changes` entries are in use.
pub store_change-full_iff :
    (chest : ℕ) (is_base : Bool) (s : Changes) (p : Place) (block : ℕ)
    → IsPlain chest s
    → block ≢ chest
    → chest ≢ gap
    → (store_change chest is_base s p block ≡ full s) ↔ ((is_base ≡ false) × IsFull s p)
unfolding store_change
store_change-full_iff chest is_base s p block v plain solid = (
  λ h. let (b, f, _) = store_change-refused chest is_base s s p block v plain solid h in (b, f),
  λ h. rw h.0 (full_of chest s p block v plain solid (scan_all s p) h.1),
)
