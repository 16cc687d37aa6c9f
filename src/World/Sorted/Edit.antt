-- ===== src/World/Sorted/Edit.antt =====
-- The three ways in which the sorted `makeBlockChange` of procedures.c changes the array.
use macintosh_craft.Base.{
  ℕ, ◌+◌, ◌-◌, ◌≤◌, ◌<◌, ◌≡◌, ◌≢◌, refl, sym, ap, ◌∙◌, true, false, inl, inr, arith, Bool-cases,
  ltb, if◌then◌else◌, ltb→lt,
}
use native.Mathlib.Decide.{ℕ_discrete, dec_lt}
use macintosh_craft.Base.Array.{update, update_self, update_ne}
use macintosh_craft.World.Changes.{
  BlockChange, Changes, Place, gap, is_at, max_block_changes, set_block, change_at,
}
use macintosh_craft.World.Changes.Write.{same_place, at_of_same}
use macintosh_craft.World.Sorted.{shift_entries_left, shift_entries_right}
use macintosh_craft.World.Sorted.Order.{place_of, Earlier, shift_left_at, shift_right_at}
use macintosh_craft.World.Sorted.Search.{IsSorted, at_unique, Reads, entry, no_entry}

-- The three ways to change the array.
abbrev pub delete_at : Changes → ℕ → Changes
delete_at s i = record {
  entries = shift_entries_left (s.count - 1 - i) i s.entries;
  count = s.count - 1;
}

abbrev pub set_at : Changes → ℕ → ℕ → Changes
set_at s i b = record { entries = update s.entries i (set_block b (s.entries i)); count = s.count }

abbrev pub insert_at : Changes → ℕ → BlockChange → Changes
insert_at s i e = record {
  entries = update (shift_entries_right (s.count - i) i s.entries) i e;
  count = s.count + 1;
}

pub delete_below : (s : Changes) (i k : ℕ) → k < i → (delete_at s i).entries k ≡ s.entries k
delete_below s i k h = ground (arith, shift_left_at (s.count - 1 - i) i s.entries k)

pub delete_from :
    (s : Changes) (i k : ℕ)
    → i ≤ k
    → k < s.count - 1
    → (delete_at s i).entries k ≡ s.entries (k + 1)
delete_from s i k h l = ground (arith, shift_left_at (s.count - 1 - i) i s.entries k)

pub insert_below :
    (s : Changes) (i k : ℕ) (e : BlockChange) → k < i → (insert_at s i e).entries k ≡ s.entries k
insert_below s i k e h = ground (arith, shift_right_at (s.count - i) i s.entries k)

pub insert_here : (s : Changes) (i : ℕ) (e : BlockChange) → (insert_at s i e).entries i ≡ e
insert_here s i e = update_self (shift_entries_right (s.count - i) i s.entries) i e

pub insert_above :
    (s : Changes) (i k : ℕ) (e : BlockChange)
    → i < k
    → k ≤ s.count
    → (insert_at s i e).entries k ≡ s.entries (k - 1)
insert_above s i k e h l = ground (arith, shift_right_at (s.count - i) i s.entries k)

-- `t` has the entries of `s` that are not for the place `p`, and reads `new` at `p`.
pub record IsEdit (s t : Changes) (p : Place) (new : ℕ) : Type 0 where
  pub kept :
      (k : ℕ)
      → k < s.count
      → is_at (s.entries k) p ≡ false
      → (j : ℕ) × (j < t.count) × (t.entries j ≡ s.entries k)
  pub back :
      (j : ℕ)
      → j < t.count
      → is_at (t.entries j) p ≡ false
      → (k : ℕ) × (k < s.count) × (s.entries k ≡ t.entries j)
  pub here : Reads t p new

other_place :
    (e : BlockChange) (p q : Place) → is_at e q ≡ true → same_place p q ≡ false → is_at e p ≡ false
other_place e p q h k = ground arith

not_same :
    (e : BlockChange) (p q : Place) → is_at e p ≡ false → same_place p q ≡ true → is_at e q ≡ false
not_same e p q h k = ground arith

pub Reads-same :
    (t : Changes) (p q : Place) (r : ℕ) → same_place p q ≡ true → Reads t p r → Reads t q r
Reads-same t p q r same (entry j hj at e) = entry j hj (at_of_same (t.entries j) p q at same) e
Reads-same t p q r same (no_entry none_at e) =
    no_entry (λ k h. not_same (t.entries k) p q (none_at k h) same) e

module _ {s t : Changes} {p : Place} {new : ℕ} (ed : IsEdit s t p new) where
  Reads-other : (q : Place) (r : ℕ) → same_place p q ≡ false → Reads s q r → Reads t q r
  Reads-other q r other (entry k hk at e) =
      let (j, hj, u) = ed.kept k hk (other_place (s.entries k) p q at other) in
      entry j hj (rw u at) (rw u e)
  Reads-other q r other (no_entry none_at e) =
      no_entry
        (λ j hj. elim (Bool-cases (is_at (t.entries j) q)) [
          | inr f ↦ f
          | inl at ↦
              let (k, hk, u) = ed.back j hj (other_place (t.entries j) p q at other) in
              rw (← u) (none_at k hk)
        ])
        e

  pub edit-Reads : (q : Place) (r : ℕ) → Reads s q r → Reads t q (if same_place p q then new else r)
  edit-Reads q r h = elim (Bool-cases (same_place p q)) [
    | inl same ↦ rw same (Reads-same t p q new same ed.here)
    | inr other ↦ rw other (Reads-other q r other h)
  ]

module _ (s : Changes) (p : Place) (v : IsSorted s) where
  pub only :
      (i k : ℕ)
      → i < s.count
      → k < s.count
      → is_at (s.entries i) p ≡ true
      → k ≢ i
      → is_at (s.entries k) p ≡ false
  only i k hi hk at ne = elim (Bool-cases (is_at (s.entries k) p)) [
    | inl t ↦ absurd (ne (at_unique s p v k i hk hi t at))
    | inr f ↦ f
  ]

  pub apart : (i k : ℕ) → is_at (s.entries i) p ≡ true → is_at (s.entries k) p ≡ false → k ≢ i
  apart i k at f e = cc (at, ap (λ n. is_at (s.entries n) p) e, f)

  module _ (i : ℕ) (hi : i < s.count) (at : is_at (s.entries i) p ≡ true) where
    -- The entries behind a deleted one were one further.
    from : ℕ → ℕ
    from k = if ltb k i then k else k + 1

    from_view : (k : ℕ) → k < s.count - 1 → (delete_at s i).entries k ≡ s.entries (from k)
    unfolding from
    from_view k h = elim (Bool-cases (ltb k i)) [
      | inl t ↦ rw t (delete_below s i k (ltb→lt k i t))
      | inr t ↦ rw t (delete_from s i k (ground arith) h)
    ]

    from_lt : (j k : ℕ) → j < k → from j < from k
    unfolding from
    from_lt j k h = ground arith

    from_bound : (k : ℕ) → k < s.count - 1 → from k < s.count
    unfolding from
    from_bound k h = ground arith

    from_ne : (k : ℕ) → from k ≢ i
    unfolding from
    from_ne k e = ground arith

    pub delete-IsSorted : IsSorted (delete_at s i)
    delete-IsSorted = record {
      bounded = omega (arith, v.bounded);
      ordered = λ j k h l.
          rw (from_view j (omega arith), from_view k l)
            (v.ordered (from j) (from k) (from_lt j k h) (from_bound k l));
    }

    pub delete-IsEdit : IsEdit s (delete_at s i) p gap
    delete-IsEdit = record {
      kept = λ k hk f. elim (dec_lt k i) [
        | yes l ↦ (k, omega arith, delete_below s i k l)
        | no l ↦
            let ne = apart i k at f in
            (
              k - 1,
              omega arith,
              delete_from s i (k - 1) (omega arith) (omega arith) ∙ ap s.entries (omega arith),
            )
      ];
      back = λ j hj f. (from j, from_bound j hj, sym (from_view j hj));
      here =
          no_entry
            (λ k hk. rw (from_view k hk) (only i (from k) hi (from_bound k hk) at (from_ne k)))
            refl;
    }

  module _ (i b : ℕ) (hi : i < s.count) (at : is_at (s.entries i) p ≡ true) where
    changed_entry : (set_at s i b).entries i ≡ set_block b (s.entries i)
    changed_entry = update_self s.entries i (set_block b (s.entries i))

    other_entry : (k : ℕ) → k ≢ i → (set_at s i b).entries k ≡ s.entries k
    other_entry k ne =
        update_ne s.entries {i = i} {j = k} (set_block b (s.entries i)) (λ e. ne (sym e))

    place_kept : (k : ℕ) → place_of ((set_at s i b).entries k) ≡ place_of (s.entries k)
    place_kept k = elim (ℕ_discrete k i) [
      | yes e ↦ rw (e, changed_entry) refl
      | no ne ↦ rw (other_entry k ne) refl
    ]

    pub set-IsSorted : IsSorted (set_at s i b)
    set-IsSorted = record {
      bounded = v.bounded;
      ordered = λ j k h l. rw (place_kept j, place_kept k) (v.ordered j k h l);
    }

    pub set-IsEdit : IsEdit s (set_at s i b) p b
    set-IsEdit = record {
      kept = λ k hk f. (k, hk, other_entry k (apart i k at f));
      back = λ j hj f. elim (ℕ_discrete j i) [
        | yes e ↦ absurd (
            cc (
              f,
              ap (λ n. is_at ((set_at s i b).entries n) p) e,
              ap (λ x. is_at x p) changed_entry,
              at,
            ))
        | no ne ↦ (j, hj, sym (other_entry j ne))
      ];
      here = entry i hi (rw changed_entry at) (rw changed_entry refl);
    }

module _ (s : Changes) (p : Place) (b : ℕ) (v : IsSorted s) (i : ℕ) (hi : i ≤ s.count)
    (room : s.count < max_block_changes)
    (below : (k : ℕ) → k < i → Earlier (place_of (s.entries k)) p)
    (above : (k : ℕ) → i ≤ k → k < s.count → Earlier p (place_of (s.entries k))) where
  abbrev pub grown : Changes
  grown = insert_at s i (change_at p b)

  insert-ordered :
      (j k : ℕ)
      → j < k
      → k < s.count + 1
      → Earlier (place_of (grown.entries j)) (place_of (grown.entries k))
  insert-ordered j k h l = elim (dec_lt j i) [
    | yes ji ↦ rw (insert_below s i j (change_at p b) ji) (elim (dec_lt k i) [
      | yes ki ↦ rw (insert_below s i k (change_at p b) ki) (v.ordered j k h (omega arith))
      | no ki ↦ elim (ℕ_discrete k i) [
        | yes e ↦ rw (e, insert_here s i (change_at p b)) (below j ji)
        | no ne ↦
            rw (insert_above s i k (change_at p b) (omega arith) (omega arith))
              (v.ordered j (k - 1) (omega arith) (omega arith))
      ]
    ])
    | no ji ↦
        rw (insert_above s i k (change_at p b) (omega arith) (omega arith)) (elim (ℕ_discrete j i) [
          | yes e ↦
              rw (e, insert_here s i (change_at p b)) (above (k - 1) (omega arith) (omega arith))
          | no ne ↦
              rw (insert_above s i j (change_at p b) (omega arith) (omega arith))
                (v.ordered (j - 1) (k - 1) (omega arith) (omega arith))
        ])
  ]

  pub insert-IsSorted : IsSorted grown
  insert-IsSorted = record { bounded = omega arith; ordered = insert-ordered }

  at_own : is_at (change_at p b) p ≡ true
  at_own = ground arith

  pub insert-IsEdit : IsEdit s grown p b
  insert-IsEdit = record {
    kept = λ k hk f. elim (dec_lt k i) [
      | yes l ↦ (k, omega arith, insert_below s i k (change_at p b) l)
      | no l ↦ (
        k + 1,
        omega arith,
        insert_above s i (k + 1) (change_at p b) (omega arith) (omega arith)
            ∙ ap s.entries (omega arith),
      )
    ];
    back = λ j hj f. elim (dec_lt j i) [
      | yes l ↦ (j, omega arith, sym (insert_below s i j (change_at p b) l))
      | no l ↦ elim (ℕ_discrete j i) [
        | yes e ↦ absurd (
            cc (
              f,
              ap (λ n. is_at (grown.entries n) p) e,
              ap (λ x. is_at x p) (insert_here s i (change_at p b)),
              at_own,
            ))
        | no ne ↦ (
          j - 1,
          omega arith,
          sym (insert_above s i j (change_at p b) (omega arith) (omega arith)),
        )
      ]
    ];
    here =
        entry i (omega arith) (rw (insert_here s i (change_at p b)) at_own)
          (rw (insert_here s i (change_at p b)) refl);
  }
