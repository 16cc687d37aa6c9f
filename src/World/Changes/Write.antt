-- ===== src/World/Changes/Write.antt =====
-- One write to the array: what it does to every place, and that the array stays well formed.
use mathlib.Core.Path.{subst}
use macintosh_craft.Base.{ℕ, ◌+◌, ◌≤◌, ◌<◌, ◌≡◌, ◌≢◌, sym, ap, ◌∙◌, Bool, true, false, ◌&&◌, ◌⊎◌}
use macintosh_craft.Base.{inl, inr, arith, Bool-cases, ◌==◌, if◌then◌else◌}
use macintosh_craft.Base.Int.{eq_ℤ}
use macintosh_craft.Base.Array.{update, update_self, update_ne}
use macintosh_craft.World.Changes.{BlockChange, Changes, Place, gap, is_at, max_block_changes}
use macintosh_craft.World.Changes.Plain.{IsLive, IsPlain, Finds, found, absent}
use native.Mathlib.Decide.{ℕ_discrete}

abbrev pub same_place : Place → Place → Bool
same_place p q = eq_ℤ p.x q.x && (p.y == q.y && eq_ℤ p.z q.z)

pub same_of_at :
    (e : BlockChange) (p q : Place) → is_at e p ≡ true → is_at e q ≡ true → same_place p q ≡ true
same_of_at e p q h k = ground arith

pub at_of_same :
    (e : BlockChange) (p q : Place) → is_at e p ≡ true → same_place p q ≡ true → is_at e q ≡ true
at_of_same e p q h k = ground arith

not_at :
    (e : BlockChange) (p q : Place) → is_at e p ≡ true → same_place p q ≡ false → is_at e q ≡ false
not_at e p q h k = ground arith

pub at_back :
    (e : BlockChange) (p q : Place) → is_at e q ≡ true → same_place p q ≡ true → is_at e p ≡ true
at_back e p q h k = ground arith

-- `entries[j] = e`, where the count becomes `c`.
abbrev pub write : Changes → ℕ → BlockChange → ℕ → Changes
write s j e c = record { entries = update s.entries j e; count = c }

-- Index `j` is the only one that may have held the place `p`, and it now does.
pub record IsWrite (s : Changes) (p : Place) (j : ℕ) (e : BlockChange) (c : ℕ) : Type 0 where
  pub others : (k : ℕ) → k < s.count → IsLive s k → k ≢ j → is_at (s.entries k) p ≡ false
  pub old : j < s.count → IsLive s j → is_at (s.entries j) p ≡ true
  pub new : is_at e p ≡ true
  pub size : ((c ≡ s.count) × (j < s.count)) ⊎ ((c ≡ s.count + 1) × (j ≡ s.count))

module _ (s : Changes) (p : Place) (j : ℕ) (e : BlockChange) (c : ℕ) (w : IsWrite s p j e c) where
  IsLive-back :
      (k : ℕ)
      → k < c
      → k ≢ j
      → IsLive (write s j e c) k
      → (k < s.count) × IsLive s k × (update s.entries j e k ≡ s.entries k)
  IsLive-back k h ne live =
      let u = update_ne s.entries {i = j} {j = k} e (λ q. ne (omega arith)) in
      (omega (arith, w.size), rw u at live, u)

  at_j : update s.entries j e j ≡ e
  at_j = update_self s.entries j e

  -- No other entry is at the place.
  none_else :
      (q : Place)
      → same_place p q ≡ true
      → (k : ℕ) → k < c
      → k ≢ j
      → IsLive (write s j e c) k
      → is_at (update s.entries j e k) q ≡ false
  none_else q same k h ne live =
      let (ks, kl, u) = IsLive-back k h ne live in
      rw u (elim (Bool-cases (is_at (s.entries k) q)) [
        | inl t ↦ let back = at_back (s.entries k) p q t same in cc (w.others k ks kl ne, back)
        | inr f ↦ f
      ])

  Finds-same : (q : Place) → same_place p q ≡ true → Finds (write s j e c) q e.block
  Finds-same q same = elim (ℕ_discrete e.block gap) [
    | yes g ↦
        absent
          (λ k h live. elim (ℕ_discrete k j) [
            | yes here ↦
                absurd (
                  live (ap (λ i. (update s.entries j e i).block) here ∙ ap (λ a. a.block) at_j ∙ g))
            | no ne ↦ none_else q same k h ne live
          ])
          g
    | no alive ↦
        found j (omega (arith, w.size)) (rw at_j alive) (rw at_j (at_of_same e p q w.new same))
          (ap (λ a. a.block) at_j)
  ]

  Finds-other :
      (q : Place) (r : ℕ) → same_place p q ≡ false → Finds s q r → Finds (write s j e c) q r
  Finds-other q r other (found k kc live at b) =
      let ne : j ≢ k = λ same. cc (
        other,
        same_of_at (s.entries k) p q
            (subst (λ i. is_at (s.entries i) p ≡ true) same
              (w.old (omega arith) (subst (λ i. IsLive s i) (sym same) live)))
            at,
      ) in
      let u = update_ne s.entries {i = j} {j = k} e ne in
      found k (omega (arith, w.size)) (rw u live) (rw u at) (rw u b)
  Finds-other q r other (absent none_at g) =
      absent
        (λ k h live. elim (ℕ_discrete k j) [
          | yes here ↦ rw (here, at_j) (not_at e p q w.new other)
          | no ne ↦ let (ks, kl, u) = IsLive-back k h ne live in rw u (none_at k ks kl)
        ])
        g

  -- The place reads back the new block, and any other place what it read before.
  pub write-Finds :
      (q : Place) (r : ℕ)
      → Finds s q r
      → Finds (write s j e c) q (if same_place p q then e.block else r)
  write-Finds q r f = elim (Bool-cases (same_place p q)) [
    | inl same ↦ rw same (Finds-same q same)
    | inr other ↦ rw other (Finds-other q r other f)
  ]

  -- A live entry other than `j` is for another place than `p`.
  only_j :
      (k : ℕ) (q : Place)
      → k < c
      → IsLive (write s j e c) k
      → is_at (update s.entries j e k) q ≡ true
      → is_at e q ≡ true
      → k ≡ j
  only_j k q h live at new = elim (ℕ_discrete k j) [
    | yes here ↦ here
    | no ne ↦ absurd (cc (none_else q (same_of_at e p q w.new new) k h ne live, at))
  ]

  pub write-IsPlain :
      (chest : ℕ)
      → IsPlain chest s
      → e.block ≢ chest
      → c ≤ max_block_changes
      → IsPlain chest (write s j e c)
  write-IsPlain chest v plain fits = record {
    bounded = fits;
    no_chest = λ i h. elim (ℕ_discrete i j) [
      | yes here ↦ rw (here, at_j) plain
      | no ne ↦
          rw (update_ne s.entries {i = j} {j = i} e (λ q. ne (sym q)))
            (v.no_chest i (omega (arith, w.size)))
    ];
    distinct = λ a b q ha hb la lb ta tb. elim (ℕ_discrete a j) [
      | yes here ↦ here ∙ sym (only_j b q hb lb tb (rw (here, at_j) at ta))
      | no na ↦ elim (ℕ_discrete b j) [
        | yes here ↦ absurd (na (only_j a q ha la ta (rw (here, at_j) at tb)))
        | no nb ↦
            let (as', al, ua) = IsLive-back a ha na la in
            let (bs', bl, ub) = IsLive-back b hb nb lb in
            v.distinct a b q as' bs' al bl (rw ua at ta) (rw ub at tb)
      ]
    ];
  }
