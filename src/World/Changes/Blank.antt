-- ===== src/World/Changes/Blank.antt =====
-- Behind the count, the array of block changes holds gaps.
use macintosh_craft.Base.{
  ℕ, zero, suc, ◌+◌, ◌-◌, ◌≤◌, ◌<◌, ◌≡◌, ◌≢◌, refl, ap, Bool, true, false, Option, none, some, inl,
  inr, arith, Bool-cases, Option-cases, ltb, leb, ◌==◌, ==_iff, if◌then◌else◌,
}
use macintosh_craft.World.Changes.Plain.{Scanned, at_entry, at_end, scan_all}
use macintosh_craft.Base.Array.{update, modify_range, modify_range-above}
use macintosh_craft.World.Changes.{
  BlockChange, Changes, Place, Outcome, stored, full, Scan, gap, blank, set_block, change_at,
  max_block_changes, chest_search, store_chest, store_plain, store_new, clear_chest, replace,
  after_scan, store_change,
}

-- The entries from `n` on are gaps.
abbrev pub IsBlank : (ℕ → BlockChange) → ℕ → Type 0
IsBlank e n = (j : ℕ) → n ≤ j → j < max_block_changes → (e j).block ≡ gap

-- The array is within its bounds, too.
abbrev pub IsTidy : Changes → Type 0
IsTidy s = (s.count ≤ max_block_changes) × IsBlank s.entries s.count

-- The array after the call, whether or not it failed.
abbrev pub array_of : Outcome → Changes
array_of (stored t) = t
array_of (full t) = t

pair_eq : (u v : ℕ × ℕ) → some u ≡ some v → (u.0 ≡ v.0) × (u.1 ≡ v.1)
pair_eq u v k = (
  ap (λ (o : Option (ℕ × ℕ)). elim o [ none ↦ u.0 | some q ↦ q.0 ]) k,
  ap (λ (o : Option (ℕ × ℕ)). elim o [ none ↦ u.1 | some q ↦ q.1 ]) k,
)

-- A range that is wide enough lies within the array.
chest_search-wide :
    (n : ℕ) (s : Changes) (i start a b : ℕ)
    → chest_search n s i start ≡ some (a, b)
    → (b + 1 ≡ a + 15) × (b < max_block_changes)
unfolding chest_search
chest_search-wide zero s i start a b e = ground arith
chest_search-wide (suc n) s i start a b e =
    let real : Bool = if (s.entries i).block == gap then false else true in
    elim (Bool-cases (leb max_block_changes i)) [
      | inl t ↦ absurd (nothing (rw t at e))
      | inr t ↦ elim (Bool-cases real) [
        | inl u ↦ chest_search-wide n s (i + 1) (i + 1) a b (rw (t, u) at e)
        | inr u ↦ elim (Bool-cases (i + 1 == start + 15)) [
          | inr w ↦ chest_search-wide n s (i + 1) start a b (rw (t, u, w) at e)
          | inl w ↦
              let (ea, eb) = pair_eq (start, i) (a, b) (rw (t, u, w) at e) in
              let wide = (==_iff (i + 1) (start + 15)).0 w in
              (rw⁻¹ (ea, eb) wide, rw⁻¹ eb (ground arith))
        ]
      ]
    ]
  where
    nothing : {q : ℕ × ℕ} → none ≡ some q → ⊥
    nothing k = cc

-- Gaps stay gaps when a range is made gaps.
modify_range-gap :
    (n i : ℕ) (f : ℕ → BlockChange) (j : ℕ)
    → (f j).block ≡ gap
    → (modify_range n i (set_block gap) f j).block ≡ gap
unfolding modify_range
modify_range-gap zero i f j h = h
modify_range-gap (suc n) i f j h =
    modify_range-gap n (i + 1) (update f i (set_block gap (f i))) j
      (elim (Bool-cases (i == j)) [ inl t ↦ rw t refl | inr t ↦ rw t h ])

module _ (chest : ℕ) (s : Changes) (p : Place) (b : ℕ) (tidy : IsTidy s) where
  store_chest-IsTidy : (g : ℕ) → IsTidy (array_of (store_chest s p b g))
  unfolding store_chest
  store_chest-IsTidy g = elim (Option-cases (chest_search (s.count + 16 - g) s g g)) [
    | inl e ↦ rw (e, array_of) tidy
    | inr ((start, i), e) ↦
        let (wide, room) = chest_search-wide (s.count + 16 - g) s g g start i e in
        rw (e, array_of)
          (
            ground (arith, tidy.0),
            λ j h k.
                let h1 : i < j = ground arith in
                let h2 : s.count ≤ j = ground arith in
                let other : (start == j) ≡ false = ground arith in
                rw
                  (
                    modify_range-above 14 (start + 1) (λ _. blank)
                        (update s.entries start (change_at p b)) j (omega arith),
                    other,
                  )
                  (tidy.1 j h2 k),
          )
  ]

  store_plain-IsTidy : (g : ℕ) → g ≤ s.count → IsTidy (array_of (store_plain s p b g))
  unfolding store_plain
  store_plain-IsTidy g h = elim (Bool-cases (g == max_block_changes)) [
    | inl t ↦ rw t tidy
    | inr t ↦ rw t (
      ground (arith, tidy.0),
      λ j u k.
          let h1 : g < j = ground arith in
          let h2 : s.count ≤ j = ground arith in
          let other : (g == j) ≡ false = ground arith in rw other (tidy.1 j h2 k),
    )
  ]

  store_new-IsTidy :
      (is_base : Bool) (g : ℕ)
      → (b ≢ chest → g ≤ s.count)
      → IsTidy (array_of (store_new chest is_base s p b g))
  unfolding store_new
  store_new-IsTidy true g h = tidy
  store_new-IsTidy false g h = elim (Bool-cases (b == chest)) [
    | inl t ↦ rw t (store_chest-IsTidy g)
    | inr t ↦ rw t (store_plain-IsTidy g (h (ground arith)))
  ]

-- An entry within the count is rewritten.
rewritten-IsTidy :
    (chest : ℕ) (s : Changes) (i v : ℕ)
    → i < s.count
    → IsTidy s
    → IsTidy (record {
      entries = update (clear_chest chest s i) i (set_block v (clear_chest chest s i i));
      count = s.count;
    })
rewritten-IsTidy chest s i v h tidy = (
  tidy.0,
  λ j u k.
      let other : (i == j) ≡ false = ground arith in
      rw other (elim (Bool-cases ((s.entries i).block == chest)) [
        | inl t ↦ rw t (modify_range-gap 14 (i + 1) s.entries j (tidy.1 j u k))
        | inr t ↦ rw t (tidy.1 j u k)
      ]),
)

after_scan-IsTidy :
    (chest : ℕ) (is_base : Bool) (s : Changes) (p : Place) (b : ℕ) {r : Scan}
    → Scanned s p r
    → IsTidy s
    → IsTidy (array_of (after_scan chest is_base s p b r))
unfolding after_scan replace
after_scan-IsTidy chest is_base s p b (at_end g none_at gap_at all_live) tidy =
    store_new-IsTidy chest s p b tidy is_base g (λ ne. omega (arith, gap_at))
after_scan-IsTidy chest true s p b (at_entry i g h live at) tidy =
    rewritten-IsTidy chest s i gap h tidy
after_scan-IsTidy chest false s p b (at_entry i g h live at) tidy = elim (Bool-cases (b == chest)) [
  | inl t ↦
      let cleared = clear_chest chest s i in
      let freed : Changes = record {
        entries = update cleared i (set_block gap (cleared i));
        count = s.count;
      } in
      rw t (
        store_chest-IsTidy chest freed p b (rewritten-IsTidy chest s i gap h tidy)
          (if ltb i g then i else g))
  | inr t ↦ rw t (rewritten-IsTidy chest s i b h tidy)
]

-- Whatever is changed, chests included, the array stays within its bounds and holds gaps behind its
-- count, also where the call fails.
pub store_change-IsTidy :
    (chest : ℕ) (is_base : Bool) (s : Changes) (p : Place) (b : ℕ)
    → IsTidy s
    → IsTidy (array_of (store_change chest is_base s p b))
unfolding store_change
store_change-IsTidy chest is_base s p b tidy =
    after_scan-IsTidy chest is_base s p b (scan_all s p) tidy
