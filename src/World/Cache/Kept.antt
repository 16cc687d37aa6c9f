-- ===== src/World/Cache/Kept.antt =====
-- The cache of worldgen.c as `buildChunkSection` and `invalidateChunkCache` leave it.
use macintosh_craft.Base.{
  ℕ, ◌≡◌, ◌≢◌, refl, sym, ap, ◌∙◌, true, none, Option-cases, inl, inr, ◌⊎◌, arith,
}
use native.Mathlib.Decide.{ℕ_discrete}
use mathlib.Core.Path.{subst}
use macintosh_craft.Base.Int.{ℤ, eq_ℤ, eq_ℤ_iff}
use macintosh_craft.Base.Array.{update, update_self, update_ne}
use macintosh_craft.Terrain.{Generator}
use macintosh_craft.World.Changes.{Changes}
use macintosh_craft.World.Cache.{
  Cache, CachedSection, SectionKey, same_key, find_cache_entry, key_of, hit_section, miss_section,
  build_chunk_section,
}
use macintosh_craft.World.Cache.Probe.{
  IsProbed, find_cache_entry_sound, find_cache_entry_complete, find_cache_slot-IsProbed,
}

-- Every valid entry lies where its key is probed, and no other valid entry has its key.
pub record IsKept (c : Cache) : Type 0 where
  pub probed : (i : ℕ) → (c.entries i).valid ≡ true → IsProbed c (c.entries i).key i
  pub unique :
      (i j : ℕ)
      → (c.entries i).valid ≡ true
      → (c.entries j).valid ≡ true
      → (c.entries i).key ≡ (c.entries j).key
      → i ≡ j

pub same_key-equal : (a b : SectionKey) → same_key a b ≡ true → a ≡ b
same_key-equal a b h =
    let x : eq_ℤ a.cx b.cx ≡ true = ground arith in
    let y : eq_ℤ a.cy b.cy ≡ true = ground arith in
    let z : eq_ℤ a.cz b.cz ≡ true = ground arith in
    join a b ((eq_ℤ_iff a.cx b.cx).0 x) ((eq_ℤ_iff a.cy b.cy).0 y) ((eq_ℤ_iff a.cz b.cz).0 z)
  where
    join : (a b : SectionKey) → a.cx ≡ b.cx → a.cy ≡ b.cy → a.cz ≡ b.cz → a ≡ b
    join a b p q r = rw (p, q, r) refl

same_key_self : (k : SectionKey) → same_key k k ≡ true
same_key_self k = ground arith

-- A new entry at slot `n`.
module _ (c : Cache) (v : IsKept c) (n clock : ℕ) (e : CachedSection) where
  abbrev with_entry : Cache
  with_entry = record c { entries = update c.entries n e; clock = clock }

  entry_at :
      (i : ℕ)
      → ((i ≡ n) × (with_entry.entries i ≡ e)) ⊎ ((i ≢ n) × (with_entry.entries i ≡ c.entries i))
  entry_at i = elim (ℕ_discrete i n) [
    | yes r ↦ inl (r, rw r (update_self c.entries n e))
    | no r ↦ inr (r, update_ne c.entries e (λ q. r (sym q)))
  ]

  write-IsKept :
      IsProbed c e.key n
      → ((i : ℕ) → i ≢ n → (c.entries i).valid ≡ true → (c.entries i).key ≢ e.key)
      → IsKept with_entry
  write-IsKept at alone = record {
    probed = λ i h. probed_at i h (entry_at i);
    unique = λ i j h k same. same_slot i j h k same (entry_at i) (entry_at j);
  }
    where
      probed_at :
          (i : ℕ)
          → (with_entry.entries i).valid ≡ true
          → ((i ≡ n) × (with_entry.entries i ≡ e))
            ⊎ ((i ≢ n) × (with_entry.entries i ≡ c.entries i))
          → IsProbed c (with_entry.entries i).key i
      probed_at i h (inl (r, q)) =
          subst (λ x. IsProbed c x.key i) (sym q) (subst (λ m. IsProbed c e.key m) (sym r) at)
      probed_at i h (inr (_, q)) =
          subst (λ x. IsProbed c x.key i) (sym q) (v.probed i (ap (λ x. x.valid) (sym q) ∙ h))

      same_slot :
          (i j : ℕ)
          → (with_entry.entries i).valid ≡ true
          → (with_entry.entries j).valid ≡ true
          → (with_entry.entries i).key ≡ (with_entry.entries j).key
          → ((i ≡ n) × (with_entry.entries i ≡ e))
            ⊎ ((i ≢ n) × (with_entry.entries i ≡ c.entries i))
          → ((j ≡ n) × (with_entry.entries j ≡ e))
            ⊎ ((j ≢ n) × (with_entry.entries j ≡ c.entries j))
          → i ≡ j
      same_slot i j h k same (inl (r, _)) (inl (t, _)) = r ∙ sym t
      same_slot i j h k same (inl (_, q)) (inr (t, u)) = absurd (
          alone j t (ap (λ x. x.valid) (sym u) ∙ k)
            (ap (λ x. x.key) (sym u) ∙ sym same ∙ ap (λ x. x.key) q))
      same_slot i j h k same (inr (r, q)) (inl (_, u)) = absurd (
          alone i r (ap (λ x. x.valid) (sym q) ∙ h)
            (ap (λ x. x.key) (sym q) ∙ same ∙ ap (λ x. x.key) u))
      same_slot i j h k same (inr (_, q)) (inr (_, u)) =
          v.unique i j (ap (λ x. x.valid) (sym q) ∙ h) (ap (λ x. x.valid) (sym u) ∙ k)
            (ap (λ x. x.key) (sym q) ∙ same ∙ ap (λ x. x.key) u)

absent_keys :
    (c : Cache) (k : SectionKey)
    → IsKept c
    → find_cache_entry c k ≡ none
    → (i : ℕ) → (c.entries i).valid ≡ true
    → (c.entries i).key ≢ k
absent_keys c k v absent i valid same =
    let at = subst (λ x. IsProbed c x i) same (v.probed i valid) in
    let (found, f) = find_cache_entry_complete c k i at valid (rw same (same_key_self k)) in
    cc (absent, f)

-- Building a section, from the cache or anew, leaves every valid entry where its key is probed and
-- no two valid entries with one key.
pub build_chunk_section-IsKept :
    (g : Generator) (s : Changes) (c : Cache) (cx cz : ℤ) (cy : ℕ)
    → IsKept c
    → IsKept (build_chunk_section g s c cx cy cz).1
unfolding build_chunk_section hit_section miss_section
build_chunk_section-IsKept g s c cx cz cy v =
    let k = key_of cx cy cz in
    elim (Option-cases (find_cache_entry c k)) [
      | inl absent ↦
          rw (absent, build_chunk_section)
            (write-IsKept c v _ _ _ (find_cache_slot-IsProbed c k)
              (λ i _ valid. absent_keys c k v absent i valid))
      | inr (idx, f) ↦
          let (_, valid, _) = find_cache_entry_sound c k idx f in
          rw (f, build_chunk_section)
            (write-IsKept c v idx _ _ (v.probed idx valid)
              (λ i ne other same. ne (v.unique i idx other valid same)))
    ]
