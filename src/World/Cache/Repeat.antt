-- ===== src/World/Cache/Repeat.antt =====
-- What the cache gives when a section is asked for again.
use macintosh_craft.Base.{ℕ, zero, suc, ◌+◌, ◌-◌, ◌≡◌, refl, sym, ap, ◌∙◌, true, ◌⊎◌, inl, inr}
use macintosh_craft.Base.{arith, none, some, Bool-cases, ◌==◌}
use macintosh_craft.Base.Int.{ℤ, pos_part, ◌-ℤ◌}
use macintosh_craft.Base.Array.{update, update_self, update_ne}
use macintosh_craft.Terrain.{Generator}
use macintosh_craft.Terrain.Section.{section_index}
use macintosh_craft.World.Changes.{Changes}
use macintosh_craft.World.Section.{
  Section, apply_change, apply_changes, build_chunk_section_internal, is_skipped, in_section,
}
use macintosh_craft.World.Cache.{
  Cache, CachedSection, SectionKey, key_of, same_key, find_cache_entry, find_cache_slot,
}
use macintosh_craft.World.Cache.{build_chunk_section, hit_section, miss_section, tick}
use macintosh_craft.World.Cache.Probe.{
  find_cache_entry_sound, find_cache_entry_complete, find_cache_slot-IsProbed,
}
use native.Mathlib.Decide.{ℕ_discrete}

same_key_self : (k : SectionKey) → same_key k k ≡ true
same_key_self k = ground arith

-- The cache after a new entry.
abbrev stored_in : Cache → SectionKey → CachedSection → ℕ → Cache
stored_in c k e clock = record c {
  entries = update c.entries (find_cache_slot c k) e;
  clock = clock;
}

module _ (c : Cache) (k : SectionKey) (e : CachedSection) (clock : ℕ) (valid : e.valid ≡ true)
    (key : e.key ≡ k) (absent : find_cache_entry c k ≡ none) where
  abbrev slot : ℕ
  slot = find_cache_slot c k

  found_slot : (idx : ℕ) → find_cache_entry (stored_in c k e clock) k ≡ some idx → idx ≡ slot
  found_slot idx f = elim (ℕ_discrete idx slot) [
    | yes q ↦ q
    | no ne ↦
        let (p, v, s) = find_cache_entry_sound (stored_in c k e clock) k idx f in
        let u = update_ne c.entries {i = slot} {j = idx} e (λ q. ne (sym q)) in
        let (other, g) = find_cache_entry_complete c k idx p (rw u at v) (rw u at s) in
        absurd (cc (absent, g))
  ]

  find_stored : find_cache_entry (stored_in c k e clock) k ≡ some slot
  find_stored =
      let here = update_self c.entries slot e in
      let (idx, f) =
        find_cache_entry_complete (stored_in c k e clock) k slot (find_cache_slot-IsProbed c k)
          (rw here valid) (rw (here, key) (same_key_self k)) in
      f ∙ ap some (found_slot idx f)

-- One entry either fixes a block of the section or leaves it alone.
change_cases :
    (g : Generator) (s : Changes) (cx cz : ℤ) (cy i k : ℕ)
    → ((v : ℕ) × ((f : ℕ → ℕ) → apply_change g cx cy cz (s.entries i) f k ≡ v))
      ⊎ ((f : ℕ → ℕ) → apply_change g cx cy cz (s.entries i) f k ≡ f k)
unfolding apply_change
change_cases g s cx cz cy i k =
    let e = s.entries i in
    elim (Bool-cases (is_skipped g e.block)) [
      | inl skip ↦ inr (λ f. rw skip)
      | inr kept ↦ elim (Bool-cases (in_section cx cy cz e)) [
        | inr out ↦ inr (λ f. rw (kept, out))
        | inl inside ↦
            let idx : ℕ = section_index (pos_part (e.x -ℤ cx)) (e.y - cy) (pos_part (e.z -ℤ cz)) in
            elim (Bool-cases (idx == k)) [
              | inl here ↦ inl (e.block, λ f. rw (kept, inside, here))
              | inr other ↦ inr (λ f. rw (kept, inside, other))
            ]
      ]
    ]

changes_cases :
    (g : Generator) (s : Changes) (cx cz : ℤ) (cy n i k : ℕ)
    → ((v : ℕ) × ((f : ℕ → ℕ) → apply_changes g cx cy cz s n i f k ≡ v))
      ⊎ ((f : ℕ → ℕ) → apply_changes g cx cy cz s n i f k ≡ f k)
unfolding apply_changes
changes_cases g s cx cz cy zero i k = inr (λ f. refl)
changes_cases g s cx cz cy (suc n) i k = elim (changes_cases g s cx cz cy n (i + 1) k) [
  | inl (v, h) ↦ inl (v, λ f. h _)
  | inr h ↦ elim (change_cases g s cx cz cy i k) [
    | inl (v, e) ↦ inl (v, λ f. h _ ∙ e f)
    | inr e ↦ inr (λ f. h _ ∙ e f)
  ]
]

module _ (g : Generator) (s : Changes) (c : Cache) (cx cz : ℤ) (cy : ℕ) where
  build_miss :
      find_cache_entry c (key_of cx cy cz) ≡ none
      → build_chunk_section g s c cx cy cz ≡ miss_section g s c cx cy cz
  unfolding build_chunk_section
  build_miss absent = rw (absent, build_chunk_section)

  build_hit :
      (idx : ℕ)
      → find_cache_entry c (key_of cx cy cz) ≡ some idx
      → build_chunk_section g s c cx cy cz ≡ hit_section g s c cx cy cz idx
  unfolding build_chunk_section
  build_hit idx found = rw (found, build_chunk_section)

-- The cached section with the present changes on top.
abbrev overlaid : Generator → Changes → ℤ → ℕ → ℤ → Section → Section
overlaid g t cx cy cz section = record {
  blocks = apply_changes g cx cy cz t t.count 0 section.blocks;
  biome = section.biome;
}

hit_stored :
    (g : Generator) (t : Changes) (c : Cache) (cx cz : ℤ) (cy : ℕ) (e : CachedSection) (clock : ℕ)
    → find_cache_entry c (key_of cx cy cz) ≡ none
    → e.valid ≡ true
    → e.key ≡ key_of cx cy cz
    → (build_chunk_section g t (stored_in c (key_of cx cy cz) e clock) cx cy cz).0
      ≡ overlaid g t cx cy cz e.section
unfolding hit_section
hit_stored g t c cx cz cy e clock absent valid key =
    let k = key_of cx cy cz in
    rw (build_hit g t (stored_in c k e clock) cx cz cy _ (find_stored c k e clock valid key absent))
      (ap (λ x. overlaid g t cx cy cz x.section) (update_self c.entries (find_cache_slot c k) e))

-- After a miss the section is found in the cache. When it is asked for again, under other block
-- changes, it is the cached section with those changes on top: nothing is generated anew.
pub build_chunk_section_cached :
    (g : Generator) (s t : Changes) (c : Cache) (cx cz : ℤ) (cy : ℕ)
    → find_cache_entry c (key_of cx cy cz) ≡ none
    → let (first, c') = build_chunk_section g s c cx cy cz in
      (first ≡ build_chunk_section_internal g s cx cy cz)
      × ((build_chunk_section g t c' cx cy cz).0 ≡ record {
        blocks = apply_changes g cx cy cz t t.count 0 first.blocks;
        biome = first.biome;
      })
unfolding miss_section
build_chunk_section_cached g s t c cx cz cy absent =
    rw (build_miss g s c cx cz cy absent)
      (refl, hit_stored g t c cx cz cy _ (tick c) absent refl refl)

-- Asked for again under the same block changes, a section comes back as it was.
pub build_chunk_section_again :
    (g : Generator) (s : Changes) (c : Cache) (cx cz : ℤ) (cy k : ℕ)
    → find_cache_entry c (key_of cx cy cz) ≡ none
    → let (first, c') = build_chunk_section g s c cx cy cz in
      let (second, _) = build_chunk_section g s c' cx cy cz in
      (second.blocks k ≡ first.blocks k) × (second.biome ≡ first.biome)
unfolding build_chunk_section_internal
build_chunk_section_again g s c cx cz cy k absent =
    let (first, second) = build_chunk_section_cached g s s c cx cz cy absent in
    rw (second, first)
      (
        elim (changes_cases g s cx cz cy s.count 0 k) [
          | inl (v, h) ↦ h _ ∙ sym (h _)
          | inr h ↦ h _
        ],
        refl,
      )
