-- ===== src/World/Cache/Invalid.antt =====
-- `invalidateChunkCache` of worldgen.c, next to the search in the cache.
use macintosh_craft.Base.{
  ℕ, ◌*◌, ◌/◌, ◌<◌, ◌≡◌, sym, ap, ◌∙◌, false, some, none, Option-cases, inl, inr, arith,
}
use native.Mathlib.Decide.{ℕ_discrete}
use macintosh_craft.Base.Int.{ℤ, pos, to_i16, to_i16_id}
use macintosh_craft.Base.Array.{update, update_self, update_ne}
use macintosh_craft.World.Cache.{
  Cache, SectionKey, find_cache_entry, invalidate, invalidate_chunk_cache, section_corner, key_of,
}
use macintosh_craft.World.Cache.Probe.{find_cache_entry_sound}
use macintosh_craft.World.Cache.Kept.{IsKept, same_key-equal}

-- The entry that is found is marked as invalid.
abbrev dropped : Cache → ℕ → Cache
dropped c idx = record c { entries = update c.entries idx (invalidate (c.entries idx)) }

dropped_absent :
    (c : Cache) (k : SectionKey) (idx : ℕ)
    → IsKept c
    → find_cache_entry c k ≡ some idx
    → find_cache_entry (dropped c idx) k ≡ none
dropped_absent c k idx v f = elim (Option-cases (find_cache_entry (dropped c idx) k)) [
  | inl absent ↦ absent
  | inr (m, g) ↦
      let (_, old_valid, old_key) = find_cache_entry_sound c k idx f in
      let (_, new_valid, new_key) = find_cache_entry_sound (dropped c idx) k m g in
      elim (ℕ_discrete idx m) [
        | yes here ↦
            let gone : (update c.entries idx (invalidate (c.entries idx)) m).valid ≡ false =
              rw (← here)
                (ap (λ x. x.valid) (update_self c.entries idx (invalidate (c.entries idx)))) in
            absurd (cc (gone, new_valid))
        | no ne ↦
            let same = update_ne c.entries (invalidate (c.entries idx)) ne in
            let key_m = same_key-equal _ _ new_key in
            let key_idx = same_key-equal _ _ old_key in
            absurd (
              ne (
                v.unique idx m old_valid (ap (λ x. x.valid) (sym same) ∙ new_valid)
                  (key_idx ∙ sym key_m ∙ ap (λ x. x.key) same)))
      ]
]

-- The key that is looked up, for a height that is a byte.
level_key : (y : ℕ) → y < 256 → pos (y / 16 * 16) ≡ to_i16 (pos (y / 16 * 16))
level_key y h = sym (to_i16_id (pos (y / 16 * 16)) (omega arith, omega arith))

-- In a cache whose valid entries lie where they are probed, one for each key at most, a section is
-- not found any more once a block in it was invalidated, although only one entry is dropped.
pub find-invalidate_chunk_cache :
    (c : Cache) (x z : ℤ) (y : ℕ)
    → IsKept c
    → y < 256
    → find_cache_entry
        (invalidate_chunk_cache c x y z)
        (key_of (section_corner x) (y / 16 * 16) (section_corner z))
      ≡ none
unfolding invalidate_chunk_cache
find-invalidate_chunk_cache c x z y v h =
    let k : SectionKey = record {
      cx = to_i16 (section_corner x);
      cy = pos (y / 16 * 16);
      cz = to_i16 (section_corner z);
    } in
    rw (← level_key y h) (elim (Option-cases (find_cache_entry c k)) [
      | inl absent ↦ rw (absent, invalidate_chunk_cache) absent
      | inr (idx, f) ↦ rw (f, invalidate_chunk_cache) (dropped_absent c k idx v f)
    ])
