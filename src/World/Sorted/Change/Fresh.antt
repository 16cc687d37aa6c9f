-- ===== src/World/Sorted/Change/Fresh.antt =====
-- The linear and the binary search, and the sections that are served after a sorted change. The
-- version of `buildChunkSectionInternal` without ALLOW_CHESTS shows chests, which the modelled one
-- skips; without chests among the changes they agree.
use macintosh_craft.Base.{
  ℕ, ◌*◌, ◌/◌, ◌<◌, ◌≡◌, ◌≢◌, refl, sym, ap, ◌∙◌, false, none, List, inl, inr, Bool-cases,
}
use native.Mathlib.Decide.{ℕ_discrete}
use macintosh_craft.Terrain.{Generator}
use macintosh_craft.World.Changes.{Changes, Place, gap, is_at, get_block_change}
use macintosh_craft.World.Changes.Plain.{IsPlain, Finds, found, absent, get-Finds}
use macintosh_craft.World.Blocks.{Viewer, is_base_block}
use macintosh_craft.World.Section.{build_chunk_section_internal}
use macintosh_craft.World.Cache.{
  Cache, key_of, find_cache_entry, build_chunk_section, section_corner, invalidate_chunk_cache,
}
use macintosh_craft.World.Cache.Kept.{IsKept}
use macintosh_craft.World.Cache.Invalid.{find-invalidate_chunk_cache}
use macintosh_craft.World.Cache.Repeat.{build_chunk_section_cached}
use macintosh_craft.World.Sorted.{changed, store_sorted_change, get_sorted_change}
use macintosh_craft.World.Sorted.Search.{IsSorted, at_unique, Reads, entry, no_entry, Reads-get}
use macintosh_craft.World.Sorted.Change.{finish_sorted, make_sorted_block_change}

module _ (chest : ℕ) (s : Changes) (v : IsSorted s)
    (no_chest : (i : ℕ) → i < s.count → (s.entries i).block ≢ chest) where
  sorted-IsPlain : IsPlain chest s
  sorted-IsPlain = record {
    bounded = v.bounded;
    no_chest = no_chest;
    distinct = λ i j p hi hj _ _ ai aj. at_unique s p v i j hi hj ai aj;
  }

  Reads-Finds : (p : Place) (r : ℕ) → Reads s p r → Finds s p r
  Reads-Finds p r (no_entry none_at e) = absent (λ k h _. none_at k h) e
  Reads-Finds p r (entry j hj at e) = elim (ℕ_discrete (s.entries j).block gap) [
    | no live ↦ found j hj live at e
    | yes dead ↦
        absent
          (λ k h live. elim (Bool-cases (is_at (s.entries k) p)) [
            | inl t ↦
                absurd (live (ap (λ n. (s.entries n).block) (at_unique s p v k j h hj t at) ∙ dead))
            | inr f ↦ f
          ])
          (sym e ∙ dead)
  ]

  linear : (p : Place) → get_sorted_change s p ≡ get_block_change chest s p
  linear p = sym (get-Finds chest s p _ sorted-IsPlain (Reads-Finds p _ (Reads-get s p v)))

-- In a sorted array without chests, the binary search of one version of `getBlockChange` finds what
-- the linear search of the other version finds.
pub get_sorted_change-linear :
    (chest : ℕ) (s : Changes) (p : Place)
    → IsSorted s
    → ((i : ℕ) → i < s.count → (s.entries i).block ≢ chest)
    → get_sorted_change s p ≡ get_block_change chest s p
get_sorted_change-linear chest s p v no_chest = linear chest s v no_chest p

-- When the sorted `makeBlockChange` changes the array, it returns 0, the section of the place is not
-- found in the cache any more, and the next time the section is asked for it is built from the
-- changed array.
pub build-make_sorted_block_change :
    (g : Generator) (players : List Viewer) (s t : Changes) (c : Cache) (p : Place) (b : ℕ)
    → IsKept c
    → p.y < 256
    → store_sorted_change (is_base_block g p b) s p b ≡ changed t
    → let e = make_sorted_block_change g players s c p b in
      let cx = section_corner p.x in
      let cz = section_corner p.z in
      let cy = p.y / 16 * 16 in
      (e.failed ≡ false)
      × (e.changes ≡ t)
      × (find_cache_entry e.cache (key_of cx cy cz) ≡ none)
      × ((build_chunk_section g e.changes e.cache cx cy cz).0
          ≡ build_chunk_section_internal g t cx cy cz)
unfolding make_sorted_block_change finish_sorted
build-make_sorted_block_change g players s t c p b v low h =
    let dropped = invalidate_chunk_cache c p.x p.y p.z in
    let absent = find-invalidate_chunk_cache c p.x p.z p.y v low in
    rw (h, make_sorted_block_change)
      (
        refl,
        refl,
        absent,
        (build_chunk_section_cached g t t dropped (section_corner p.x) (section_corner p.z)
            (p.y / 16 * 16) absent).0,
      )
