-- ===== src/World/Cache.antt =====
-- The chunk section cache of worldgen.c: a hash table with at most 32 probes, in which the entry
-- that was used longest ago gives way.
pub mod Probe
pub mod Repeat
pub mod Stale
pub mod Served
pub mod Kept
pub mod Invalid
use macintosh_craft.Base.{
  ℕ, zero, suc, ◌+◌, ◌-◌, ◌*◌, ◌/◌, ◌%◌, Bool, true, false, ◌&&◌, Option, none, some,
}
use macintosh_craft.Base.{ltb, if◌then◌else◌, ◌==◌}
use macintosh_craft.Base.Int.{ℤ, pos, eq_ℤ, ltb_ℤ, ◌-ℤ◌, ◌*ℤ◌, c_div, to_i16, to_u32}
use macintosh_craft.Base.Array.{update}
use macintosh_craft.Terrain.{Generator}
use macintosh_craft.World.Changes.{Changes}
use macintosh_craft.World.Section.{Section, apply_changes, build_chunk_section_internal}
use Prim.Native.Nat.{bit_xor}

-- `int16_t cx, cy, cz`
pub record SectionKey : Type 0 where
  pub cx : ℤ
  pub cy : ℤ
  pub cz : ℤ

-- `CachedChunkSection`
pub record CachedSection : Type 0 where
  pub key : SectionKey
  pub section : Section
  pub valid : Bool
  pub lru_counter : ℕ

-- `chunk_cache`, `chunk_cache_size` and `cache_lru_clock`.
pub record Cache : Type 0 where
  pub entries : ℕ → CachedSection
  pub size : ℕ
  pub clock : ℕ

-- The size on the Mac, from the preference, before the allocation; elsewhere it is 64.
unfoldable pub clamp_cache_size : ℤ → ℤ
clamp_cache_size size =
    if ltb_ℤ size (pos 16) then pos 16 else if ltb_ℤ (pos 8192) size then pos 8192 else size

-- `initChunkCache` and `clearChunkCache`: every entry is marked as invalid.
abbrev pub invalidate : CachedSection → CachedSection
invalidate e = record e { valid = false }

unfoldable pub clear_chunk_cache : Cache → Cache
clear_chunk_cache c = record c {
  entries = λ i. if ltb i c.size then invalidate (c.entries i) else c.entries i;
}

abbrev pub max_probe_distance : ℕ
max_probe_distance = 32

abbrev pub same_key : SectionKey → SectionKey → Bool
same_key a b = eq_ℤ a.cx b.cx && (eq_ℤ a.cy b.cy && eq_ℤ a.cz b.cz)

unfoldable pub chunk_cache_hash : ℕ → SectionKey → ℕ
chunk_cache_hash size k =
    bit_xor (bit_xor (to_u32 (k.cx *ℤ pos 73856093)) (to_u32 (k.cy *ℤ pos 19349663)))
      (to_u32 (k.cz *ℤ pos 83492791))
    % size

-- `n` probes are left, from probe `i` on.
unfoldable pub find_loop : ℕ → Cache → SectionKey → ℕ → ℕ → Option ℕ
find_loop zero c k hash i = none
find_loop (suc n) c k hash i =
    let idx = (hash + i) % c.size in
    let rest = find_loop n c k hash (i + 1) in
    if (c.entries idx).valid && same_key (c.entries idx).key k then some idx else rest

unfoldable pub find_cache_entry : Cache → SectionKey → Option ℕ
find_cache_entry c k = find_loop max_probe_distance c k (chunk_cache_hash c.size k) 0

-- The first pass of `findCacheSlot`.
unfoldable pub empty_loop : ℕ → Cache → ℕ → ℕ → Option ℕ
empty_loop zero c hash i = none
empty_loop (suc n) c hash i =
    let idx = (hash + i) % c.size in
    let rest = empty_loop n c hash (i + 1) in if (c.entries idx).valid then rest else some idx

-- `(uint16_t)(cache_lru_clock - lru_counter)`
abbrev pub age : Cache → ℕ → ℕ
age c idx = (c.clock + 65536 - (c.entries idx).lru_counter) % 65536

-- The second pass: the oldest entry within the probe distance.
unfoldable pub oldest_loop : ℕ → Cache → ℕ → ℕ → ℕ → ℕ → ℕ
oldest_loop zero c hash i oldest_idx oldest_age = oldest_idx
oldest_loop (suc n) c hash i oldest_idx oldest_age =
    let idx = (hash + i) % c.size in
    let older = ltb oldest_age (age c idx) in
    oldest_loop n c hash (i + 1) (if older then idx else oldest_idx)
      (if older then age c idx else oldest_age)

unfoldable pub find_cache_slot : Cache → SectionKey → ℕ
find_cache_slot c k =
    let hash = chunk_cache_hash c.size k in
    elim (empty_loop max_probe_distance c hash 0) [
      | some idx ↦ idx
      | none ↦ oldest_loop max_probe_distance c hash 0 (hash % c.size) 0
    ]

-- `++cache_lru_clock`
abbrev pub tick : Cache → ℕ
tick c = (c.clock + 1) % 65536

abbrev pub key_of : ℤ → ℕ → ℤ → SectionKey
key_of cx cy cz = record { cx = to_i16 cx; cy = to_i16 (pos cy); cz = to_i16 cz }

-- A hit: the cached blocks, with the present block changes on top.
unfoldable pub hit_section : Generator → Changes → Cache → ℤ → ℕ → ℤ → ℕ → Section × Cache
hit_section g s c cx cy cz idx =
    let e = c.entries idx in
    (
      record {
        blocks = apply_changes g cx cy cz s s.count 0 e.section.blocks;
        biome = e.section.biome;
      },
      record c {
        entries = update c.entries idx (record e { lru_counter = tick c });
        clock = tick c;
      },
    )

-- A miss: the section is built and stored.
unfoldable pub miss_section : Generator → Changes → Cache → ℤ → ℕ → ℤ → Section × Cache
miss_section g s c cx cy cz =
    let section = build_chunk_section_internal g s cx cy cz in
    let k = key_of cx cy cz in
    (
      section,
      record c {
        entries =
            update c.entries (find_cache_slot c k)
              (record { key = k; section = section; valid = true; lru_counter = tick c });
        clock = tick c;
      },
    )

unfoldable pub build_chunk_section : Generator → Changes → Cache → ℤ → ℕ → ℤ → Section × Cache
build_chunk_section g s c cx cy cz = elim (find_cache_entry c (key_of cx cy cz)) [
  | some idx ↦ hit_section g s c cx cy cz idx
  | none ↦ miss_section g s c cx cy cz
]

-- The corner coordinate of the section that holds a block coordinate.
unfoldable pub section_corner : ℤ → ℤ
section_corner x =
    if ltb_ℤ x (pos 0) then c_div (x -ℤ pos 15) 16 *ℤ pos 16 else c_div x 16 *ℤ pos 16

-- `invalidateChunkCache`: only the first matching entry, as in a search.
unfoldable pub invalidate_chunk_cache : Cache → ℤ → ℕ → ℤ → Cache
invalidate_chunk_cache c x y z =
    let k : SectionKey = record {
      cx = to_i16 (section_corner x);
      cy = pos (y / 16 * 16);
      cz = to_i16 (section_corner z);
    } in
    elim (find_cache_entry c k) [
      | some idx ↦ record c { entries = update c.entries idx (invalidate (c.entries idx)) }
      | none ↦ c
    ]
