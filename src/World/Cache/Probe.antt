-- ===== src/World/Cache/Probe.antt =====
-- `findCacheEntry` and `findCacheSlot` of worldgen.c: the places that are probed for a key.
use macintosh_craft.Base.{
  ℕ, zero, suc, ◌+◌, ◌%◌, ◌≤◌, ◌<◌, ◌≡◌, refl, sym, ap, Bool, true, false, ◌&&◌, some,
}
use macintosh_craft.Base.{arith, Bool-cases, Option-cases, inl, inr, ltb}
use mathlib.Core.Path.{subst}
use native.Mathlib.Nat.{add-zero}
use native.Mathlib.Decide.{ℕ_discrete}
use macintosh_craft.World.Cache.{
  Cache, SectionKey, same_key, chunk_cache_hash, max_probe_distance, age,
}
use macintosh_craft.World.Cache.{
  find_loop, find_cache_entry, empty_loop, oldest_loop, find_cache_slot,
}

-- One of the 32 places that are probed for a key.
abbrev pub IsProbed : Cache → SectionKey → ℕ → Type 0
IsProbed c k idx =
    (i : ℕ) × (i < max_probe_distance) × (idx ≡ (chunk_cache_hash c.size k + i) % c.size)

some_eq : {x y : ℕ} → some x ≡ some y → x ≡ y
some_eq e = cc

and_parts : (a b : Bool) → (a && b) ≡ true → (a ≡ true) × (b ≡ true)
and_parts a b h = ground arith

and_intro : {a b : Bool} → a ≡ true → b ≡ true → (a && b) ≡ true
and_intro p q = rw (p, q)

module _ (c : Cache) (k : SectionKey) where
  abbrev probe : ℕ → ℕ
  probe i = (chunk_cache_hash c.size k + i) % c.size

  empty-IsProbed :
      (n i idx : ℕ)
      → empty_loop n c (chunk_cache_hash c.size k) i ≡ some idx
      → (j : ℕ) × (j < i + n) × (idx ≡ probe j)
  unfolding empty_loop
  empty-IsProbed zero i idx e = absurd (cc)
  empty-IsProbed (suc n) i idx e = elim (Bool-cases (c.entries (probe i)).valid) [
    | inl v ↦ let (j, h, p) = empty-IsProbed n (i + 1) idx (rw v at e) in (j, omega arith, p)
    | inr v ↦ (i, omega arith, sym (some_eq (rw v at e)))
  ]

  oldest-IsProbed :
      (n i m oldest_age : ℕ)
      → m < max_probe_distance
      → i + n ≤ max_probe_distance
      → IsProbed c k (oldest_loop n c (chunk_cache_hash c.size k) i (probe m) oldest_age)
  unfolding oldest_loop
  oldest-IsProbed zero i m a h l = (m, h, refl)
  oldest-IsProbed (suc n) i m a h l = elim (Bool-cases (ltb a (age c (probe i)))) [
    | inl v ↦ rw v (oldest-IsProbed n (i + 1) i _ (omega arith) (omega arith))
    | inr v ↦ rw v (oldest-IsProbed n (i + 1) m _ h (omega arith))
  ]

  find_sound :
      (n i idx : ℕ)
      → find_loop n c k (chunk_cache_hash c.size k) i ≡ some idx
      → (j : ℕ) × (j < i + n)
        × (idx ≡ probe j)
        × ((c.entries idx).valid ≡ true)
        × (same_key (c.entries idx).key k ≡ true)
  unfolding find_loop
  find_sound zero i idx e = absurd (cc)
  find_sound (suc n) i idx e =
      elim (Bool-cases ((c.entries (probe i)).valid && same_key (c.entries (probe i)).key k)) [
        | inl v ↦
            let here : idx ≡ probe i = sym (some_eq (rw v at e)) in
            let (va, sa) = and_parts _ _ v in (i, omega arith, here, rw here va, rw here sa)
        | inr v ↦
            let (j, h, p, q, r) = find_sound n (i + 1) idx (rw v at e) in (j, omega arith, p, q, r)
      ]

  -- A probe that fails is another one than the probe that succeeds.
  not_first :
      (i j : ℕ)
      → i ≤ j
      → (c.entries (probe j)).valid ≡ true
      → same_key (c.entries (probe j)).key k ≡ true
      → ((c.entries (probe i)).valid && same_key (c.entries (probe i)).key k) ≡ false
      → i + 1 ≤ j
  not_first i j lo v s t = elim (ℕ_discrete i j) [
    | yes q ↦ absurd (
        cc (
          ap (λ n. (c.entries (probe n)).valid && same_key (c.entries (probe n)).key k) q,
          and_intro v s,
        ))
    | no q ↦ omega arith
  ]

  find_complete :
      (n i j : ℕ)
      → i ≤ j
      → j < i + n
      → (c.entries (probe j)).valid ≡ true
      → same_key (c.entries (probe j)).key k ≡ true
      → (idx : ℕ) × (find_loop n c k (chunk_cache_hash c.size k) i ≡ some idx)
  unfolding find_loop
  find_complete zero i j lo hi v s = absurd (omega arith)
  find_complete (suc n) i j lo hi v s =
      elim (Bool-cases ((c.entries (probe i)).valid && same_key (c.entries (probe i)).key k)) [
        | inl t ↦ (probe i, rw t)
        | inr t ↦ rw t (find_complete n (i + 1) j (not_first i j lo v s t) (omega arith) v s)
      ]

-- What a search finds is a valid entry for the key, at a probed place.
pub find_cache_entry_sound :
    (c : Cache) (k : SectionKey) (idx : ℕ)
    → find_cache_entry c k ≡ some idx
    → IsProbed c k idx × ((c.entries idx).valid ≡ true) × (same_key (c.entries idx).key k ≡ true)
unfolding find_cache_entry
find_cache_entry_sound c k idx e =
    let (j, h, p, v, s) = find_sound c k 32 0 idx e in ((j, h, p), v, s)

-- A valid entry for the key at a probed place is not missed.
pub find_cache_entry_complete :
    (c : Cache) (k : SectionKey) (idx : ℕ)
    → IsProbed c k idx
    → (c.entries idx).valid ≡ true
    → same_key (c.entries idx).key k ≡ true
    → (found : ℕ) × (find_cache_entry c k ≡ some found)
unfolding find_cache_entry
find_cache_entry_complete c k idx (j, h, p) v s =
    find_complete c k 32 0 j (omega arith) h (rw p at v) (rw p at s)

-- The place that a new entry is given is one of those that are probed for it.
pub find_cache_slot-IsProbed : (c : Cache) (k : SectionKey) → IsProbed c k (find_cache_slot c k)
unfolding find_cache_slot
find_cache_slot-IsProbed c k =
    let hash : ℕ = chunk_cache_hash c.size k in
    elim (Option-cases (empty_loop 32 c hash 0)) [
      | inr (idx, e) ↦ rw (e, find_cache_slot) (empty-IsProbed c k 32 0 idx e)
      | inl e ↦
          rw (e, find_cache_slot)
            (subst (λ m. IsProbed c k (oldest_loop 32 c hash 0 m 0))
              (ap (λ x. x % c.size) (add-zero hash))
              (oldest-IsProbed c k 32 0 0 0 (omega arith) (omega arith)))
    ]
