-- ===== src/World/Blocks/Reads.antt =====
-- `getBlockAt` of worldgen.c after `makeBlockChange` of procedures.c.
use macintosh_craft.Base.{
  ℕ, ◌%◌, ◌<◌, ◌≡◌, ◌≢◌, refl, ap, sym, ◌∙◌, true, false, not, inl, inr, List, ◌⊎◌,
}
use macintosh_craft.Base.{arith, Bool-cases, ◌==◌, if◌then◌else◌, ==→eq}
use macintosh_craft.Base.Int.{ℤ, pos, ltb_ℤ, IsShort, to_i16_id, to_u8, eq_ℤ, eq_ℤ_iff}
use macintosh_craft.Registry.{Block}
use macintosh_craft.Terrain.{Generator, block}
use macintosh_craft.Terrain.Feature.{anchor_of, get_terrain_at}
use macintosh_craft.World.Changes.{
  Changes, Place, gap, get_block_change, store_change, Outcome, stored, full,
}
use macintosh_craft.World.Changes.Plain.{IsPlain}
use macintosh_craft.World.Changes.Write.{same_place}
use macintosh_craft.World.Changes.MapLaw.{get-store_change, store_change-refused, IsFull}
use macintosh_craft.World.Blocks.{get_block_at, Viewer, make_block_change, finish, is_base_block}

-- What `getBlockAt` answers at a place whose coordinates need no conversion.
pub get_block_at-change :
    (g : Generator) (s : Changes) (x z : ℤ) (y : ℕ)
    → IsShort x
    → IsShort z
    → y < 256
    → let r = get_block_change (block g Block.chest) s (record { x = x; y = y; z = z }) in
      get_block_at g s x (pos y) z
      ≡ (if not (r == gap) then r else get_terrain_at g x y z (anchor_of g x z))
unfolding get_block_at to_u8
get_block_at-change g s x z y sx sz hy =
    let ey : y % 256 ≡ y = omega arith in
    let up : ltb_ℤ (pos y) (pos 0) ≡ false = ground arith in
    rw (up, to_i16_id x sx, to_i16_id z sz, ey)

abbrev pub InWorld : Place → Type 0
InWorld p = IsShort p.x × IsShort p.z × (p.y < 256)

-- The terrain at a place, and what stands there given the change that is found.
abbrev terrain : Generator → Place → ℕ
terrain g p = get_terrain_at g p.x p.y p.z (anchor_of g p.x p.z)

abbrev shown : Generator → Place → ℕ → ℕ
shown g p r = if not (r == gap) then r else terrain g p

same_place-terrain :
    (g : Generator) (p q : Place) → same_place p q ≡ true → terrain g p ≡ terrain g q
same_place-terrain g p q same =
    let x : eq_ℤ p.x q.x ≡ true = ground arith in
    let y : (p.y == q.y) ≡ true = ground arith in
    let z : eq_ℤ p.z q.z ≡ true = ground arith in
    rw ((eq_ℤ_iff p.x q.x).0 x, ==→eq p.y q.y y, (eq_ℤ_iff p.z q.z).0 z) refl

-- A block that is read back is the one that was stored, be it as a change or as bare terrain.
stored-shown :
    (g : Generator) (p q : Place) (b r : ℕ)
    → b ≢ gap
    → shown g q (if same_place p q then (if is_base_block g p b then gap else b) else r)
      ≡ (if same_place p q then b else shown g q r)
unfolding is_base_block
stored-shown g p q b r solid = elim (Bool-cases (same_place p q)) [
  | inr far ↦ rw far refl
  | inl same ↦ rw same (elim (Bool-cases (b == terrain g p)) [
    | inl base ↦ rw base (sym (==→eq b (terrain g p) base ∙ same_place-terrain g p q same))
    | inr new ↦ let e : (b == gap) ≡ false = ground arith in rw (new, e) refl
  ])
]

pub Outcome-cases :
    (o : Outcome) → ((t : Changes) × (o ≡ stored t)) ⊎ ((t : Changes) × (o ≡ full t))
Outcome-cases (stored t) = inl (t, refl)
Outcome-cases (full t) = inr (t, refl)

-- The block at a place, read with `getBlockAt` before and after a change that was stored.
stored_read :
    (g : Generator) (s t : Changes) (p q : Place) (b : ℕ)
    → IsPlain (block g Block.chest) s
    → InWorld q
    → b ≢ block g Block.chest
    → b ≢ gap
    → block g Block.chest ≢ gap
    → store_change (block g Block.chest) (is_base_block g p b) s p b ≡ stored t
    → get_block_at g t q.x (pos q.y) q.z
      ≡ (if same_place p q then b else get_block_at g s q.x (pos q.y) q.z)
stored_read g s t p q b v (sx, sz, sy) plain solid chest_solid h =
    let chest = block g Block.chest in
    let before = get_block_at-change g s q.x q.z q.y sx sz sy in
    let after = get_block_at-change g t q.x q.z q.y sx sz sy in
    let law = get-store_change chest (is_base_block g p b) s t p q b v plain chest_solid h in
    after
    ∙ ap (shown g q) law
    ∙ stored-shown g p q b (get_block_change chest s q) solid
    ∙ ap (λ x. if same_place p q then b else x) (sym before)

-- Without chests, `makeBlockChange` of a block that is neither a chest nor 0xFF either succeeds, and
-- then `getBlockAt` gives that block at the place and at every other place what it gave before; or
-- it fails and changes nothing, and then every entry of the array is in use and none is for the
-- place. The place that is read lies within `short` and, in height, within a byte.
pub make_block_change-get_block_at :
    (g : Generator) (players : List Viewer) (s : Changes) (p q : Place) (b : ℕ)
    → IsPlain (block g Block.chest) s
    → InWorld q
    → b ≢ block g Block.chest
    → b ≢ gap
    → block g Block.chest ≢ gap
    → let e = make_block_change g players s p b in
      ((e.failed ≡ false)
        × (get_block_at g e.changes q.x (pos q.y) q.z
            ≡ (if same_place p q then b else get_block_at g s q.x (pos q.y) q.z)))
      ⊎ ((e.failed ≡ true) × (e.changes ≡ s) × IsFull s p)
unfolding make_block_change finish
make_block_change-get_block_at g players s p q b v inside plain solid chest_solid =
    let chest = block g Block.chest in
    elim (Outcome-cases (store_change chest (is_base_block g p b) s p b)) [
      | inl (t, h) ↦ rw h (inl (refl, stored_read g s t p q b v inside plain solid chest_solid h))
      | inr (t, h) ↦
          let (_, f, same) =
            store_change-refused chest (is_base_block g p b) s t p b v plain chest_solid h in
          rw h (inr (refl, same, f))
    ]
