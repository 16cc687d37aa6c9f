-- ===== src/World/Section/Overlay.antt =====
-- The loop over the block changes in `buildChunkSectionInternal` of worldgen.c, seen at one block.
use macintosh_craft.Base.{
  ℕ, zero, suc, ◌+◌, ◌-◌, ◌≤◌, ◌<◌, ◌≡◌, ◌≢◌, refl, true, false, ap, sym, ◌∙◌, ◌⊎◌, Bool-cases, inl,
  inr, leb, ltb, arith,
}
use macintosh_craft.Base.Int.{
  ℤ, pos, ◌+ℤ◌, ◌-ℤ◌, +ℤ_parts, -ℤ_pos_part, eq_of_parts, pos_part, leb_ℤ, ltb_ℤ,
}
use macintosh_craft.Base.Array.{update_self, update_ne}
use mathlib.Core.Path.{subst}
use native.Mathlib.Decide.{ℕ_discrete}
use macintosh_craft.Terrain.{Generator}
use macintosh_craft.Terrain.Section.{section_index}
use macintosh_craft.Terrain.Section.Layout.{section_index_injective}
use macintosh_craft.World.Changes.{BlockChange, Changes, Place, is_at}
use macintosh_craft.World.Section.{is_skipped, in_axis, in_section, apply_change, apply_changes}

axis_inside :
    (from c : ℤ) (d : ℕ)
    → c ≡ from +ℤ pos d
    → d < 16
    → (in_axis from c ≡ true) × (pos_part (c -ℤ from) ≡ d)
unfolding in_axis
axis_inside from c d e h =
    let below : leb_ℤ from c ≡ true = lower from c d e in
    let above : ltb_ℤ c (from +ℤ pos 16) ≡ true = upper from c d e h in
    (
      rw (below, above),
      rw e (omega (arith, +ℤ_parts from (pos d), -ℤ_pos_part (from +ℤ pos d) from)),
    )
  where
    lower : (from c : ℤ) (d : ℕ) → c ≡ from +ℤ pos d → leb_ℤ from c ≡ true
    lower from c d e = rw e (ground (arith, +ℤ_parts from (pos d)))

    upper : (from c : ℤ) (d : ℕ) → c ≡ from +ℤ pos d → d < 16 → ltb_ℤ c (from +ℤ pos 16) ≡ true
    upper from c d e h = rw e (ground (arith, +ℤ_parts from (pos d), +ℤ_parts from (pos 16)))

axis_offset :
    (from c : ℤ)
    → in_axis from c ≡ true
    → (pos_part (c -ℤ from) < 16) × (c ≡ from +ℤ pos (pos_part (c -ℤ from)))
unfolding in_axis
axis_offset from c h =
    let diff = -ℤ_pos_part c from in
    let sum = +ℤ_parts from (pos 16) in
    let low : leb_ℤ from c ≡ true = ground arith in
    let high : ltb_ℤ c (from +ℤ pos 16) ≡ true = ground arith in
    let within : pos_part (c -ℤ from) < 16 = ground arith in
    (within, eq_of_parts _ _ (ground (arith, +ℤ_parts from (pos (pos_part (c -ℤ from))))))

module _ (g : Generator) (cx cz : ℤ) (cy dx dy dz : ℕ) (hx : dx < 16) (hy : dy < 16)
    (hz : dz < 16) where
  -- The world coordinates of the block at (dx, dy, dz).
  abbrev pub place_in : Place
  place_in = record { x = cx +ℤ pos dx; y = cy + dy; z = cz +ℤ pos dz }

  at_parts :
      (e : BlockChange)
      → is_at e place_in ≡ true
      → (e.x ≡ cx +ℤ pos dx) × (e.y ≡ cy + dy) × (e.z ≡ cz +ℤ pos dz)
  at_parts e h = ground (arith, eq_of_parts e.x (cx +ℤ pos dx), eq_of_parts e.z (cz +ℤ pos dz))

  apply_here :
      (e : BlockChange) (f : ℕ → ℕ)
      → is_at e place_in ≡ true
      → is_skipped g e.block ≡ false
      → apply_change g cx cy cz e f (section_index dx dy dz) ≡ e.block
  unfolding apply_change
  apply_here e f at kept =
      let (ex, ey, ez) = at_parts e at in
      let (ix, ox) = axis_inside cx e.x dx ex hx in
      let (iz, oz) = axis_inside cz e.z dz ez hz in
      let low : leb cy e.y ≡ true = ground arith in
      let high : ltb e.y (cy + 16) ≡ true = ground arith in
      let oy : e.y - cy ≡ dy = omega arith in
      rw (kept, ix, iz, low, high, ox, oz, oy) (update_self f (section_index dx dy dz) e.block)

  at_of_parts :
      (e : BlockChange)
      → e.x ≡ cx +ℤ pos dx
      → e.y ≡ cy + dy
      → e.z ≡ cz +ℤ pos dz
      → is_at e place_in ≡ true
  at_of_parts e hx hy hz = ground arith

  -- An entry that is stored at the index of the place is for the place.
  at_of_index :
      (e : BlockChange)
      → in_section cx cy cz e ≡ true
      → section_index (pos_part (e.x -ℤ cx)) (e.y - cy) (pos_part (e.z -ℤ cz))
        ≡ section_index dx dy dz
      → is_at e place_in ≡ true
  at_of_index e inside same =
      let ix : in_axis cx e.x ≡ true = ground arith in
      let iz : in_axis cz e.z ≡ true = ground arith in
      let iy : (cy ≤ e.y) × (e.y < cy + 16) = ground arith in
      let (wx, ox) = axis_offset cx e.x ix in
      let (wz, oz) = axis_offset cz e.z iz in
      let (_, sx, sy, sz) =
        section_index_injective _ _ _ dx dy dz (wx, omega arith, wz) (hx, hy, hz) same in
      at_of_parts e (ox ∙ ap (λ n. cx +ℤ pos n) sx) (omega arith) (oz ∙ ap (λ n. cz +ℤ pos n) sz)

  at_clash :
      (e : BlockChange)
      → is_at e place_in ≡ false
      → in_section cx cy cz e ≡ true
      → ¬ (
          section_index (pos_part (e.x -ℤ cx)) (e.y - cy) (pos_part (e.z -ℤ cz))
          ≡ section_index dx dy dz)
  at_clash e at inside same = cc (at_of_index e inside same)

  apply_elsewhere :
      (e : BlockChange) (f : ℕ → ℕ)
      → is_at e place_in ≡ false
      → apply_change g cx cy cz e f (section_index dx dy dz) ≡ f (section_index dx dy dz)
  unfolding apply_change
  apply_elsewhere e f at = elim (Bool-cases (is_skipped g e.block)) [
    | inl skip ↦ rw skip
    | inr kept ↦ rw kept (elim (Bool-cases (in_section cx cy cz e)) [
      | inr out ↦ rw out
      | inl inside ↦ rw inside (update_ne f e.block (λ same. at_clash e at inside same))
    ])
  ]

  apply_skipped :
      (e : BlockChange) (f : ℕ → ℕ)
      → is_skipped g e.block ≡ true
      → apply_change g cx cy cz e f (section_index dx dy dz) ≡ f (section_index dx dy dz)
  unfolding apply_change
  apply_skipped e f skip = rw skip

  -- The loop leaves the block alone where every entry is for another place or is skipped.
  pub apply_none :
      (s : Changes) (n i : ℕ) (f : ℕ → ℕ)
      → ((k : ℕ)
          → i ≤ k
          → k < i + n
          → (is_at (s.entries k) place_in ≡ false) ⊎ (is_skipped g (s.entries k).block ≡ true))
      → apply_changes g cx cy cz s n i f (section_index dx dy dz) ≡ f (section_index dx dy dz)
  unfolding apply_changes
  apply_none s zero i f none_at = refl
  apply_none s (suc n) i f none_at =
      apply_none s n (i + 1) (apply_change g cx cy cz (s.entries i) f)
        (λ k h l. none_at k (omega arith) (omega arith))
      ∙ elim (none_at i (omega arith) (omega arith)) [
        | inl far ↦ apply_elsewhere (s.entries i) f far
        | inr skip ↦ apply_skipped (s.entries i) f skip
      ]

  -- One entry for the place, and none behind it.
  pub apply_one :
      (s : Changes) (n i j : ℕ) (f : ℕ → ℕ)
      → i ≤ j
      → j < i + n
      → is_at (s.entries j) place_in ≡ true
      → is_skipped g (s.entries j).block ≡ false
      → ((k : ℕ)
          → i ≤ k
          → k < i + n
          → k ≢ j
          → (is_at (s.entries k) place_in ≡ false) ⊎ (is_skipped g (s.entries k).block ≡ true))
      → apply_changes g cx cy cz s n i f (section_index dx dy dz) ≡ (s.entries j).block
  unfolding apply_changes
  apply_one s zero i j f lo hi at kept others = absurd (omega arith)
  apply_one s (suc n) i j f lo hi at kept others = elim (ℕ_discrete i j) [
    | yes here ↦
        apply_none s n (i + 1) (apply_change g cx cy cz (s.entries i) f)
          (λ k h l. others k (omega arith) (omega arith) (λ e. omega arith))
        ∙ subst
            (λ k.
              apply_change g cx cy cz (s.entries k) f (section_index dx dy dz)
              ≡ (s.entries j).block)
            (sym here) (apply_here (s.entries j) f at kept)
    | no later ↦
        apply_one s n (i + 1) j (apply_change g cx cy cz (s.entries i) f) (omega arith)
          (omega arith) at kept (λ k h l ne. others k (omega arith) (omega arith) ne)
  ]
