-- ===== src/World/Sorted/Order.antt =====
-- `compareBlockChangeCoords` of procedures.c as an order, and the two loops that shift entries.
use macintosh_craft.Base.{
  ℕ, zero, suc, ◌+◌, ◌-◌, ◌<◌, ◌≡◌, refl, true, ◌&&◌, inl, inr, ◌⊎◌, arith, Bool-cases, ltb, leb,
  ◌==◌, if◌then◌else◌,
}
use macintosh_craft.Base.Int.{pos_part, neg_part, ◌<ℤ◌, eq_ℤ, ltb_ℤ}
use macintosh_craft.Base.Array.{update}
use macintosh_craft.World.Changes.{BlockChange, Place, is_at}
use macintosh_craft.World.Sorted.{
  Comparison, before, same, after, compare_coords, shift_entries_left, shift_entries_right,
}

-- The place of an entry.
abbrev pub place_of : BlockChange → Place
place_of e = record { x = e.x; y = e.y; z = e.z }

-- The order without the tests: in the first of x, z and y that differs, `p` is below `q`.
pub data Earlier (p q : Place) : Type 0 where
  by_x : p.x <ℤ q.x → Earlier p q
  by_z : pos_part p.x + neg_part q.x ≡ pos_part q.x + neg_part p.x → p.z <ℤ q.z → Earlier p q
  by_y :
      pos_part p.x + neg_part q.x ≡ pos_part q.x + neg_part p.x
      → pos_part p.z + neg_part q.z ≡ pos_part q.z + neg_part p.z
      → p.y < q.y
      → Earlier p q

pub Earlier-trans : {p q r : Place} → Earlier p q → Earlier q r → Earlier p r
Earlier-trans (by_x h) (by_x k) = by_x (omega arith)
Earlier-trans (by_x h) (by_z e k) = by_x (omega arith)
Earlier-trans (by_x h) (by_y e f k) = by_x (omega arith)
Earlier-trans (by_z e h) (by_x k) = by_x (omega arith)
Earlier-trans (by_z e h) (by_z f k) = by_z (omega arith) (omega arith)
Earlier-trans (by_z e h) (by_y f g k) = by_z (omega arith) (omega arith)
Earlier-trans (by_y e g h) (by_x k) = by_x (omega arith)
Earlier-trans (by_y e g h) (by_z f k) = by_z (omega arith) (omega arith)
Earlier-trans (by_y e g h) (by_y f l k) = by_y (omega arith) (omega arith) (omega arith)

-- What a comparison tells.
pub data Compared (p : Place) (e : BlockChange) : Comparison → Type 0 where
  is_before : Earlier p (place_of e) → Compared p e before
  is_same : is_at e p ≡ true → Compared p e same
  is_after : Earlier (place_of e) p → Compared p e after

pub compare_cases : (p : Place) (e : BlockChange) → Compared p e (compare_coords p e)
unfolding compare_coords
compare_cases p e = elim (Bool-cases (eq_ℤ p.x e.x)) [
  | inr x ↦ rw x (elim (Bool-cases (ltb_ℤ p.x e.x)) [
    | inl t ↦ rw t (is_before (by_x (ground arith)))
    | inr t ↦ rw t (is_after (by_x (ground arith)))
  ])
  | inl x ↦ rw x (elim (Bool-cases (eq_ℤ p.z e.z)) [
    | inr z ↦ rw z (elim (Bool-cases (ltb_ℤ p.z e.z)) [
      | inl t ↦ rw t (is_before (by_z (ground arith) (ground arith)))
      | inr t ↦ rw t (is_after (by_z (ground arith) (ground arith)))
    ])
    | inl z ↦ rw z (elim (Bool-cases (p.y == e.y)) [
      | inr y ↦ rw y (elim (Bool-cases (ltb p.y e.y)) [
        | inl t ↦ rw t (is_before (by_y (ground arith) (ground arith) (ground arith)))
        | inr t ↦ rw t (is_after (by_y (ground arith) (ground arith) (ground arith)))
      ])
      | inl y ↦ rw y (is_same (ground arith))
    ])
  ])
]

-- An entry that is for the place is neither earlier nor later.
pub Earlier-at : (p : Place) (e : BlockChange) → is_at e p ≡ true → ¬ (Earlier p (place_of e))
Earlier-at p e h (by_x k) = ground arith
Earlier-at p e h (by_z x k) = ground arith
Earlier-at p e h (by_y x z k) = ground arith

pub at-Earlier : (p : Place) (e : BlockChange) → is_at e p ≡ true → ¬ (Earlier (place_of e) p)
at-Earlier p e h (by_x k) = ground arith
at-Earlier p e h (by_z x k) = ground arith
at-Earlier p e h (by_y x z k) = ground arith

pub Earlier-both :
    (p : Place) (e f : BlockChange)
    → is_at e p ≡ true
    → is_at f p ≡ true
    → ¬ (Earlier (place_of e) (place_of f))
Earlier-both p e f h k (by_x l) = ground arith
Earlier-both p e f h k (by_z x l) = ground arith
Earlier-both p e f h k (by_y x z l) = ground arith

pub shift_left_at :
    (n i : ℕ) (f : ℕ → BlockChange) (j : ℕ)
    → shift_entries_left n i f j ≡ (if leb i j && ltb j (i + n) then f (j + 1) else f j)
unfolding shift_entries_left
shift_left_at zero i f j = ground arith
shift_left_at (suc n) i f j = ground (arith, shift_left_at n (i + 1) (update f i (f (i + 1))) j)

pub shift_right_at :
    (n i : ℕ) (f : ℕ → BlockChange) (j : ℕ)
    → shift_entries_right n i f j ≡ (if ltb i j && leb j (i + n) then f (j - 1) else f j)
unfolding shift_entries_right
shift_right_at zero i f j = ground arith
shift_right_at (suc n) i f j =
    ground (arith, shift_right_at n i (update f (i + n + 1) (f (i + n))) j)

-- The three results, with the equation.
pub compare_view :
    (p : Place) (e : BlockChange)
    → ((compare_coords p e ≡ before) × Earlier p (place_of e))
      ⊎ (((compare_coords p e ≡ same) × (is_at e p ≡ true))
          ⊎ ((compare_coords p e ≡ after) × Earlier (place_of e) p))
compare_view p e = view (compare_cases p e)
  where
    view :
        {c : Comparison}
        → Compared p e c
        → ((c ≡ before) × Earlier p (place_of e))
          ⊎ (((c ≡ same) × (is_at e p ≡ true)) ⊎ ((c ≡ after) × Earlier (place_of e) p))
    view (is_before h) = inl (refl, h)
    view (is_same h) = inr (inl (refl, h))
    view (is_after h) = inr (inr (refl, h))
