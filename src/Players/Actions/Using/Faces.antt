-- ===== src/Players/Actions/Using/Faces.antt =====
-- The coordinates behind a face.
use macintosh_craft.Base.{ℕ, ◌≡◌, inl, inr, arith, Bool-cases, ◌==◌}
use macintosh_craft.Base.Int.{ℤ, pos, ◌+ℤ◌, ◌-ℤ◌, ◌≤ℤ◌, IsShort, to_i16, to_u8, to_i16-IsShort}
use macintosh_craft.Players.Actions.Using.{behind_face}

raised :
    (y : ℤ)
    → (pos 1 ≤ℤ y) × (y ≤ℤ pos 253)
    → (pos 0 ≤ℤ to_i16 (y +ℤ pos 1)) × (to_i16 (y +ℤ pos 1) ≤ℤ pos 254)
unfolding to_i16 ◌+ℤ◌
raised y h = ground arith

lowered :
    (y : ℤ)
    → (pos 1 ≤ℤ y) × (y ≤ℤ pos 253)
    → (pos 0 ≤ℤ to_i16 (y -ℤ pos 1)) × (to_i16 (y -ℤ pos 1) ≤ℤ pos 254)
unfolding to_i16 ◌-ℤ◌
lowered y h = ground arith

height_bounds : (y : ℤ) → (pos 1 ≤ℤ y) × (y ≤ℤ pos 253) → (pos 0 ≤ℤ y) × (y ≤ℤ pos 254)
height_bounds y h = omega arith

-- The coordinates behind a face of a target between the heights 1 and 253.
pub behind_face-near :
    (face : ℕ) (x y z : ℤ)
    → IsShort x
    → IsShort z
    → (pos 1 ≤ℤ y) × (y ≤ℤ pos 253)
    → let (x', y', z') = behind_face face x y z in
      IsShort x' × IsShort z' × (pos 0 ≤ℤ y') × (y' ≤ℤ pos 254)
unfolding behind_face
behind_face-near face x y z sx sz high =
    let (low, up) = height_bounds y high in
    let (low_1, up_1) = lowered y high in
    let (low_2, up_2) = raised y high in
    elim (Bool-cases (face == 0)) [
      | inl a ↦ rw a (sx, sz, low_1, up_1)
      | inr a ↦ elim (Bool-cases (face == 1)) [
        | inl b ↦ rw (a, b) (sx, sz, low_2, up_2)
        | inr b ↦ elim (Bool-cases (face == 2)) [
          | inl c ↦ rw (a, b, c) (sx, to_i16-IsShort (z -ℤ pos 1), low, up)
          | inr c ↦ elim (Bool-cases (face == 3)) [
            | inl d ↦ rw (a, b, c, d) (sx, to_i16-IsShort (z +ℤ pos 1), low, up)
            | inr d ↦ elim (Bool-cases (face == 4)) [
              | inl e ↦ rw (a, b, c, d, e) (to_i16-IsShort (x -ℤ pos 1), sz, low, up)
              | inr e ↦ elim (Bool-cases (face == 5)) [
                | inl f ↦ rw (a, b, c, d, e, f) (to_i16-IsShort (x +ℤ pos 1), sz, low, up)
                | inr f ↦ rw (a, b, c, d, e, f) (sx, sz, low, up)
              ]
            ]
          ]
        ]
      ]
    ]

pub byte_level : (y : ℤ) → (pos 1 ≤ℤ y) × (y ≤ℤ pos 253) → pos (to_u8 y) ≡ y
unfolding to_u8
byte_level y h = ground arith
