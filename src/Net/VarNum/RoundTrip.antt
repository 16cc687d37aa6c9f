-- ===== src/Net/VarNum/RoundTrip.antt =====
-- `writeVarInt`, `sizeVarInt` and `readVarInt` of varnum.c, taken together.
use macintosh_craft.Base.{
  ℕ, zero, suc, ◌+◌, ◌-◌, ◌*◌, ◌/◌, ◌%◌, ◌^◌, ◌≤◌, ◌<◌, ◌≡◌, ap, ◌∙◌, none, some,
}
use macintosh_craft.Base.{
  List, [], ◌∷◌, ◌++◌, length, arith, ◌==◌, Bool-cases, Option-cases, leb, ==→eq, inl, inr, false,
}
use macintosh_craft.Net.VarNum.{
  write_loop, write_var_int, size_loop, size_var_int, read_loop, read_var_int,
}
use native.Mathlib.Numerals.{towards_suc}
use native.Mathlib.Nat.{pow-suc, div-add-mod}

small : (fuel value : ℕ) → value < 128 ^ suc (suc fuel) → value / 2 ^ 7 < 128 ^ suc fuel
small fuel value h = let g : value < 128 ^ suc fuel * 128 = rw pow-suc at h in omega arith

-- The groups of seven bits, for a value below 128 ^ fuel.
write_loop_total :
    (fuel value : ℕ)
    → value < 128 ^ fuel
    → 0 < fuel
    → (bytes : List ℕ) × (write_loop fuel value ≡ some bytes)
      × (1 ≤ length bytes)
      × (length bytes ≤ fuel)
      × ((size : ℕ) → size_loop fuel value size ≡ some (size + length bytes - 1))
unfolding write_loop size_loop
write_loop_total zero value h p = absurd (omega arith)
write_loop_total (suc zero) value h p =
    ((value % 256) ∷ [], ground arith, omega arith, omega arith, λ size. ground arith)
write_loop_total (suc (suc fuel)) value h p = elim (Bool-cases (value / 128 == 0)) [
  | inl e ↦
      ((value % 256) ∷ [], rw e, omega arith, omega arith, λ size. rw e (ap some (omega arith)))
  | inr e ↦
      let (bytes, w, lo, hi, sz) =
        write_loop_total (suc fuel) (value / 2 ^ 7) (small fuel value h) (omega arith) in
      (
        (value % 128 + 128) ∷ bytes,
        rw (e, w),
        omega arith,
        omega arith,
        λ size. rw e (sz (size + 1) ∙ ap some (omega arith)),
      )
]

some_list : {a b : List ℕ} → some a ≡ some b → a ≡ b
some_list e = cc

shift_seven : (position : ℕ) → 2 ^ (position + 7) ≡ 128 * 2 ^ position
shift_seven position = simp towards_suc (omega arith)

-- The lowest seven bits of a value and the others, all moved up by `position`.
split_value :
    (value position : ℕ)
    → value * 2 ^ position ≡ value % 128 * 2 ^ position + value / 2 ^ 7 * 2 ^ (position + 7)
split_value value position = omega (
  arith,
  ap (λ (n : ℕ). n * 2 ^ position) (div-add-mod value 128),
  ap (λ (n : ℕ). value / 128 * n) (shift_seven position),
)

read_last :
    (value acc position : ℕ) (rest : List ℕ)
    → value / 128 ≡ 0
    → acc + value * 2 ^ position < 2 ^ 32
    → read_loop ((value % 256) ∷ rest) acc position ≡ (acc + value * 2 ^ position, rest)
unfolding read_loop
read_last value acc position rest small fits =
    let same : value % 256 % 128 ≡ value = omega arith in
    let stop : value % 256 / 128 % 2 ≡ 0 = omega arith in rw (stop, same) (ground arith)

read_more :
    (value acc position : ℕ) (rest : List ℕ)
    → position + 7 < 32
    → acc + value % 128 * 2 ^ position < 2 ^ 32
    → read_loop ((value % 128 + 128) ∷ rest) acc position
      ≡ read_loop rest (acc + value % 128 * 2 ^ position) (position + 7)
unfolding read_loop
read_more value acc position rest low fits =
    let same : (value % 128 + 128) % 128 ≡ value % 128 = omega arith in
    let goes_on : (value % 128 + 128) / 128 % 2 ≡ 1 = omega arith in
    let exact : value % 128 * 2 ^ position % 2 ^ 32 ≡ value % 128 * 2 ^ position = omega arith in
    let room : leb 32 (position + 7) ≡ false = ground arith in rw (goes_on, same, exact, room)

-- The reader takes up at `position` what the writer writes of `value`.
read-write_loop :
    (fuel value acc position : ℕ) (rest bytes : List ℕ)
    → acc + value * 2 ^ position < 2 ^ 32
    → position + 7 * fuel < 39
    → write_loop fuel value ≡ some bytes
    → read_loop (bytes ++ rest) acc position ≡ (acc + value * 2 ^ position, rest)
unfolding write_loop
read-write_loop zero value acc position rest bytes fits low e = absurd (cc)
read-write_loop (suc fuel) value acc position rest bytes fits low e =
    elim (Bool-cases (value / 128 == 0)) [
      | inl last ↦
          let b : (value % 256) ∷ [] ≡ bytes = some_list (rw last at e) in
          rw (← b) (read_last value acc position rest (==→eq _ _ last) fits)
      | inr more ↦ elim (Option-cases (write_loop fuel (value / 2 ^ 7))) [
        | inl out ↦ absurd (no_more (rw (more, out) at e))
        | inr (tail, w) ↦
            let b : (value % 128 + 128) ∷ tail ≡ bytes = some_list (rw (more, w) at e) in
            let split = split_value value position in
            rw (← b) (
              read_more value acc position (tail ++ rest) (room fuel low w) (omega arith)
              ∙ read-write_loop fuel (value / 2 ^ 7) (acc + value % 128 * 2 ^ position)
                  (position + 7) rest tail (omega arith) (omega arith) w
              ∙ ap (λ (n : ℕ). (n, rest)) (omega arith))
      ]
    ]
  where
    no_more : none ≡ some bytes → ⊥
    no_more e = cc

    room :
        (fuel : ℕ) {tail : List ℕ}
        → position + 7 * suc fuel < 39
        → write_loop fuel (value / 2 ^ 7) ≡ some tail
        → position + 7 < 32
    room zero low w = absurd (cc)
    room (suc fuel) low w = omega arith

-- Every `uint32_t` is written in one to five bytes, as many as `sizeVarInt` says, and `readVarInt`
-- reads it back from them and leaves what follows.
pub read-write_var_int :
    (value : ℕ) (rest : List ℕ)
    → value < 2 ^ 32
    → (bytes : List ℕ) × (write_var_int value ≡ some bytes)
      × (length bytes ≤ 5)
      × (size_var_int value ≡ some (length bytes))
      × (read_var_int (bytes ++ rest) ≡ (value, rest))
unfolding write_var_int size_var_int read_var_int
read-write_var_int value rest h =
    let (bytes, w, lo, hi, size) = write_loop_total 5 value (omega arith) (omega arith) in
    (
      bytes,
      w,
      hi,
      size 1 ∙ ap some (omega arith),
      read-write_loop 5 value 0 0 rest bytes (omega arith) (omega arith) w
          ∙ ap (λ (n : ℕ). (n, rest)) (omega arith),
    )
