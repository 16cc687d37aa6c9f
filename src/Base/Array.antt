-- ===== src/Base/Array.antt =====
-- A C array as a function of the index, and writes to it.
use Prim.Native.Nat.{ℕ, zero, suc, ◌+◌, ◌≤◌, ◌<◌}
use mathlib.Core.Path.{◌≡◌, refl, ap, ◌∙◌}
use mathlib.Core.Logic.{◌≢◌}
use native.Mathlib.Omega.{arith}
use native.Mathlib.Decide.{dec_le}
use macintosh_craft.Base.Tests.{◌==◌, ==_iff, if◌then◌else◌}

module _ {ℓ} {A : Type ℓ} where
  -- `f[i] = v`
  abbrev pub update : (ℕ → A) → ℕ → A → ℕ → A
  update f i v j = if i == j then v else f j

  pub update_self : (f : ℕ → A) (i : ℕ) (v : A) → update f i v i ≡ v
  update_self f i v = rw (==_iff i i).1 refl

  pub update_ne : (f : ℕ → A) {i j : ℕ} (v : A) → i ≢ j → update f i v j ≡ f j
  update_ne f v h = ground arith

  -- `for (j = i; j < i + n; j ++) f[j] = g(f[j])`
  unfoldable pub modify_range : ℕ → ℕ → (A → A) → (ℕ → A) → ℕ → A
  modify_range zero i g f = f
  modify_range (suc n) i g f = modify_range n (i + 1) g (update f i (g (f i)))

  pub modify_range-below :
      (n i : ℕ) (g : A → A) (f : ℕ → A) (j : ℕ) → j < i → modify_range n i g f j ≡ f j
  unfolding modify_range
  modify_range-below zero i g f j h = refl
  modify_range-below (suc n) i g f j h =
      ground (arith, modify_range-below n (i + 1) g (update f i (g (f i))) j)

  pub modify_range-above :
      (n i : ℕ) (g : A → A) (f : ℕ → A) (j : ℕ) → i + n ≤ j → modify_range n i g f j ≡ f j
  unfolding modify_range
  modify_range-above zero i g f j h = refl
  modify_range-above (suc n) i g f j h =
      ground (arith, modify_range-above n (i + 1) g (update f i (g (f i))) j)

  pub modify_range-within :
      (n i : ℕ) (g : A → A) (f : ℕ → A) (j : ℕ)
      → i ≤ j
      → j < i + n
      → modify_range n i g f j ≡ g (f j)
  unfolding modify_range
  modify_range-within zero i g f j h k = absurd (omega arith)
  modify_range-within (suc n) i g f j h k =
      let rest = update f i (g (f i)) in
      elim (dec_le (suc i) j) [
        | yes p ↦
            modify_range-within n (i + 1) g rest j (omega arith) (omega arith)
            ∙ ap g (update_ne f (g (f i)) (omega arith))
        | no p ↦
            let e : i ≡ j = omega arith in
            modify_range-below n (i + 1) g rest j (omega arith)
            ∙ rw (← e) (update_self f i (g (f i)))
      ]
