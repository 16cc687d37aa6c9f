-- ===== src/Base/Below.antt =====
-- Statements about all indices below a bound.
use Prim.Native.Nat.{ℕ, ◌+◌, ◌<◌}
use mathlib.Core.Path.{◌≡◌, subst}
use native.Mathlib.Decide.{dec_lt}
use native.Mathlib.Omega.{arith}

-- A statement below `i` and at `i` holds below `i + 1`.
pub below_suc {ℓ} :
    (P : ℕ → Type ℓ) (i : ℕ) → ((k : ℕ) → k < i → P k) → P i → (k : ℕ) → k < i + 1 → P k
below_suc P i h p k lt = elim (dec_lt k i) [
  | yes q ↦ h k q
  | no q ↦ let e : i ≡ k = omega arith in subst P e p
]
