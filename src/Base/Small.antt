-- ===== src/Base/Small.antt =====
-- Case analysis on the number of a service.
use Prim.Native.Nat.{ℕ, zero, suc, ◌≤◌}
use native.Mathlib.Omega.{arith}

-- What holds of 1 to 3 holds of every number in that range.
pub one_to_three {ℓ} : (P : ℕ → Type ℓ) → P 1 → P 2 → P 3 → (k : ℕ) → 1 ≤ k → k ≤ 3 → P k
one_to_three P a b c zero lo hi = absurd (omega arith)
one_to_three P a b c (suc zero) lo hi = a
one_to_three P a b c (suc (suc zero)) lo hi = b
one_to_three P a b c (suc (suc (suc zero))) lo hi = c
one_to_three P a b c (suc (suc (suc (suc k)))) lo hi = absurd (omega arith)

pub one_to_seven {ℓ} :
    (P : ℕ → Type ℓ) → P 1 → P 2 → P 3 → P 4 → P 5 → P 6 → P 7 → (k : ℕ) → 1 ≤ k → k ≤ 7 → P k
one_to_seven P a b c d e f g zero lo hi = absurd (omega arith)
one_to_seven P a b c d e f g (suc zero) lo hi = a
one_to_seven P a b c d e f g (suc (suc zero)) lo hi = b
one_to_seven P a b c d e f g (suc (suc (suc zero))) lo hi = c
one_to_seven P a b c d e f g (suc (suc (suc (suc zero)))) lo hi = d
one_to_seven P a b c d e f g (suc (suc (suc (suc (suc k))))) lo hi =
    one_to_three (λ j. P (suc (suc (suc (suc j))))) e f g (suc k) (omega arith) (omega arith)
