-- ===== src/Base/Family.antt =====
-- Families indexed by a number: the semaphores, the flags and the threads of a program.
use Prim.Native.Nat.{ℕ}
use ucb_rtes.Base.Tests.{◌==◌, if◌then◌else◌}

-- `f[i] = a`
abbrev pub update {ℓ} : {A : Type ℓ} → (ℕ → A) → ℕ → A → ℕ → A
update f i a j = if i == j then a else f j
