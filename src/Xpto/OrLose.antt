-- ===== src/Xpto/OrLose.antt =====
-- include/xpto/orlose.hpp: results of C functions turned into exceptions.
use ucb_rtes.Base.{ℕ, ◌==◌, ◌≡◌, ◌≢◌, arith, if◌then◌else◌, ◌⊎◌, not}
use ucb_rtes.Base.Int.{ℤ, pos, ==_ℤ}

-- What an integral call comes to: its value, or an exception whose text names the value and the error
-- that `errno` stands for. `errno` is left as given.
pub data Outcome : Type 0 where
  returns : (errno : ℤ) → Outcome
  throws : (value errno : ℤ) → Outcome

-- `or_lose` at an integral type, and `ZCALL_OR_LOSE`: what the call returned, and `errno` behind it.
unfoldable pub or_lose : ℤ → ℤ → Outcome
or_lose value errno =
    if not (==_ℤ value (pos 0))
    then throws value (if ==_ℤ errno (pos 0) then value else errno)
    else returns errno

-- A call that returns a pointer: the pointer, or an exception whose text names `errno`.
pub data Pointed : Type 0 where
  points : ℕ → Pointed
  throws_errno : ℤ → Pointed

-- `or_lose` at a pointer type, and `PCALL_OR_LOSE`; the null pointer is 0.
unfoldable pub or_lose_pointer : ℕ → ℤ → Pointed
or_lose_pointer value errno = if value == 0 then throws_errno errno else points value

-- The functions of pthread return their error and leave `errno` alone. The exception names that error
-- if `errno` was 0, and the error of some earlier call if it was not.
pub or_lose_errno :
    (value errno : ℤ)
    → value ≢ pos 0
    → ((errno ≡ pos 0) × (or_lose value errno ≡ throws value value))
      ⊎ ((errno ≢ pos 0) × (or_lose value errno ≡ throws value errno))
unfolding or_lose
or_lose_errno value errno h = ground arith
