-- ===== src/Base/Word.antt =====
-- `int` as a signed word of 32 bits. A result out of range wraps: that is what the atomic operations
-- do, and what the compilers that the programs are built with do on a conversion; for plain `int`
-- arithmetic, where C leaves it undefined, the theorems show that it does not happen.
use ucb_rtes.Base.{ℕ, ◌-◌, ◌%◌, ◌^◌, ◌≡◌, arith, ltb, if◌then◌else◌}
use ucb_rtes.Base.Int.{ℤ, pos, negsuc, ◌≤ℤ◌}

-- The bit pattern of an integer, modulo 2 ^ 32.
abbrev pub low_word : ℤ → ℕ
low_word (pos n) = n % 2 ^ 32
low_word (negsuc n) = 2 ^ 32 - 1 - n % 2 ^ 32

unfoldable pub to_int : ℤ → ℤ
to_int z = let w = low_word z in if ltb w (2 ^ 31) then pos w else negsuc (2 ^ 32 - w - 1)

-- In the range of `int`.
abbrev pub IsInt : ℤ → Type 0
IsInt z = (negsuc (2 ^ 31 - 1) ≤ℤ z) × (z ≤ℤ pos (2 ^ 31 - 1))

pub to_int-eq : (z : ℤ) → IsInt z → to_int z ≡ z
unfolding to_int
to_int-eq (pos n) h = ground arith
to_int-eq (negsuc n) h = ground arith
