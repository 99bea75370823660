-- ===== src/Base/Long.antt =====
-- `long` and `size_t`, words of 64 bits. `long` wraps as `int` does in Word.
use ucb_rtes.Base.{ℕ, ◌+◌, ◌-◌, ◌%◌, ◌^◌, ◌<◌, ◌≡◌, arith, ltb, if◌then◌else◌}
use ucb_rtes.Base.Int.{ℤ, pos, negsuc, ◌+ℤ◌}

-- The bit pattern of an integer, modulo 2 ^ 64: its conversion to `size_t`.
abbrev pub to_size : ℤ → ℕ
to_size (pos n) = n % 2 ^ 64
to_size (negsuc n) = 2 ^ 64 - 1 - n % 2 ^ 64

unfoldable pub to_long : ℤ → ℤ
to_long z = let w = to_size z in if ltb w (2 ^ 63) then pos w else negsuc (2 ^ 64 - w - 1)

pub add_long : (a b : ℕ) → a + b < 2 ^ 63 → to_long (pos a +ℤ pos b) ≡ pos (a + b)
unfolding to_long ◌+ℤ◌
add_long a b h = ground arith
