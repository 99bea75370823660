-- ===== src/Triangle.antt =====
-- Sums of consecutive numbers, for the loops of 01-simplethread, 04-simplethread-affinity and
-- 06-rt-simplethread that add them up.
use native.Mathlib.Numerals.{add-one}
use ucb_rtes.Base.{refl, ℕ, zero, suc, ◌+◌, ◌*◌, ◌^◌, ◌<◌, ◌≤◌, ◌≡◌, arith}
use ucb_rtes.Base.Int.{pos, ◌+ℤ◌}
use ucb_rtes.Base.Word.{to_int, to_int-eq}

-- The sum of the numbers below n.
unfoldable pub triangle : ℕ → ℕ
triangle zero = 0
triangle (suc n) = triangle n + n

pub triangle-one : triangle 1 ≡ 0
unfolding triangle
triangle-one = refl

pub triangle-suc : (n : ℕ) → triangle n + n ≡ triangle (n + 1)
unfolding triangle
triangle-suc n = rw add-one refl

pub triangle_closed : (n : ℕ) → 2 * triangle n + n ≡ n * n
unfolding triangle
triangle_closed zero = omega arith
triangle_closed (suc n) =
    let h : 2 * triangle n + n ≡ n * n = triangle_closed n in
    let e : suc n * suc n ≡ n * n + 2 * n + 1 = ground arith in omega (arith, h, e)

pub triangle-le : (n : ℕ) → n ≤ 2 ^ 15 → triangle n ≤ n * 2 ^ 15
unfolding triangle
triangle-le zero h = omega arith
triangle-le (suc n) h = omega (arith, triangle-le n (omega arith))

-- A sum of two numbers that stays below 2 ^ 31 is an `int`.
pub add_int : (a b : ℕ) → a + b < 2 ^ 31 → to_int (pos a +ℤ pos b) ≡ pos (a + b)
unfolding ◌+ℤ◌
add_int a b h = ground (arith, to_int-eq (pos (a + b)))
