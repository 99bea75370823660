-- ===== src/Xpto/Fib/Calibration.antt =====
-- ucbrtes.hpp: how much work `work_for` does.
use native.Mathlib.Nat.{div-lt_iff_lt-mul, div-mul-le_self, lt-div-mul-add}
use ucb_rtes.Base.{ℕ, zero, suc, ◌+◌, ◌*◌, ◌/◌, ◌^◌, ◌<◌, ◌≤◌, ◌≡◌, true, arith}
use ucb_rtes.Base.Int.{pos, ltb_ℤ}
use ucb_rtes.Base.Run.{done}
use ucb_rtes.Triangle.{add_int}
use ucb_rtes.Xpto.Fib.{iterations, work_loop, work}

work_loop-from :
    (n fuel iters i calls : ℕ)
    → n < fuel
    → i + n ≡ iters
    → iters < 2 ^ 31
    → work_loop fuel iters (pos i) calls ≡ done (calls + n)
unfolding work_loop
work_loop-from n zero iters i calls f e h = absurd (omega arith)
work_loop-from zero (suc fuel) iters i calls f e h = ground arith
work_loop-from (suc n) (suc fuel) iters i calls f e h =
    let c : ltb_ℤ (pos i) (pos iters) ≡ true = ground arith in
    let q : calls + suc n ≡ calls + 1 + n = omega arith in
    rw c (
      rw (add_int i 1 (omega arith))
        (rw q (work_loop-from n fuel iters (i + 1) (calls + 1) (omega arith) (omega arith) h)))

-- The work ends, and it calls FIB_TEST as often as the time that one call took goes into `dur`: the
-- calls would take no longer than `dur` at that speed, and one more would. The call took some time,
-- `dur` is less than 2 ^ 31 times that, and there is fuel for one test more than there are calls.
pub work-calibrated :
    (fuel dur elapsed : ℕ)
    → 0 < elapsed
    → dur < 2 ^ 31 * elapsed
    → dur / elapsed < fuel
    → (n : ℕ) × (work fuel dur elapsed ≡ done n) × (n * elapsed ≤ dur) × (dur < (n + 1) * elapsed)
unfolding work iterations
work-calibrated fuel dur zero lo hi f = absurd (omega arith)
work-calibrated fuel dur (suc m) lo hi f =
    let b : dur / suc m < 2 ^ 31 = (div-lt_iff_lt-mul {k = suc m} {x = dur} {y = 2 ^ 31} lo).1 hi in
    let z : 0 + dur / suc m ≡ dur / suc m = omega arith in
    let q : (dur / suc m + 1) * suc m ≡ dur / suc m * suc m + suc m = ground arith in
    (
      dur / suc m,
      rw z at (work_loop-from (dur / suc m) fuel (dur / suc m) 0 0 f z b),
      div-mul-le_self dur (suc m),
      omega (arith, q, lt-div-mul-add {a = dur} {b = suc m} lo),
    )
