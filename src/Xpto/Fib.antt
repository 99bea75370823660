-- ===== src/Xpto/Fib.antt =====
-- include/xpto/ucbrtes.hpp: FIB_TEST and the calibrated work of `work_for`. FIB_TEST stands in
-- 06-rt-simplethread/pthread.cpp too, where its variables are not volatile. Clock readings are
-- arguments, and the output is not modelled.
pub mod Agreement
pub mod Calibration
use ucb_rtes.Base.{ℕ, zero, suc, ◌+◌, ◌/◌, ltb, ◌==◌, if◌then◌else◌}
use ucb_rtes.Base.Int.{ℤ, pos, ◌+ℤ◌, ltb_ℤ}
use ucb_rtes.Base.Word.{to_int, low_word}
use ucb_rtes.Base.Run.{Run, done, exited, running, ◌>>=◌}
use ucb_rtes.Fibonacci.{u32}

-- The variables: `idx` and `jdx` are `int`, the others `unsigned int`.
pub record Locals : Type 0 where
  pub idx : ℤ
  pub jdx : ℤ
  pub fib : ℕ
  pub fib0 : ℕ
  pub fib1 : ℕ

abbrev pub locals : Locals
locals = record { idx = pos 0; jdx = pos 1; fib = 0; fib0 = 0; fib1 = 1 }

-- The inner `while`, which compares `jdx` as an `unsigned int`.
unfoldable pub fib_while : ℕ → ℕ → Locals → Run Locals
fib_while zero seq_cnt g = running
fib_while (suc fuel) seq_cnt g =
    let again = fib_while fuel seq_cnt (record g {
      fib0 = g.fib1;
      fib1 = g.fib;
      fib = u32 (g.fib1 + g.fib);
      jdx = to_int (g.jdx +ℤ pos 1);
    }) in
    if ltb (low_word g.jdx) seq_cnt then again else done g

-- The `for`, with fuel `rounds`; the `while` in it has `fuel`.
unfoldable pub fib_for : ℕ → ℕ → ℕ → ℕ → Locals → Run Locals
fib_for zero fuel seq_cnt iter_cnt g = running
fib_for (suc rounds) fuel seq_cnt iter_cnt g =
    let again = fib_while fuel seq_cnt (record g { fib = u32 (g.fib0 + g.fib1) }) >>= λ h.
    fib_for rounds fuel seq_cnt iter_cnt
      (record h { jdx = pos 0; idx = to_int (h.idx +ℤ pos 1) }) in
    if ltb (low_word g.idx) iter_cnt then again else done g

-- The function: its result, and its variables at the end.
unfoldable pub fib_test : ℕ → ℕ → ℕ → ℕ → Run (ℤ × Locals)
unfolding fib_for
fib_test rounds fuel seq_cnt iter_cnt =
    fib_for rounds fuel seq_cnt iter_cnt (record locals { idx = pos 0 }) >>= λ h. done (h.idx, h)

-- `work_for`: how many calls of FIB_TEST fill `dur`, from the time that one call took, both in
-- nanoseconds. A call that took no time at all makes the division end the process.
pub iterations : ℕ → ℕ → Run ℕ
iterations dur zero = exited
iterations dur (suc elapsed) = done (dur / suc elapsed)

-- `for (auto i = 0; i < iterations; ++i) f();`, where `i` is an `int`; the number of calls made is
-- counted beside it.
pub work_loop : ℕ → ℕ → ℤ → ℕ → Run ℕ
work_loop zero iters i calls = running
work_loop (suc fuel) iters i calls =
    let again = work_loop fuel iters (to_int (i +ℤ pos 1)) (calls + 1) in
    if ltb_ℤ i (pos iters) then again else done calls

-- One call of what `work_for` returns: how often it calls FIB_TEST.
unfoldable pub work : ℕ → ℕ → ℕ → Run ℕ
unfolding iterations work_loop
work fuel dur elapsed = iterations dur elapsed >>= λ n. work_loop fuel n (pos 0) 0
