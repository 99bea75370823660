-- ===== src/HardcodedSequencer/Calibrated.antt =====
-- 07-hardcoded-sequencer/main.cpp: the work of t10 and t20 is that of `work_for`, calibrated to 10 ms and
-- 20 ms, and the threads share core 3 as those of lab1.c do.
use ucb_rtes.Base.{ℕ, ◌*◌, ◌/◌, ◌^◌, ◌<◌, ◌≤◌, ◌≡◌, refl, sym, ap, ◌∙◌, List, [], ◌∷◌, arith}
use ucb_rtes.Base.Run.{done}
use ucb_rtes.Lab1 as Lab1
use ucb_rtes.Lab1.Schedule.{rounds}
use ucb_rtes.Lab1.Feasibility.{Load, Cpu, idle, execute}
use ucb_rtes.Lab1.Feasibility.Deadlines.{rounds_in_time}
use ucb_rtes.Xpto.Fib.{work}
use ucb_rtes.Xpto.Fib.Calibration.{work-calibrated}
use ucb_rtes.HardcodedSequencer.{sequencer}
use ucb_rtes.HardcodedSequencer.Agreement.{as_lab1, before_abort, before_abort-rounds}

execute-before_abort :
    (l : Load) (plan : List Lab1.Event) (s : Cpu)
    → execute l plan s ≡ execute l (before_abort plan) s
unfolding execute
execute-before_abort l [] s = refl
execute-before_abort l (Lab1.abort_test ∷ r) s = refl
execute-before_abort l (Lab1.usleep t ∷ r) s = execute-before_abort l r _
execute-before_abort l (Lab1.sem_post k ∷ r) s = execute-before_abort l r _

execute-sequencer :
    (l : Load) (n : ℕ) → execute l (as_lab1 (sequencer n)) idle ≡ execute l (rounds n) idle
execute-sequencer l n =
    execute-before_abort l (as_lab1 (sequencer n)) idle
    ∙ ap (λ plan. execute l plan idle) (before_abort-rounds n)
    ∙ sym (execute-before_abort l (rounds n) idle)

-- What `work_for` makes for `dur` nanoseconds takes no longer, where a call of FIB_TEST takes no longer
-- than the `elapsed` that was measured.
work_short :
    (fuel dur elapsed n w : ℕ)
    → 0 < elapsed
    → dur < 2 ^ 31 * elapsed
    → dur / elapsed < fuel
    → work fuel dur elapsed ≡ done n
    → w * 1000 ≤ n * elapsed
    → w * 1000 ≤ dur
work_short fuel dur elapsed n w p q f e le =
    let (m, e', short, _) = work-calibrated fuel dur elapsed p q f in
    let same : n ≡ m = ground (arith, e') in omega (arith, le, short, ap (λ x. x * elapsed) same)

in_usec : (w u : ℕ) → w * 1000 ≤ u * 1000 → w ≤ u
in_usec w u h = omega arith

-- A calibration: FIB_TEST took `elapsed` nanoseconds, `dur` goes into 2 ^ 31 times that, and there is
-- fuel for one test more than there are calls to make, of which there are n.
pub record IsCalibrated (fuel dur elapsed n : ℕ) : Type 0 where
  pub took_time : 0 < elapsed
  pub in_range : dur < 2 ^ 31 * elapsed
  pub enough : dur / elapsed < fuel
  pub calls : work fuel dur elapsed ≡ done n

-- Where work10 makes n10 calls of FIB_TEST and work20 n20, as calibrated with calls of e10 and e20
-- nanoseconds, and no release takes longer than its calls at that speed, in microseconds: t10 and t20
-- each do the work of a release before their next one, for any number of major periods, however late
-- the sleeps are, and nothing is left to do when `abort_test` is set.
pub calibrated_in_time :
    (fuel n e10 e20 n10 n20 : ℕ) (l : Load)
    → IsCalibrated fuel 10_000_000 e10 n10
    → IsCalibrated fuel 20_000_000 e20 n20
    → ((j : ℕ) → l.work 1 j * 1000 ≤ n10 * e10)
    → ((j : ℕ) → l.work 2 j * 1000 ≤ n20 * e20)
    → ((execute l (as_lab1 (sequencer n)) idle).overruns ≡ 0)
      × ((execute l (as_lab1 (sequencer n)) idle).left_10 ≡ 0)
      × ((execute l (as_lab1 (sequencer n)) idle).left_20 ≡ 0)
calibrated_in_time fuel n e10 e20 n10 n20 l a b short_10 short_20 = rw (execute-sequencer l n) (
    rounds_in_time n l
      (λ j. in_usec (l.work 1 j) 10_000 (
        work_short fuel 10_000_000 e10 n10 (l.work 1 j) a.took_time a.in_range a.enough a.calls
          (short_10 j)))
      (λ j. in_usec (l.work 2 j) 20_000 (
        work_short fuel 20_000_000 e20 n20 (l.work 2 j) b.took_time b.in_range b.enough b.calls
          (short_20 j))))
