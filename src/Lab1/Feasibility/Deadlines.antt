-- ===== src/Lab1/Feasibility/Deadlines.antt =====
-- lab1.c: the services meet their deadlines as long as fib10 needs no more than 10 ms and fib20 no more
-- than 20 ms, and 20 ms is the limit.
use ucb_rtes.Base.{
  ℕ, zero, suc, ◌+◌, ◌-◌, ◌*◌, ◌<◌, ◌≤◌, ◌≡◌, refl, List, [], ◌∷◌, arith, if◌then◌else◌, ◌==◌,
}
use ucb_rtes.Base.Run.{done}
use ucb_rtes.Lab1.{
  Event, usleep, sem_post, abort_test, major_period, shutdown, sequencer, usec_per_msec,
}
use ucb_rtes.Lab1.Schedule.{runs, rounds, sequencer-rounds}
use ucb_rtes.Lab1.Feasibility.{
  Load, Cpu, idle, release_10, release_20, run_for, execute, Lighter, NoWorse, execute-NoWorse,
}

-- Every release of fib10 takes 10 ms, every one of fib20 the time given, and no sleep is late.
abbrev pub full_load : ℕ → Load
full_load c = record { work = λ k n. if k == 1 then 10 * usec_per_msec else c; late = λ n. 0 }

-- Nothing to do, after whatever number of releases and sleeps.
abbrev idle_after : ℕ → ℕ → ℕ → Cpu
idle_after a b c = record idle { released_10 = a; released_20 = b; sleeps = c }

record IsIdle (s : Cpu) : Type 0 where
  no_work_10 : s.left_10 ≡ 0
  no_work_20 : s.left_20 ≡ 0
  in_time : s.overruns ≡ 0

full_load-rounds :
    (n a b c : ℕ) → IsIdle (execute (full_load (20 * usec_per_msec)) (rounds n) (idle_after a b c))
unfolding execute rounds major_period shutdown
full_load-rounds zero a b c = record { no_work_10 = refl; no_work_20 = refl; in_time = refl }
full_load-rounds (suc n) a b c =
    full_load-rounds n (a + 1 + 1 + 1 + 1 + 1) (b + 1 + 1) (c + 1 + 1 + 1 + 1 + 1 + 1)

same_start : NoWorse idle idle
same_start = record {
  fib10_left = omega arith;
  fib20_left = omega arith;
  same_10 = refl;
  same_20 = refl;
  same_sleeps = refl;
  no_more_overruns = omega arith;
}

pub rounds_in_time :
    (n : ℕ) (l : Load)
    → ((n : ℕ) → l.work 1 n ≤ 10 * usec_per_msec)
    → ((n : ℕ) → l.work 2 n ≤ 20 * usec_per_msec)
    → ((execute l (rounds n) idle).overruns ≡ 0)
      × ((execute l (rounds n) idle).left_10 ≡ 0)
      × ((execute l (rounds n) idle).left_20 ≡ 0)
rounds_in_time n l short_10 short_20 =
    let h = full_load (20 * usec_per_msec) in
    let light : Lighter l h = (short_10, short_20, λ n. omega arith) in
    let i : IsIdle (execute h (rounds n) idle) = full_load-rounds n 0 0 0 in
    let w : NoWorse (execute l (rounds n) idle) (execute h (rounds n) idle) =
      execute-NoWorse l h light (rounds n) idle idle same_start in
    (
      omega (arith, i.in_time, w.no_more_overruns),
      omega (arith, i.no_work_10, w.fib10_left),
      omega (arith, i.no_work_20, w.fib20_left),
    )

-- With fuel for one round more than MajorPeriods, the sequencer ends, and where no release of fib10
-- takes more than 10 ms and none of fib20 more than 20 ms, however late the sleeps are, each service
-- has done the work of a release before its next one, through all major periods, and nothing is left
-- to do when abortTest is set.
pub meets_deadlines :
    (fuel major_periods : ℕ) (l : Load)
    → ((n : ℕ) → l.work 1 n ≤ 10 * usec_per_msec)
    → ((n : ℕ) → l.work 2 n ≤ 20 * usec_per_msec)
    → major_periods < fuel
    → (plan : List Event) × (sequencer fuel major_periods ≡ done plan)
      × ((execute l plan idle).overruns ≡ 0)
      × ((execute l plan idle).left_10 ≡ 0)
      × ((execute l plan idle).left_20 ≡ 0)
meets_deadlines fuel m l short_10 short_20 f =
    let (a, b, c) = rounds_in_time (runs m) l short_10 short_20 in
    (rounds (runs m), sequencer-rounds fuel m f, a, b, c)

overruns-execute :
    (l : Load) (plan : List Event) (s : Cpu) → s.overruns ≤ (execute l plan s).overruns
unfolding execute
overruns-execute l [] s = omega arith
overruns-execute l (usleep t ∷ r) s = overruns-execute l r (run_for (t + l.late s.sleeps) s)
overruns-execute l (sem_post k ∷ r) s =
    let t = if k == 1 then release_10 l s else release_20 l s in
    let p : s.overruns ≤ t.overruns = ground arith in omega (arith, overruns-execute l r t)
overruns-execute l (abort_test ∷ r) s = omega arith

overload-rounds :
    (n : ℕ) → 1 ≤ (execute (full_load (20 * usec_per_msec + 1)) (rounds (suc n)) idle).overruns
unfolding execute rounds major_period shutdown
overload-rounds n = overruns-execute (full_load (20 * usec_per_msec + 1)) (rounds n) _

-- 20 ms is the limit: where a release of fib10 takes 10 ms, no sleep is late, and a release of fib20
-- takes more than 20 ms, some service is released with work of an earlier release to do, however many
-- major periods there are.
pub overload :
    (fuel major_periods c : ℕ)
    → 20 * usec_per_msec < c
    → major_periods < fuel
    → (plan : List Event) × (sequencer fuel major_periods ≡ done plan)
      × (1 ≤ (execute (full_load c) plan idle).overruns)
overload fuel m c more f =
    let l = full_load (20 * usec_per_msec + 1) in
    let h = full_load c in
    let light : Lighter l h = (λ n. omega arith, λ n. omega arith, λ n. omega arith) in
    let e : suc (runs m - 1) ≡ runs m = omega arith in
    let w : NoWorse (execute l (rounds (runs m)) idle) (execute h (rounds (runs m)) idle) =
      execute-NoWorse l h light (rounds (runs m)) idle idle same_start in
    let o : 1 ≤ (execute l (rounds (runs m)) idle).overruns =
      rw e at (overload-rounds (runs m - 1)) in
    (rounds (runs m), sequencer-rounds fuel m f, omega (arith, o, w.no_more_overruns))
