-- ===== src/Lab1/Feasibility.antt =====
-- lab1.c: whether the services keep up with the sequencer. All three threads run on core 3 under
-- SCHED_FIFO, fib10 above fib20 and the sequencer above both; its own steps take no time. While it sits
-- in `usleep`, fib10 runs as long as it has work, and fib20 in what time is left. Times are in
-- microseconds, and both services are at their `sem_wait` when the sequencer starts.
pub mod Deadlines
use ucb_rtes.Base.{
  ℕ, zero, suc, ◌+◌, ◌-◌, ◌*◌, ◌<◌, ◌≤◌, ◌≡◌, refl, max, Bool, true, false, List, [], ◌∷◌, arith,
  ltb, if◌then◌else◌, ◌==◌, Bool-cases, inl, inr,
}
use ucb_rtes.Base.Run.{done}
use ucb_rtes.Lab1.{
  Event, usleep, sem_post, abort_test, major_period, shutdown, sequencer, usec_per_msec,
}
use ucb_rtes.Lab1.Schedule.{runs, rounds, sequencer-rounds}

-- What a run costs: the work of the n-th release of service k, and by how much the n-th call of
-- `usleep` is late.
pub record Load : Type 0 where
  pub work : ℕ → ℕ → ℕ
  pub late : ℕ → ℕ

-- The work that fib10 and fib20 still have to do, how often each was released, how many sleeps are
-- over, and how often a service was released with work of an earlier release to do.
pub record Cpu : Type 0 where
  pub left_10 : ℕ
  pub left_20 : ℕ
  pub released_10 : ℕ
  pub released_20 : ℕ
  pub sleeps : ℕ
  pub overruns : ℕ

abbrev pub idle : Cpu
idle = record {
  left_10 = 0;
  left_20 = 0;
  released_10 = 0;
  released_20 = 0;
  sleeps = 0;
  overruns = 0;
}

-- A release, and the services under way for a time.
abbrev pub release_10 : Load → Cpu → Cpu
release_10 l s = record s {
  left_10 = s.left_10 + l.work 1 s.released_10;
  released_10 = s.released_10 + 1;
  overruns = s.overruns + (if s.left_10 == 0 then 0 else 1);
}

abbrev pub release_20 : Load → Cpu → Cpu
release_20 l s = record s {
  left_20 = s.left_20 + l.work 2 s.released_20;
  released_20 = s.released_20 + 1;
  overruns = s.overruns + (if s.left_20 == 0 then 0 else 1);
}

abbrev pub run_for : ℕ → Cpu → Cpu
run_for t s = record s {
  left_10 = s.left_10 - t;
  left_20 = s.left_20 - (t - s.left_10);
  sleeps = s.sleeps + 1;
}

-- The run of a plan, up to the abort.
unfoldable pub execute : Load → List Event → Cpu → Cpu
execute l [] s = s
execute l (usleep t ∷ r) s = execute l r (run_for (t + l.late s.sleeps) s)
execute l (sem_post k ∷ r) s = execute l r (if k == 1 then release_10 l s else release_20 l s)
execute l (abort_test ∷ r) s = s

-- One load, and one state, is no worse than another.
abbrev pub Lighter : Load → Load → Type 0
Lighter l h =
    ((n : ℕ) → l.work 1 n ≤ h.work 1 n)
    × ((n : ℕ) → l.work 2 n ≤ h.work 2 n)
    × ((n : ℕ) → h.late n ≤ l.late n)

pub record NoWorse (s t : Cpu) : Type 0 where
  pub fib10_left : s.left_10 ≤ t.left_10
  pub fib20_left : s.left_20 ≤ t.left_20
  pub same_10 : s.released_10 ≡ t.released_10
  pub same_20 : s.released_20 ≡ t.released_20
  pub same_sleeps : s.sleeps ≡ t.sleeps
  pub no_more_overruns : s.overruns ≤ t.overruns

module _ (l h : Load) (lighter : Lighter l h) where
  run_for-NoWorse :
      (t : ℕ) (a b : Cpu)
      → NoWorse a b
      → NoWorse (run_for (t + l.late a.sleeps) a) (run_for (t + h.late b.sleeps) b)
  run_for-NoWorse t a b w =
      let q : h.late b.sleeps ≤ l.late a.sleeps = rw w.same_sleeps (lighter.2 b.sleeps) in
      record {
        fib10_left = omega (arith, w.fib10_left);
        fib20_left = omega (arith, w.fib10_left, w.fib20_left);
        same_10 = w.same_10;
        same_20 = w.same_20;
        same_sleeps = omega (arith, w.same_sleeps);
        no_more_overruns = w.no_more_overruns;
      }

  release_10-NoWorse : (a b : Cpu) → NoWorse a b → NoWorse (release_10 l a) (release_10 h b)
  release_10-NoWorse a b w =
      let q : l.work 1 a.released_10 ≤ h.work 1 b.released_10 =
        rw w.same_10 (lighter.0 b.released_10) in
      ground arith

  release_20-NoWorse : (a b : Cpu) → NoWorse a b → NoWorse (release_20 l a) (release_20 h b)
  release_20-NoWorse a b w =
      let q : l.work 2 a.released_20 ≤ h.work 2 b.released_20 =
        rw w.same_20 (lighter.1 b.released_20) in
      ground arith

  -- With less work for each release, or with later sleeps, there is never more left to do, and never
  -- one overrun more, whatever the plan.
  pub execute-NoWorse :
      (plan : List Event) (a b : Cpu) → NoWorse a b → NoWorse (execute l plan a) (execute h plan b)
  unfolding execute
  execute-NoWorse [] a b w = w
  execute-NoWorse (usleep t ∷ r) a b w = execute-NoWorse r _ _ (run_for-NoWorse t a b w)
  execute-NoWorse (sem_post k ∷ r) a b w = elim (Bool-cases (k == 1)) [
    | inl e ↦ rw e (execute-NoWorse r _ _ (release_10-NoWorse a b w))
    | inr e ↦ rw e (execute-NoWorse r _ _ (release_20-NoWorse a b w))
  ]
  execute-NoWorse (abort_test ∷ r) a b w = w
