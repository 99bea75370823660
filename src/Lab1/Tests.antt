-- ===== src/Lab1/Tests.antt =====
-- Runs of the model of lab1.c, and the theorems at concrete inputs.
use ucb_rtes.Base.{◌≤◌, ℕ, ◌≡◌, ◌*◌, refl, false, List, [], none, arith, ◌==◌, if◌then◌else◌}
use ucb_rtes.Base.Int.{pos}
use ucb_rtes.Base.Run.{done}
use ucb_rtes.Posix.{other, Attr}
use ucb_rtes.Threads.{Fleet, Reach, init}
use ucb_rtes.Threads.Hang.{sequencer_ends}
use ucb_rtes.Threads.Exit.{ExitsSoon}
use ucb_rtes.Lab1.{Event, sequencer, actions, usec_per_msec}
use ucb_rtes.Lab1.Fib.{Globals, fib_test, fib_while, fib_for}
use ucb_rtes.Lab1.Preemption.{while_fib, preempted, preempted-ends}
use ucb_rtes.Lab1.Schedule.{
  rounds, sequencer-rounds, release_times, evenly, release_times-sequencer,
}
use ucb_rtes.Lab1.Services.{table, fib20, services_exit}
use ucb_rtes.Lab1.Setup.{Machine}
use ucb_rtes.Lab1.{major_period, shutdown}
use ucb_rtes.Lab1.Feasibility.{Load, execute, idle}
use ucb_rtes.Lab1.Feasibility.Deadlines.{full_load, meets_deadlines, overload}

-- The variables as the program initialises them.
abbrev globals : Globals
globals = record { idx = 0; jdx = 1; fib = 0; fib0 = 0; fib1 = 1 }

ten_rounds :
    fib_test 3 10 10 2 globals ≡ done (record { idx = 2; jdx = 10; fib = 89; fib0 = 34; fib1 = 55 })
unfolding fib_test fib_for fib_while
ten_rounds = refl

release_times-sequencer_example :
    (plan : List Event) × (sequencer 4 3 ≡ done plan)
    × (release_times 1 0 plan ≡ evenly (20 * usec_per_msec) 0 15)
    × (release_times 2 0 plan ≡ evenly (50 * usec_per_msec) 0 6)
release_times-sequencer_example = release_times-sequencer 4 3 (omega arith)

abbrev ended : (s : Fleet) × Reach false table (init (actions (rounds 3))) s × (s.todo ≡ [])
ended = sequencer_ends (actions (rounds 3)) _ refl

services_exit_example : ExitsSoon fib20 2 ended.0
services_exit_example =
    services_exit 2 (omega arith) (omega arith) (omega arith) (sequencer-rounds 4 3 (omega arith))
      ended.1 ended.2

-- The priorities of Linux, and a process that has not got SCHED_FIFO.
abbrev plain : Machine
plain = record {
  sem_f10_fails = false;
  sem_f20_fails = false;
  rt_max_prio = pos 99;
  policy = other;
}

abbrev no_attrs : ℕ → Attr
no_attrs _ = record { explicit_sched = false; policy = other; sched_priority = pos 0; core = none }

-- fib20 in its third round of 100, in the middle of the `while`, with fib10 asked for 8 calls.
abbrev third_round : Globals
third_round = record { idx = 2; jdx = 4; fib = 8; fib0 = 3; fib1 = 5 }

preempted-ends_example :
    (h : Globals) × (preempted 9 10 8 while_fib 1 10 10 third_round ≡ done h) × (100 ≤ h.idx)
preempted-ends_example =
    preempted-ends 9 10 8 while_fib 10 third_round (λ e. absurd (ground arith)) (omega arith)
      (omega arith) (omega arith) (omega arith)

-- The first release of fib10 takes 9 ms and the later ones 10; fib20 takes 20 ms; each sleep is 55
-- microseconds late.
abbrev measured : Load
measured = record {
  work = λ k n. if k == 1 then if n == 0 then 9_000 else 10_000 else 20_000;
  late = λ n. 55;
}

measured_period : execute measured (rounds 1) idle ≡ record {
  left_10 = 0;
  left_20 = 0;
  released_10 = 5;
  released_20 = 2;
  sleeps = 6;
  overruns = 0;
}
unfolding execute rounds major_period shutdown
measured_period = refl

meets_deadlines_example :
    (plan : List Event) × (sequencer 4 3 ≡ done plan)
    × ((execute measured plan idle).overruns ≡ 0)
    × ((execute measured plan idle).left_10 ≡ 0)
    × ((execute measured plan idle).left_20 ≡ 0)
meets_deadlines_example =
    meets_deadlines 4 3 measured (λ n. ground arith) (λ n. omega arith) (omega arith)

overload_example :
    (plan : List Event) × (sequencer 4 3 ≡ done plan)
    × (1 ≤ (execute (full_load 20_500) plan idle).overruns)
overload_example = overload 4 3 20_500 (omega arith) (omega arith)
