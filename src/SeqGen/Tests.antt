-- ===== src/SeqGen/Tests.antt =====
-- Runs of the model of seqgen.c, and the theorems at concrete inputs.
use ucb_rtes.Base.{ℕ, ◌==◌, none, [], if◌then◌else◌, ◌≡◌, refl, true, false, inr, List, arith}
use ucb_rtes.Base.Int.{pos, negsuc}
use ucb_rtes.Base.Run.{done, exited}
use ucb_rtes.Posix.{Sleep, fifo, other, Attr}
use ucb_rtes.Threads.{Fleet, Reach, init}
use ucb_rtes.Threads.Plan.{Action, posts}
use ucb_rtes.Threads.Hang.{IsHung, sequencer_ends}
use ucb_rtes.Threads.Exit.{ExitsSoon}
use ucb_rtes.Threads.Every.{post_every}
use ucb_rtes.SeqGen.{
  Env, delay_loop, after_delay, cycle, planned, sequencer_trace, sequencer_loop, releases, shutdown,
  sequencer,
}
use ucb_rtes.SeqGen.Rates.{
  GoesOn, RunsFor, cycles, sequencer-cycles, aborts, sequencer-exited, posts-sequencer,
}
use ucb_rtes.SeqGen.Services.{table, service_1, releases-eq, service_hangs, service_exits}
use ucb_rtes.SeqGen.Setup.{Machine}

abbrev slept : Sleep
slept = record { rc = pos 0; remaining = record { tv_sec = 0; tv_nsec = 0 } }

abbrev failed : Sleep
failed = record { rc = negsuc 0; remaining = record { tv_sec = 0; tv_nsec = 5 } }

-- Every sleep is complete, and nobody sets `abortTest`.
abbrev calm : Env
calm = record { nanosleep = λ _. slept; abort_test = λ _. false }

abbrev broken : Env
broken = record { nanosleep = λ _. failed; abort_test = λ _. false }

sixty_cycles : posts 1 (cycles 0 60) ≡ 7
unfolding posts cycles releases post_every shutdown
sixty_cycles = refl

runs_twice : sequencer 5 calm 2 ≡ done (cycles 0 2)
unfolding sequencer sequencer_trace planned sequencer_loop after_delay cycle delay_loop cycles
    releases post_every shutdown
runs_twice = refl

calm_run : RunsFor calm 900 899
calm_run = record {
  before = record {
    not_aborted = λ j p q. refl;
    below = λ j p q. omega arith;
    small = omega arith;
    slept = λ j p. refl;
  };
  last = refl;
  stops = inr (omega arith);
}

-- The third sleep is interrupted.
abbrev flaky : Env
flaky = record { nanosleep = λ i. if i == 2 then failed else slept; abort_test = λ _. false }

flaky_run : GoesOn flaky 900 2
flaky_run = record {
  not_aborted = λ j p q. refl;
  below = λ j p q. omega arith;
  small = omega arith;
  slept = λ j p. ground arith;
}

sequencer-exited_example :
    (plan : List Action) × (sequencer_trace 10 flaky 900 ≡ (plan, exited))
    × (posts 1 plan ≡ 0)
    × (aborts 1 plan ≡ 0)
sequencer-exited_example =
    sequencer-exited 10 flaky 900 2 1 flaky_run refl (omega arith) (omega arith) (omega arith)

posts-sequencer_example :
    (plan : List Action) × (sequencer 900 calm 900 ≡ done plan) × (posts 2 plan ≡ 31)
posts-sequencer_example =
    posts-sequencer 900 calm 900 899 2 calm_run (omega arith) (omega arith) (omega arith)

service_hangs_example : (s : Fleet) × Reach false table (init (cycles 0 900)) s × IsHung 3 s
service_hangs_example =
    service_hangs 3 (omega arith) (omega arith) calm_run (omega arith)
      (sequencer-cycles 900 calm 900 899 calm_run (omega arith))

abbrev hung : (s : Fleet) × Reach false table (init (cycles 0 900)) s × IsHung 3 s
hung =
    service_hangs 3 (omega arith) (omega arith) calm_run (omega arith)
      (sequencer-cycles 900 calm 900 899 calm_run (omega arith))

releases-eq_example : hung.0.counts 3 ≡ 16
releases-eq_example =
    releases-eq 3 (omega arith) (omega arith) calm_run (omega arith)
      (sequencer-cycles 900 calm 900 899 calm_run (omega arith)) hung.1 hung.2

abbrev ended : (s : Fleet) × Reach true table (init (cycles 0 900)) s × (s.todo ≡ [])
ended = sequencer_ends (cycles 0 900) _ refl

service_exits_example : ExitsSoon service_1 1 ended.0
service_exits_example =
    service_exits 1 (omega arith) (omega arith) calm_run (omega arith)
      (sequencer-cycles 900 calm 900 899 calm_run (omega arith)) ended.1 ended.2

-- The priorities of Linux.
abbrev linux : Machine
linux = record {
  sem_init_fails = λ _. false;
  rt_max_prio = pos 99;
  rt_min_prio = pos 1;
  policy = fifo;
}

abbrev no_attrs : ℕ → Attr
no_attrs _ = record { explicit_sched = false; policy = other; sched_priority = pos 0; core = none }
