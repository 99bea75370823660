-- ===== src/SeqGen2/Tests.antt =====
-- Runs of the model of seqgen2.c, and the theorems at concrete inputs.
use ucb_rtes.Base.{ℕ, ◌==◌, none, if◌then◌else◌, ◌≡◌, ◌≢◌, refl, false, inr, List, arith}
use ucb_rtes.Base.Int.{pos}
use ucb_rtes.Base.Run.{done}
use ucb_rtes.Posix.{eintr, fifo, other, Attr, Created}
use ucb_rtes.Threads.Plan.{Action, posts}
use ucb_rtes.Threads.Every.{post_every}
use ucb_rtes.SeqGen.Setup.{Machine, init_sems}
use ucb_rtes.SeqGen2.{Env, sequencer_loop, releases, shutdown, sequencer}
use ucb_rtes.SeqGen2.Rates.{GoesOn, RunsFor, cycles, posts-sequencer2}
use ucb_rtes.SeqGen2.Setup.{main}

-- Every sleep is complete, and nobody sets `abortTest`.
abbrev calm : Env
calm = record { clock_nanosleep = λ _. pos 0; abort_test = λ _. false }

calm_run : RunsFor calm 2000 1999
calm_run = record {
  before = record {
    not_aborted = λ j p q. refl;
    below = λ j p q. omega arith;
    small = omega arith;
    slept = λ j p. refl;
  };
  last = refl;
  stops = inr (omega arith);
}

runs_twice : sequencer 5 calm 2 ≡ done (cycles 0 2)
unfolding sequencer sequencer_loop cycles releases post_every shutdown
runs_twice = refl

posts-sequencer2_example :
    (plan : List Action) × (sequencer 2000 calm 2000 ≡ done plan) × (posts 6 plan ≡ 21)
posts-sequencer2_example =
    posts-sequencer2 2000 calm 2000 1999 6 calm_run (omega arith) (omega arith) (omega arith)

-- The third sleep is interrupted.
abbrev flaky : Env
flaky = record { clock_nanosleep = λ i. if i == 2 then eintr else pos 0; abort_test = λ _. false }

flaky_run : GoesOn flaky 2000 2
flaky_run = record {
  not_aborted = λ j p q. refl;
  below = λ j p q. omega arith;
  small = omega arith;
  slept = λ j p. ground arith;
}

eintr-neq : eintr ≢ pos 0
eintr-neq = ground arith

-- The priorities of Linux.
abbrev linux : Machine
linux = record {
  sem_init_fails = λ _. false;
  rt_max_prio = pos 99;
  rt_min_prio = pos 1;
  policy = fifo;
}

abbrev no_attrs : ℕ → Attr
no_attrs _ = record { explicit_sched = false; policy = other; sched_priority = pos 0; core = none }

linux_threads : (cs : List Created) × (main linux no_attrs ≡ done cs)
unfolding main init_sems
linux_threads = (_, refl)
