-- ===== src/SeqGenEx0/Tests.antt =====
-- Runs of the model of seqgenex0.c, and the theorems at concrete inputs.
use ucb_rtes.Base.{
  ℕ, ◌+◌, ◌==◌, if◌then◌else◌, ◌≡◌, ◌≢◌, refl, true, false, inr, List, [], ◌∷◌, ◌≤◌, arith,
}
use ucb_rtes.Base.Int.{pos, negsuc, ◌+ℤ◌, ◌-ℤ◌, ◌*ℤ◌}
use ucb_rtes.Base.Run.{done}
use ucb_rtes.Posix.{eintr}
use ucb_rtes.Threads.{Fleet, Reach, init}
use ucb_rtes.Threads.Plan.{Action, posts}
use ucb_rtes.Threads.Hang.{sequencer_ends}
use ucb_rtes.Threads.Every.{post_every}
use ucb_rtes.SeqGenEx0.{Env, delay_loop, sequencer_loop, releases, shutdown, sequencer}
use ucb_rtes.SeqGenEx0.Delay.{IsWait}
use ucb_rtes.SeqGenEx0.Rates.{RunsFor, cycles, rate, ceil_div, posts-sequencer0}
use ucb_rtes.SeqGenEx0.Services.{table}
use ucb_rtes.SeqGenEx0.Drift.{Cycle, distance, undamped, scaled_delay}

-- The very first sleep is interrupted once; all others are complete.
abbrev once : Env
once = record { clock_nanosleep = λ i. if i == 0 then eintr else pos 0; abort_test = λ _. false }

zero-neq-eintr : pos 0 ≢ eintr
zero-neq-eintr = ground arith

one_signal : IsWait once.clock_nanosleep 0 1
one_signal = record { interrupted = λ x p q. ground arith; ends = zero-neq-eintr }

once_waits :
    (j : ℕ) → IsWait once.clock_nanosleep (if j == 0 then 0 else j + 1) (if j == 0 then 1 else 0)
once_waits j = record { interrupted = λ x p q. ground arith; ends = ground arith }

once_run : RunsFor once 2400 2399 2
once_run = record {
  first = λ j. if j == 0 then 0 else j + 1;
  signals = λ j. if j == 0 then 1 else 0;
  starts = refl;
  follows = λ j p. ground arith;
  waits = λ j p. once_waits j;
  returns = λ j p. ground arith;
  few = λ j p. ground arith;
  not_aborted = λ j p q. refl;
  below = λ j p q. omega arith;
  small = omega arith;
  stops = inr (omega arith);
}

runs_twice : sequencer 5 2 once 2 ≡ done (cycles 0 2)
unfolding sequencer sequencer_loop delay_loop cycles releases post_every shutdown
runs_twice = refl

posts-sequencer0_example :
    (plan : List Action) × (sequencer 2400 2 once 2400 ≡ done plan)
    × (posts 2 plan ≡ ceil_div 2400 (rate 2) + 1)
posts-sequencer0_example =
    posts-sequencer0 2400 2 once 2400 2399 2 once_run (omega arith) (omega arith) (omega arith)

abbrev ended : (s : Fleet) × Reach true table (init (cycles 0 2400)) s × (s.todo ≡ [])
ended = sequencer_ends (cycles 0 2400) _ refl

-- Two cycles whose overhead is the bias: one run is on time, and in the other one the first period was
-- 4 microseconds too long.
on_time : Cycle 1 100_000 (pos 0) (pos 0)
unfolding scaled_delay ◌+ℤ◌ ◌-ℤ◌ ◌*ℤ◌
on_time = record {
  delay = 9_900_000;
  rounded = (ground arith, ground arith);
  measured = ground arith;
}

first_late : Cycle 1 100_000 (pos 4_000) (negsuc 4_001)
unfolding scaled_delay ◌+ℤ◌ ◌-ℤ◌ ◌*ℤ◌
first_late = record {
  delay = 9_895_998;
  rounded = (ground arith, ground arith);
  measured = ground arith;
}

then_early : Cycle 1 100_000 (negsuc 4_001) (pos 4_004)
unfolding scaled_delay ◌+ℤ◌ ◌-ℤ◌ ◌*ℤ◌
then_early = record {
  delay = 9_904_004;
  rounded = (ground arith, ground arith);
  measured = ground arith;
}

undamped_example : distance (pos 0) (pos 4_000) ≤ distance (pos 0) (pos 4_004)
undamped_example =
    undamped (100_000 ∷ 100_000 ∷ []) 1 (pos 0) (pos 0) (pos 4_000) (pos 4_004)
      (pos 0, on_time, (pos 0, on_time, refl))
      (negsuc 4_001, first_late, (pos 4_004, then_early, refl)) (omega arith)
