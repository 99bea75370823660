-- ===== src/HardcodedSequencer.antt =====
-- 07-hardcoded-sequencer/main.cpp: the C++ version of lab1.c, with the same two services. The work of a
-- service and the output are not modelled.
pub mod Agreement
pub mod Services
pub mod Construction
pub mod Rerun
pub mod Calibrated
mod Tests
use ucb_rtes.Base.{ℕ, zero, suc, true, Option, some, none, List, [], ◌∷◌, ◌==◌, if◌then◌else◌}
use ucb_rtes.Base.Int.{ℤ, pos, ◌-ℤ◌}
use ucb_rtes.Posix.{fifo}
use ucb_rtes.Threads.{Service}
use ucb_rtes.Threads.Plan
use ucb_rtes.Threads.Plan.{Action}
use ucb_rtes.Xpto.Thread.{Attributes}

-- What the sequencer does: it sleeps for a number of milliseconds, posts semf10 (1) or semf20 (2), and
-- sets `abort_test`.
pub data Event : Type 0 where
  sleep_for : ℕ → Event
  post : ℕ → Event
  abort_test : Event

-- One round of the loop, in front of what follows it.
unfoldable pub major_period : List Event → List Event
major_period rest =
    post 1
    ∷ post 2
    ∷ sleep_for 20
    ∷ post 1
    ∷ sleep_for 20
    ∷ post 1
    ∷ sleep_for 10
    ∷ post 2
    ∷ sleep_for 10
    ∷ post 1
    ∷ sleep_for 20
    ∷ post 1
    ∷ sleep_for 20
    ∷ rest

unfoldable pub shutdown : List Event
shutdown = abort_test ∷ post 2 ∷ post 1 ∷ []

-- `while (major_periods--)`, from a count that is not negative, and what follows it.
unfoldable pub sequencer : ℕ → List Event
sequencer zero = shutdown
sequencer (suc major_periods) = major_period (sequencer major_periods)

abbrev pub major_periods : ℕ
major_periods = 3

-- The loops of the threads t10 (1) and t20 (2) on their semaphores; the flag is number 0.
abbrev pub t10 : Service
t10 = record { sem = 1; abort_flag = 0; rechecks = true }

abbrev pub t20 : Service
t20 = record { sem = 2; abort_flag = 0; rechecks = true }

abbrev pub table : ℕ → Option Service
table k = if k == 1 then some t10 else if k == 2 then some t20 else none

-- What the threads see of the sequencer.
unfoldable pub actions : List Event → List Action
actions [] = []
actions (sleep_for t ∷ r) = Plan.sleep ∷ actions r
actions (post k ∷ r) = Plan.post k ∷ actions r
actions (abort_test ∷ r) = Plan.abort 0 ∷ actions r

-- What the three threads are constructed with: the sequencer (0), t10 (1) and t20 (2).
abbrev pub thread_attributes : ℤ → ℕ → Attributes
thread_attributes rt_max_prio k = record {
  affinity = 3 ∷ [];
  stack_size = none;
  name_size = if k == 0 then 9 else 3;
  policy = some fifo;
  prio = some (rt_max_prio -ℤ pos k);
}
