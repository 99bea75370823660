-- ===== src/Lab1.antt =====
-- 07-hardcoded-sequencer/lab1.c: a sequencer that releases two services, S1 with T1 = 20 ms and S2 with
-- T2 = 50 ms, by a fixed schedule over a major period of 100 ms; a service burns its computation time
-- with FIB_TEST.
pub mod Fib
pub mod Schedule
pub mod Services
pub mod Preemption
pub mod Setup
pub mod Feasibility
mod Tests
use ucb_rtes.Base.{ℕ, zero, suc, ◌+◌, ◌*◌, List, [], ◌∷◌, ltb, if◌then◌else◌}
use ucb_rtes.Base.Run.{Run, done, running, ◌>>=◌}
use ucb_rtes.Threads.Plan
use ucb_rtes.Threads.Plan.{Action}

abbrev pub usec_per_msec : ℕ
usec_per_msec = 1000

-- What the sequencer does: `usleep` for a number of microseconds, `sem_post` of semF10 (1) or of
-- semF20 (2), and `abortTest=1`.
pub data Event : Type 0 where
  usleep : ℕ → Event
  sem_post : ℕ → Event
  abort_test : Event

-- One round of the loop, in front of what follows it.
unfoldable pub major_period : List Event → List Event
major_period rest =
    sem_post 1
    ∷ sem_post 2
    ∷ usleep (20 * usec_per_msec)
    ∷ sem_post 1
    ∷ usleep (20 * usec_per_msec)
    ∷ sem_post 1
    ∷ usleep (10 * usec_per_msec)
    ∷ sem_post 2
    ∷ usleep (10 * usec_per_msec)
    ∷ sem_post 1
    ∷ usleep (20 * usec_per_msec)
    ∷ sem_post 1
    ∷ usleep (20 * usec_per_msec)
    ∷ rest

unfoldable pub shutdown : List Event
shutdown = abort_test ∷ sem_post 1 ∷ sem_post 2 ∷ []

-- `do … while (MajorPeriodCnt < threadParams->MajorPeriods)`, and what follows it.
unfoldable pub sequencer_loop : ℕ → ℕ → ℕ → Run (List Event)
sequencer_loop zero major_periods cnt = running
sequencer_loop (suc fuel) major_periods cnt =
    let again = sequencer_loop fuel major_periods (cnt + 1) in
    (if ltb (cnt + 1) major_periods then again else done shutdown) >>= λ rest.
    done (major_period rest)

unfoldable pub sequencer : ℕ → ℕ → Run (List Event)
sequencer fuel major_periods = sequencer_loop fuel major_periods 0

-- The same for the interleaving of the threads, where only the order of the actions counts; the flag
-- is number 0.
unfoldable pub actions : List Event → List Action
actions [] = []
actions (usleep t ∷ r) = Plan.sleep ∷ actions r
actions (sem_post k ∷ r) = Plan.post k ∷ actions r
actions (abort_test ∷ r) = Plan.abort 0 ∷ actions r
