-- ===== src/GenericSequencer.antt =====
-- 08-sequencer-generic/generic-sequencer.cpp: a sequencer that takes the next release from a priority
-- queue of absolute deadlines, and services that wait for theirs.
-- The queue is any implementation of the interface. The services are numbered from 0 on, in the order
-- of the array, and their number is a parameter. Times are in nanoseconds; the loop runs on fuel.
pub mod Queue
pub mod OrderedList
pub mod Reference
pub mod Refinement
pub mod Schedule
pub mod Rounds
pub mod Times
pub mod Lateness
pub mod Services
mod Tests
use ucb_rtes.Base.{
  ℕ, zero, suc, ◌+◌, ◌-◌, ◌*◌, ◌/◌, ◌^◌, ◌&&◌, Bool, Option, none, some, List, [], ◌∷◌, ◌++◌, ltb,
  ◌==◌, if◌then◌else◌, update, map,
}
use ucb_rtes.Base.Run.{Run, done, exited, running, ◌>>=◌}
use ucb_rtes.Threads.Plan
use ucb_rtes.Threads.Plan.{Action}
use Queue.{Element, PriorityQueue}

abbrev pub giga : ℕ
giga = 1_000_000_000

-- `3s`, the end of the run.
abbrev pub run_time : ℕ
run_time = 3 * giga

-- 3 GHz. Up to there the deadlines of the run are defined.
abbrev pub max_frequency : ℕ
max_frequency = 3 * giga

-- `frequency` of a `service`, a `size_t`; its semaphore, flag and cycles are those of its thread, and
-- its releases are in the state.
pub record Service : Type 0 where
  pub frequency : ℕ

-- `duration_t phase{}`: no service of the program sets its phase, a signed number of nanoseconds.
abbrev pub phase : ℕ
phase = 0

-- `services`: "t1" at 10 Hz, "t2" at 3 Hz, "t3" at 1 Hz.
abbrev pub services : ℕ → Service
services k =
    if k == 0
    then record { frequency = 10 }
    else if k == 1
    then record { frequency = 3 }
    else record { frequency = 1 }

-- `x.phase + service::duration_t{x.releases * std::giga::num / x.frequency}`
unfoldable pub deadline : Service → ℕ → ℕ
deadline x releases = phase + releases * giga / x.frequency

-- Whether that has a defined value, by `int64_t` arithmetic: it holds the product, and the frequency,
-- which is not 0. The sum is not above the product.
unfoldable pub is_defined : Service → ℕ → Bool
is_defined x releases =
    ltb 0 x.frequency && ltb x.frequency (2 ^ 63) && ltb (releases * giga) (2 ^ 63)

-- What the sequencer does: `sleep_for`, the message on a missed deadline, `sem.post()` of a service,
-- and `abort = true` of a service.
pub data Event : Type 0 where
  sleep_for : ℕ → Event
  missed : ℕ → Event
  post : ℕ → Event
  abort : ℕ → Event

-- For each service: `x.abort = true; x.sem.post();`, with `left` of them from k on.
unfoldable pub shutdown : ℕ → ℕ → List Event
shutdown zero k = []
shutdown (suc left) k = abort k ∷ post k ∷ shutdown left (k + 1)

-- The variable `elapsed` behind the `if` on `rem`, and what is done there.
abbrev pub advance : ℕ → ℕ → ℕ
advance elapsed d = if ltb elapsed d then d else elapsed

abbrev pub wait : ℕ → Element → List Event → List Event
wait elapsed e rest =
    if ltb elapsed e.deadline
    then sleep_for (e.deadline - elapsed) ∷ rest
    else if ltb e.deadline elapsed
    then missed e.svc ∷ rest
    else rest

module _ (pq : PriorityQueue) where
  open pq use {Queue, empty, emplace, top, pop}

  -- `queue`, `elapsed`, and `releases` of each service.
  pub record State : Type 0 where
    pub queue : Queue
    pub elapsed : ℕ
    pub releases : ℕ → ℕ

  -- The state behind one round that finds `e` on top.
  abbrev pub round : (ℕ → Service) → Element → State → State
  round services e s =
      let releases = s.releases e.svc + 1 in
      record {
        queue =
            emplace (record { deadline = deadline (services e.svc) releases; svc = e.svc })
              (pop s.queue);
        elapsed = advance s.elapsed e.deadline;
        releases = update s.releases e.svc releases;
      }

  -- One round and what follows it, `again` for the rounds to come; `top` of an empty queue is
  -- undefined, and counted as an exit, and so is a deadline that is not defined. `n` is the number of services.
  unfoldable pub rounds_from :
      (State → Run (List Event)) → (ℕ → Service) → ℕ → State → Option Element → Run (List Event)
  rounds_from again services n s none = exited
  rounds_from again services n s (some e) =
      let s' = round services e s in
      if is_defined (services e.svc) (s.releases e.svc + 1)
      then ((if ltb s'.elapsed run_time then again s' else done (shutdown n 0)) >>= λ r.
          done (wait s.elapsed e (post e.svc ∷ r)))
      else exited

  -- The `do … while` and what follows it.
  unfoldable pub sequencer_loop : ℕ → (ℕ → Service) → ℕ → State → Run (List Event)
  sequencer_loop zero services n s = running
  sequencer_loop (suc fuel) services n s =
      rounds_from (sequencer_loop fuel services n) services n s (top s.queue)

  -- `queue.emplace(x.phase, &x)` for the first `n` services.
  unfoldable pub fill : (ℕ → Service) → ℕ → Queue
  fill services zero = empty
  fill services (suc k) = emplace (record { deadline = phase; svc = k }) (fill services k)

  unfoldable pub sequencer : ℕ → (ℕ → Service) → ℕ → Run (List Event)
  sequencer fuel services n =
      sequencer_loop fuel services n
        (record { queue = fill services n; elapsed = 0; releases = λ _. 0 })
