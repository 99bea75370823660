-- ===== src/Threads.antt =====
-- The threads that the sequencer programs run: one sequencer, which posts semaphores and sets abort
-- flags, and numbered services, each a loop on its own semaphore and its abort flag
-- (08-sequencer-generic/sam-sequencer/seqgen.c, seqgen2.c, seqgenex0.c, generic-sequencer.cpp in the
-- folder above them, and lab1.c and main.cpp of 07-hardcoded-sequencer).
-- A program gives the list of actions of its sequencer and the table of its services; the threads
-- interleave in any order, or under SCHED_FIFO with the sequencer on top and all on one core.
pub mod Plan
pub mod Every
pub mod Count
pub mod Exit
pub mod Hang
pub mod Fifo
pub mod AbortFirst
pub mod Ahead
pub mod Stale
use ucb_rtes.Base.{
  ℕ, zero, suc, ◌+◌, ◌≡◌, Bool, true, false, ◌&&◌, Option, none, some, List, [], ◌∷◌, update,
  if◌then◌else◌,
}
use Plan.{Action, sleep, post, abort}

-- The parameters of `while (!abort) { sem_wait(&sem); … }`. A loop that `rechecks` tests the flag
-- once more between `sem_wait` and its work.
pub record Service : Type 0 where
  pub sem : ℕ
  pub abort_flag : ℕ
  pub rechecks : Bool

-- Where a service thread stands: at the test of its loop, in `sem_wait`, behind it, in its work with
-- the release counted, or behind `pthread_exit`.
pub data Pc : Type 0 where
  check wait woken released finished : Pc

-- The shared state, the rest of the sequencer's actions, and the state of the services.
pub record Fleet : Type 0 where
  pub todo : List Action
  pub sems : ℕ → ℕ
  pub aborts : ℕ → Bool
  pub pcs : ℕ → Pc
  pub counts : ℕ → ℕ

-- `sem_post`, an assignment to a flag, a wait for time to pass.
pub act : Action → Fleet → Fleet
act sleep s = s
act (post k) s = record s { sems = update s.sems k (s.sems k + 1) }
act (abort k) s = record s { aborts = update s.aborts k true }

-- `sem_wait` with the semaphore at the value given: it blocks at 0.
take : ℕ → Service → ℕ → Fleet → Option Fleet
take zero v k s = none
take (suc n) v k s = some (record s { sems = update s.sems v.sem n; pcs = update s.pcs k woken })

step_at : Pc → Service → ℕ → Fleet → Option Fleet
unfolding take
step_at check v k s =
    some (record s { pcs = update s.pcs k (if s.aborts v.abort_flag then finished else wait) })
step_at wait v k s = take (s.sems v.sem) v k s
step_at woken v k s =
    if v.rechecks && s.aborts v.abort_flag
    then some (record s { pcs = update s.pcs k finished })
    else some
        (record s { pcs = update s.pcs k released; counts = update s.counts k (s.counts k + 1) })
step_at released v k s = some (record s { pcs = update s.pcs k check })
step_at finished v k s = none

-- The next step of service `k`; `none` when it is blocked or has exited.
pub service_step : Service → ℕ → Fleet → Option Fleet
unfolding step_at
service_step v k s = step_at (s.pcs k) v k s

-- The threads as they are created, with semaphores at 0 and flags at FALSE.
abbrev pub init : List Action → Fleet
init plan = record {
  todo = plan;
  sems = λ _. 0;
  aborts = λ _. false;
  pcs = λ _. check;
  counts = λ _. 0;
}

-- A service can run while the sequencer, at a higher priority on the same core, sleeps or has ended.
abbrev pub IsYielding : List Action → Type 0
IsYielding [] = Unit
IsYielding (sleep ∷ _) = Unit
IsYielding _ = ⊥

-- One step of one thread, with the sequencer unrestrained (`fifo` false) or on top (`fifo` true).
pub data Step (fifo : Bool) (table : ℕ → Option Service) (s : Fleet) : Fleet → Type 0 where
  sequencer :
      {a : Action} {rest : List Action}
      → s.todo ≡ a ∷ rest
      → Step fifo table s (act a (record s { todo = rest }))
  service :
      (k : ℕ) {v : Service} {t : Fleet}
      → table k ≡ some v
      → (fifo ≡ true → IsYielding s.todo)
      → service_step v k s ≡ some t
      → Step fifo table s t

pub data Reach (fifo : Bool) (table : ℕ → Option Service) (s : Fleet) : Fleet → Type 0 where
  here : Reach fifo table s s
  next : {t u : Fleet} → Reach fifo table s t → Step fifo table t u → Reach fifo table s u

-- Service `k` has the parameters `v`, and semaphore `k` is its own.
pub record Owns (table : ℕ → Option Service) (k : ℕ) (v : Service) : Type 0 where
  pub listed : table k ≡ some v
  pub own_sem : v.sem ≡ k
  pub alone : (j : ℕ) (w : Service) → table j ≡ some w → w.sem ≡ k → j ≡ k
