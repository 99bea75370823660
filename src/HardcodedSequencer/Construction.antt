-- ===== src/HardcodedSequencer/Construction.antt =====
-- 07-hardcoded-sequencer/main.cpp: `main` where a thread cannot be constructed. It constructs t20, t10 and
-- the sequencer, in this order; nothing catches an exception.
use ucb_rtes.Base.{ℕ, ◌≤◌, ◌≡◌, Bool, true, List, [], ◌∷◌, arith, if◌then◌else◌}
use ucb_rtes.Base.Int.{ℤ}
use ucb_rtes.Threads.{Fleet, init, Reach}
use ucb_rtes.Threads.Plan.{Action}
use ucb_rtes.Threads.Exit.{ExitsSoon}
use ucb_rtes.Xpto.Thread.Lifecycle.{thread_model-cases}
use ucb_rtes.Xpto.Thread.{System, thread_model, is_started}
use ucb_rtes.Xpto.ThreadObjects.{Ending, joins, terminates}
use ucb_rtes.HardcodedSequencer as H
use ucb_rtes.HardcodedSequencer.{thread_attributes, actions, table, major_periods}
use ucb_rtes.HardcodedSequencer.Services.{service_of, threads_join}

-- How the constructor of thread k ends, with the system as it is then.
abbrev pub constructed : (ℕ → System) → ℤ → ℕ → Bool
constructed sys m k = (thread_model (sys k) (thread_attributes m k)).ok

abbrev pub started : (ℕ → System) → ℤ → ℕ → Bool
started sys m k = is_started (sys k) (thread_model (sys k) (thread_attributes m k)).calls

-- How `main` ends: at its end the destructors join the threads, the last one first.
unfoldable pub ending : (ℕ → System) → ℤ → Ending
ending sys m =
    if constructed sys m 2
    then if constructed sys m 1
      then if constructed sys m 0 then joins (0 ∷ 1 ∷ 2 ∷ []) else terminates
      else terminates
    else terminates

-- What the sequencer does, if it runs.
unfoldable pub plan : (ℕ → System) → ℤ → List Action
plan sys m = if started sys m 0 then actions (H.sequencer major_periods) else []

started_of :
    (sys : ℕ → System) (m : ℤ) (k : ℕ) → constructed sys m k ≡ true → started sys m k ≡ true
started_of sys m k e = ground (arith, thread_model-cases (sys k) (thread_attributes m k))

-- If `main` does not end by `std::terminate`, it joins the sequencer, t10 and t20, in this order, and
-- all three were started. Then the joins return: in every state with the sequencer ended, whatever the
-- interleaving, t10 (k = 1) and t20 (k = 2) have ended, or can take a step, and each such step brings
-- them nearer to their end.
pub joined_threads_end :
    (sys : ℕ → System) (rt_max_prio : ℤ) (ks : List ℕ) (k : ℕ) {fifo : Bool} {s : Fleet}
    → 1 ≤ k
    → k ≤ 2
    → ending sys rt_max_prio ≡ joins ks
    → Reach fifo table (init (plan sys rt_max_prio)) s
    → s.todo ≡ []
    → (ks ≡ 0 ∷ 1 ∷ 2 ∷ [])
      × (started sys rt_max_prio 0 ≡ true)
      × (started sys rt_max_prio 1 ≡ true)
      × (started sys rt_max_prio 2 ≡ true)
      × ExitsSoon (service_of k) k s
unfolding ending plan
joined_threads_end sys m ks k {fifo} {s} lo hi e r ended =
    let a : started sys m 0 ≡ true = started_of sys m 0 (ground arith) in
    let b : started sys m 1 ≡ true = started_of sys m 1 (ground arith) in
    let c : started sys m 2 ≡ true = started_of sys m 2 (ground arith) in
    let q : Reach fifo table (init (actions (H.sequencer major_periods))) s = rw a at r in
    (ground arith, a, b, c, (threads_join major_periods k lo hi q ended).0)
