-- ===== src/HardcodedSequencer/Services.antt =====
-- 07-hardcoded-sequencer/main.cpp: the threads t10 and t20 beside the sequencer.
use ucb_rtes.Base.{
  ℕ, zero, suc, ◌+◌, ◌*◌, ◌≤◌, ◌≡◌, refl, ◌∙◌, false, Bool, true, some, [], arith, ◌==◌,
  if◌then◌else◌,
}
use ucb_rtes.Threads.{Service, finished, Fleet, Reach, init, Owns}
use ucb_rtes.Threads.Plan.{abort_then_post, has_post, has_abort, posts}
use ucb_rtes.Threads.Exit.{ExitsSoon}
use ucb_rtes.Threads.AbortFirst.{abort_first_exits}
use ucb_rtes.Threads.Ahead.{tokens_stay}
use ucb_rtes.Threads.Count.{Reach-IsCounted}
use ucb_rtes.HardcodedSequencer.{major_period, shutdown, sequencer, actions, table}

abbrev pub service_of : ℕ → Service
service_of k = record { sem = k; abort_flag = 0; rechecks = true }

alone : (k : ℕ) → (j : ℕ) (w : Service) → table j ≡ some w → w.sem ≡ k → j ≡ k
alone k j w e f = ground arith

pub table-Owns : (k : ℕ) → 1 ≤ k → k ≤ 2 → Owns table k (service_of k)
table-Owns k lo hi = record { listed = ground arith; own_sem = refl; alone = alone k }

abort_then_post-sequencer :
    (k n : ℕ) → 1 ≤ k → k ≤ 2 → abort_then_post 0 k (actions (sequencer n)) ≡ true
unfolding sequencer major_period shutdown actions abort_then_post has_post
abort_then_post-sequencer k zero lo hi = ground arith
abort_then_post-sequencer k (suc n) lo hi = abort_then_post-sequencer k n lo hi

-- Releases in a major period.
abbrev pub releases_of : ℕ → ℕ
releases_of k = if k == 1 then 5 else 2

posts-sequencer :
    (k n : ℕ) → 1 ≤ k → k ≤ 2 → posts k (actions (sequencer n)) ≡ releases_of k * n + 1
unfolding sequencer major_period shutdown actions posts
posts-sequencer k zero lo hi = ground arith
posts-sequencer k (suc n) lo hi = ground (arith, posts-sequencer k n lo hi)

-- Under any interleaving of the threads, in every state that a run reaches with the sequencer ended,
-- t10 (k = 1) and t20 (k = 2) have each ended, or can take a step, and each such step brings them
-- nearer to their end; and each has counted at most 5 and 2 releases in each major period, and the one
-- of the shutdown.
pub threads_join :
    {fifo : Bool} {s : Fleet} (n k : ℕ)
    → 1 ≤ k
    → k ≤ 2
    → Reach fifo table (init (actions (sequencer n))) s
    → s.todo ≡ []
    → ExitsSoon (service_of k) k s × (s.counts k ≤ releases_of k * n + 1)
threads_join n k lo hi r e = (
  abort_first_exits (table-Owns k lo hi) (actions (sequencer n))
      (abort_then_post-sequencer k n lo hi) r e,
  omega (
    arith,
    Reach-IsCounted (table-Owns k lo hi) (actions (sequencer n)) r,
    posts-sequencer k n lo hi,
  ),
)

has_abort-sequencer : (n : ℕ) → has_abort 0 (actions (sequencer n)) ≡ true
unfolding sequencer major_period shutdown actions has_abort
has_abort-sequencer zero = refl
has_abort-sequencer (suc n) = has_abort-sequencer n

-- For every number n of major periods, t10 (k = 1) and t20 (k = 2) can each end with all that was
-- posted for it left in its semaphore, 5 * n + 1 and 2 * n + 1 tokens: where the threads interleave
-- freely, it can begin when the sequencer has ended.
pub tokens_left :
    (n k : ℕ)
    → 1 ≤ k
    → k ≤ 2
    → (s : Fleet) × Reach false table (init (actions (sequencer n))) s
      × (s.todo ≡ [])
      × (s.pcs k ≡ finished)
      × (s.sems k ≡ releases_of k * n + 1)
tokens_left n k lo hi =
    let (s, reach, ended, out, left) =
      tokens_stay (table-Owns k lo hi) (actions (sequencer n)) (has_abort-sequencer n) in
    (s, reach, ended, out, left ∙ posts-sequencer k n lo hi)
