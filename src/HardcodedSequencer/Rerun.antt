-- ===== src/HardcodedSequencer/Rerun.antt =====
-- 07-hardcoded-sequencer/main.cpp, run twice: `semf10` and `semf20` are default-constructed, so that
-- both runs open the same named semaphores, which nothing unlinks.
use ucb_rtes.Base.{ℕ, ◌+◌, ◌*◌, ◌≤◌, ◌≡◌, false, Option, none, some, List, [], ap, ◌∙◌}
use ucb_rtes.Threads.{Fleet, Reach, init, finished}
use ucb_rtes.Threads.Stale.{init_from, stale_tokens}
use ucb_rtes.Xpto.Semaphore.{SemCalls, construct_default, destroy, auto_text}
use ucb_rtes.Xpto.Semaphore.Persistence.{IsPersistent, tokens-construct_default, tokens-destroy}
use ucb_rtes.HardcodedSequencer.{sequencer, actions, table}
use ucb_rtes.HardcodedSequencer.Services.{table-Owns, releases_of, tokens_left}

module _ {K : Type 0} (calls : SemCalls K) where
  -- `xpto::sem semf10{}; xpto::sem semf20{};`, the first of the process: their payloads.
  unfoldable pub open_semaphores : K → ℕ × ℕ × K
  open_semaphores k0 =
      let (semf10, counter, k1) = construct_default calls 0 k0 in
      let (semf20, _, k2) = construct_default calls counter k1 in (semf10, semf20, k2)

  -- Their destructors, at the end of `main`.
  unfoldable pub close_semaphores : ℕ → ℕ → K → K
  close_semaphores semf10 semf20 k = destroy calls semf10 (destroy calls semf20 k)

abbrev pub value_of : Option ℕ → ℕ
value_of none = 0
value_of (some n) = n

-- The values of the semaphores, by their automatic names.
abbrev pub values : {K : Type 0} → (List ℕ → K → Option ℕ) → K → ℕ → ℕ
values tokens k j = value_of (tokens (auto_text j) k)

module _ {K : Type 0} (calls : SemCalls K) (tokens : List ℕ → K → Option ℕ)
    (laws : IsPersistent calls tokens) where
  reopened :
      (semf10 semf20 j n : ℕ) (k : K)
      → tokens (auto_text j) k ≡ some n
      → tokens (auto_text j) ((open_semaphores calls (close_semaphores calls semf10 semf20 k)).2)
        ≡ some n
  unfolding open_semaphores close_semaphores construct_default
  reopened semf10 semf20 j n k e =
      let closed =
        tokens-destroy calls tokens laws (auto_text j) semf10 (destroy calls semf20 k)
        ∙ tokens-destroy calls tokens laws (auto_text j) semf20 k
        ∙ e in
      tokens-construct_default calls tokens laws (auto_text j) 1 n _
        (tokens-construct_default calls tokens laws (auto_text j) 0 n _ closed)

  -- What the second run finds in the semaphores when the first one left `kernel` behind.
  abbrev found : ℕ → ℕ → K → ℕ → ℕ
  found semf10 semf20 kernel =
      values tokens ((open_semaphores calls (close_semaphores calls semf10 semf20 kernel)).2)

  -- For every number of major periods, a first run can end with all that was posted for t10 (k = 1) or
  -- t20 (k = 2) left in its semaphore, 5 or 2 times that number and 1. When it does, and the system
  -- keeps the value of a semaphore that is closed, or opened with O_CREAT, then in a second run that
  -- service can be released as many times before the sequencer has taken a single step.
  pub stale_releases :
      (first second k semf10 semf20 : ℕ) (kernel : K)
      → 1 ≤ k
      → k ≤ 2
      → tokens (auto_text k) kernel ≡ some (releases_of k * first + 1)
      → ((s : Fleet) × Reach false table (init (actions (sequencer first))) s
          × (s.todo ≡ [])
          × (s.pcs k ≡ finished)
          × (s.sems k ≡ releases_of k * first + 1))
        × ((t : Fleet) × Reach false table
              (init_from (found semf10 semf20 kernel) (actions (sequencer second)))
              t
            × (t.todo ≡ actions (sequencer second))
            × (t.counts k ≡ releases_of k * first + 1))
  stale_releases first second k semf10 semf20 kernel lo hi e =
      let (t, reach, rest, count) =
        stale_tokens (table-Owns k lo hi) (found semf10 semf20 kernel)
          (actions (sequencer second)) in
      let same : found semf10 semf20 kernel k ≡ releases_of k * first + 1 =
        ap value_of (reopened semf10 semf20 k (releases_of k * first + 1) kernel e) in
      (tokens_left first k lo hi, (t, reach, rest, count ∙ same))
