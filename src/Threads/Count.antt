-- ===== src/Threads/Count.antt =====
-- Releases are neither lost nor invented: tokens in a semaphore, releases counted by its service and
-- posts to come add up to the posts of the plan.
use ucb_rtes.Base.{ℕ, ◌+◌, ◌≤◌, ◌≡◌, Bool, Option, some, List, ◌∷◌, arith}
use ucb_rtes.Threads.{
  Service, Pc, woken, finished, Fleet, act, service_step, init, Step, sequencer, service, Reach,
  here, next, Owns,
}
use ucb_rtes.Threads.Plan.{Action, sleep, post, abort, posts}

-- A service that has taken a token and not counted it yet. One that finds the flag set behind
-- `sem_wait` drops the token, and exits.
abbrev pub in_hand : Pc → ℕ
in_hand woken = 1
in_hand _ = 0

abbrev pub dropped : Pc → ℕ
dropped finished = 1
dropped _ = 0

module _ {k : ℕ} {v : Service} {table : ℕ → Option Service} (own : Owns table k v) where
  abbrev pub IsCounted : ℕ → Fleet → Type 0
  IsCounted total s =
      (s.sems k + in_hand (s.pcs k) + s.counts k + posts k s.todo ≤ total)
      × (total ≤ s.sems k + in_hand (s.pcs k) + s.counts k + posts k s.todo + dropped (s.pcs k))

  act-IsCounted :
      (n : ℕ) (a : Action) (rest : List Action) (s : Fleet)
      → s.todo ≡ a ∷ rest
      → IsCounted n s
      → IsCounted n (act a (record s { todo = rest }))
  unfolding act posts
  act-IsCounted n sleep rest s e h = ground arith
  act-IsCounted n (post j) rest s e h = ground arith
  act-IsCounted n (abort j) rest s e h = ground arith

  service-IsCounted :
      (n j : ℕ) (w : Service) (s t : Fleet)
      → table j ≡ some w
      → service_step w j s ≡ some t
      → IsCounted n s
      → IsCounted n t
  unfolding service_step
  service-IsCounted n j w s t e step h = ground (arith, own.listed, own.own_sem, own.alone j w e)

  Step-IsCounted :
      {fifo : Bool} (n : ℕ) {s t : Fleet} → Step fifo table s t → IsCounted n s → IsCounted n t
  Step-IsCounted n (sequencer {a} {rest} e) h = act-IsCounted n a rest _ e h
  Step-IsCounted n (service j {v = w} e _ step) h = service-IsCounted n j w _ _ e step h

  -- In every reachable state, under any interleaving, the releases that a service has counted are at
  -- most the posts of its semaphore; when it is blocked with no post to come, it has counted them all.
  pub Reach-IsCounted :
      {fifo : Bool} (plan : List Action) {s : Fleet}
      → Reach fifo table (init plan) s
      → IsCounted (posts k plan) s
  Reach-IsCounted plan here = omega arith
  Reach-IsCounted plan (next r st) = Step-IsCounted (posts k plan) st (Reach-IsCounted plan r)
