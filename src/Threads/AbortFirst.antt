-- ===== src/Threads/AbortFirst.antt =====
-- A sequencer that sets the flag first and posts behind it leaves no service hung, under any
-- interleaving.
use ucb_rtes.Base.{ℕ, ◌<◌, ◌≡◌, ◌⊎◌, Bool, true, false, Option, some, List, [], ◌∷◌, arith}
use ucb_rtes.Threads.{
  Service, wait, Fleet, act, service_step, init, Step, sequencer, service, Reach, here, next, Owns,
}
use ucb_rtes.Threads.Exit.{ExitsSoon, exits_soon}
use ucb_rtes.Threads.Plan.{Action, sleep, post, abort, has_post, abort_then_post}

module _ {k : ℕ} {v : Service} {table : ℕ → Option Service} (own : Owns table k v) where
  record IsSafe (s : Fleet) : Type 0 where
    ahead : s.aborts v.abort_flag ≡ false → abort_then_post v.abort_flag k s.todo ≡ true
    token :
        s.aborts v.abort_flag ≡ true → s.pcs k ≡ wait → (0 < s.sems k) ⊎ (has_post k s.todo ≡ true)

  act-IsSafe :
      (a : Action) (rest : List Action) (s : Fleet)
      → s.todo ≡ a ∷ rest
      → IsSafe s
      → IsSafe (act a (record s { todo = rest }))
  unfolding act has_post abort_then_post
  act-IsSafe sleep rest s e h = ground arith
  act-IsSafe (post j) rest s e h = ground arith
  act-IsSafe (abort j) rest s e h = ground arith

  service-IsSafe :
      (j : ℕ) (w : Service) (s t : Fleet)
      → table j ≡ some w
      → service_step w j s ≡ some t
      → IsSafe s
      → IsSafe t
  unfolding service_step
  service-IsSafe j w s t e step h = ground (arith, own.listed, own.own_sem, own.alone j w e)

  Step-IsSafe : {fifo : Bool} {s t : Fleet} → Step fifo table s t → IsSafe s → IsSafe t
  Step-IsSafe (sequencer {a} {rest} e) h = act-IsSafe a rest _ e h
  Step-IsSafe (service j {v = w} e _ step) h = service-IsSafe j w _ _ e step h

  Reach-IsSafe :
      {fifo : Bool} (plan : List Action)
      → abort_then_post v.abort_flag k plan ≡ true
      → {s : Fleet} → Reach fifo table (init plan) s
      → IsSafe s
  Reach-IsSafe plan p here = record { ahead = λ _. p; token = λ e. cc }
  Reach-IsSafe plan p (next r st) = Step-IsSafe st (Reach-IsSafe plan p r)

  -- Under any interleaving, a plan that sets a service's flag and posts its semaphore behind that
  -- leaves the service able to run to its exit.
  pub abort_first_exits :
      {fifo : Bool} (plan : List Action)
      → abort_then_post v.abort_flag k plan ≡ true
      → {s : Fleet} → Reach fifo table (init plan) s
      → s.todo ≡ []
      → ExitsSoon v k s
  unfolding has_post abort_then_post
  abort_first_exits plan p {s} r e =
      let h : IsSafe s = Reach-IsSafe plan p r in
      exits_soon own s (ground (arith, h.ahead)) (ground (arith, h.token))
