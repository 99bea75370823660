-- ===== src/Threads/Fifo.antt =====
-- With the sequencer on top of the services under SCHED_FIFO, all on one core, no service hangs: the
-- last posts and the flags come between two sleeps, so no service runs in between.
use ucb_rtes.Base.{ℕ, ◌<◌, ◌≡◌, ◌⊎◌, inr, refl, true, false, Option, some, List, [], ◌∷◌, arith}
use ucb_rtes.Threads.{
  Service, wait, Fleet, act, service_step, init, Step, sequencer, service, Reach, here, next, Owns,
  IsYielding,
}
use ucb_rtes.Threads.Exit.{ExitsSoon, exits_soon}
use ucb_rtes.Threads.Plan.{Action, sleep, post, abort, has_post, has_abort, is_quiet, is_armed}

is_armed-is_quiet : (k : ℕ) (r : List Action) → is_quiet r ≡ true → is_armed k r ≡ true
unfolding is_quiet is_armed
is_armed-is_quiet k [] q = refl
is_armed-is_quiet k (sleep ∷ r) q = cc
is_armed-is_quiet k (post j ∷ r) q = is_armed-is_quiet k r q
is_armed-is_quiet k (abort j ∷ r) q = is_armed-is_quiet k r q

module _ {k : ℕ} {v : Service} {table : ℕ → Option Service} (own : Owns table k v) where
  record IsReady (s : Fleet) : Type 0 where
    flagged : (s.aborts v.abort_flag ≡ true) ⊎ (has_abort v.abort_flag s.todo ≡ true)
    armed : is_armed k s.todo ≡ true
    token : is_quiet s.todo ≡ true → has_post k s.todo ≡ false → s.pcs k ≡ wait → 0 < s.sems k

  act-IsReady :
      (a : Action) (rest : List Action) (s : Fleet)
      → s.todo ≡ a ∷ rest
      → IsReady s
      → IsReady (act a (record s { todo = rest }))
  unfolding act has_post has_abort is_quiet is_armed
  act-IsReady sleep rest s e h = ground (arith, is_armed-is_quiet k rest)
  act-IsReady (post j) rest s e h = ground arith
  act-IsReady (abort j) rest s e h = ground arith

  service-IsReady :
      (j : ℕ) (w : Service) (s t : Fleet)
      → IsYielding s.todo
      → table j ≡ some w
      → service_step w j s ≡ some t
      → IsReady s
      → IsReady t
  unfolding service_step has_post has_abort is_quiet is_armed
  service-IsReady j w s t y e step h = ground (arith, own.listed, own.own_sem, own.alone j w e)

  Step-IsReady : {s t : Fleet} → Step true table s t → IsReady s → IsReady t
  Step-IsReady (sequencer {a} {rest} e) h = act-IsReady a rest _ e h
  Step-IsReady (service j {v = w} e y step) h = service-IsReady j w _ _ (y refl) e step h

  Reach-IsReady :
      (plan : List Action)
      → is_armed k plan ≡ true
      → has_abort v.abort_flag plan ≡ true
      → {s : Fleet} → Reach true table (init plan) s
      → IsReady s
  Reach-IsReady plan p q here = record { flagged = inr q; armed = p; token = λ _ _ e. cc }
  Reach-IsReady plan p q (next r st) = Step-IsReady st (Reach-IsReady plan p q r)

  -- Under SCHED_FIFO with the sequencer on top, a plan that posts a service's semaphore behind its
  -- last sleep, and sets its flag, leaves that service able to run to its exit.
  pub fifo_exits :
      (plan : List Action)
      → is_armed k plan ≡ true
      → has_abort v.abort_flag plan ≡ true
      → {s : Fleet} → Reach true table (init plan) s
      → s.todo ≡ []
      → ExitsSoon v k s
  unfolding has_post has_abort is_quiet
  fifo_exits plan p q {s} r e =
      let h : IsReady s = Reach-IsReady plan p q r in
      exits_soon own s (ground (arith, h.flagged)) (ground (arith, h.token))
