-- ===== src/Threads/Ahead.antt =====
-- A sequencer that runs to its end before the services have begun.
use ucb_rtes.Base.{ℕ, ◌+◌, ◌≡◌, refl, true, false, ◌||◌, Option, List, [], ◌∷◌, arith, update}
use ucb_rtes.Threads.{
  Service, check, finished, Fleet, act, service_step, init, sequencer, service, Reach, here, next,
  Owns,
}
use ucb_rtes.Threads.Hang.{Reach-trans}
use ucb_rtes.Threads.Plan.{Action, posts, has_abort}

-- The sequencer has ended, and the service has not begun.
record IsAhead (f k tokens : ℕ) (s : Fleet) : Type 0 where
  ended : s.todo ≡ []
  idle : s.pcs k ≡ check
  left : s.sems k ≡ tokens
  flagged : s.aborts f ≡ true

module _ {table : ℕ → Option Service} (f k : ℕ) where
  runs_first :
      (plan : List Action) (s : Fleet)
      → s.todo ≡ plan
      → s.pcs k ≡ check
      → (s.aborts f || has_abort f plan) ≡ true
      → (t : Fleet) × Reach false table s t × IsAhead f k (s.sems k + posts k plan) t
  unfolding act posts has_abort
  runs_first [] s e p a =
      (s, here, record { ended = e; idle = p; left = omega arith; flagged = ground (arith, a) })
  runs_first (a ∷ r) s e p h =
      let s' : Fleet = act a (record s { todo = r }) in
      let (t, reach, ahead) = runs_first r s' (ground arith) (ground arith) (ground arith) in
      (
        t,
        Reach-trans (next here (sequencer e)) reach,
        record {
          ended = ahead.ended;
          idle = ahead.idle;
          left = ground (arith, ahead.left);
          flagged = ahead.flagged;
        },
      )

module _ {k : ℕ} {v : Service} {table : ℕ → Option Service} (own : Owns table k v) where
  -- A service that begins when the sequencer has ended sees its flag and ends at once: all the tokens
  -- that were posted stay in its semaphore.
  pub tokens_stay :
      (plan : List Action)
      → has_abort v.abort_flag plan ≡ true
      → (t : Fleet) × Reach false table (init plan) t
        × (t.todo ≡ [])
        × (t.pcs k ≡ finished)
        × (t.sems k ≡ posts k plan)
  unfolding service_step
  tokens_stay plan a =
      let (s, reach, ahead) =
        runs_first v.abort_flag k plan (init plan) refl refl (ground (arith, a)) in
      let t : Fleet = record s { pcs = update s.pcs k finished } in
      (
        t,
        next reach (service k own.listed (λ e. cc) (ground (arith, ahead.idle, ahead.flagged))),
        ahead.ended,
        ground arith,
        ground (arith, ahead.left),
      )
