-- ===== src/Threads/Stale.antt =====
-- Threads whose semaphores hold tokens before the sequencer has begun.
use ucb_rtes.Base.{ℕ, zero, suc, ◌+◌, ◌≡◌, refl, false, Option, List, arith, update}
use ucb_rtes.Threads.{
  Service, check, wait, woken, released, Fleet, service_step, init, service, Reach, here, next,
  Owns,
}
use ucb_rtes.Threads.Hang.{Reach-trans}
use ucb_rtes.Threads.Plan.{Action}

-- The threads as they are created, with semaphores as they were found.
abbrev pub init_from : (ℕ → ℕ) → List Action → Fleet
init_from found plan = record (init plan) { sems = found }

-- The service is at the test of its loop, and has not been told to end.
record IsReady (f k n : ℕ) (s : Fleet) : Type 0 where
  idle : s.pcs k ≡ check
  left : s.sems k ≡ n
  unflagged : s.aborts f ≡ false

module _ {k : ℕ} {v : Service} {table : ℕ → Option Service} (own : Owns table k v) where
  abbrev tested : Fleet → Fleet
  tested s = record s { pcs = update s.pcs k wait }

  abbrev taken : ℕ → Fleet → Fleet
  taken n s = record s { sems = update s.sems v.sem n; pcs = update s.pcs k woken }

  abbrev counted : Fleet → Fleet
  counted s = record s {
    pcs = update s.pcs k released;
    counts = update s.counts k (s.counts k + 1);
  }

  abbrev back : Fleet → Fleet
  back s = record s { pcs = update s.pcs k check }

  -- One round of the loop.
  round :
      (n : ℕ) (s : Fleet)
      → IsReady v.abort_flag k (suc n) s
      → Reach false table s (back (counted (taken n (tested s))))
  unfolding service_step
  round n s h =
      let a : Reach false table s (tested s) =
        next here (service k own.listed (λ e. cc) (ground (arith, h.idle, h.unflagged))) in
      let b : Reach false table s (taken n (tested s)) =
        next a (service k own.listed (λ e. cc) (ground (arith, own.own_sem, h.left))) in
      let c : Reach false table s (counted (taken n (tested s))) =
        next b (service k own.listed (λ e. cc) (ground (arith, h.unflagged))) in
      next c (service k own.listed (λ e. cc) (ground arith))

  -- A service takes all the tokens that it finds, while the sequencer has not taken a step.
  takes_found :
      (n : ℕ) (s : Fleet)
      → IsReady v.abort_flag k n s
      → (t : Fleet) × Reach false table s t × (t.todo ≡ s.todo) × (t.counts k ≡ s.counts k + n)
  takes_found zero s h = (s, here, refl, omega arith)
  takes_found (suc n) s h =
      let s' : Fleet = back (counted (taken n (tested s))) in
      let h' : IsReady v.abort_flag k n s' = record {
        idle = ground arith;
        left = ground (arith, own.own_sem);
        unflagged = h.unflagged;
      } in
      let (t, reach, rest, count) = takes_found n s' h' in
      (t, Reach-trans (round n s h) reach, rest, ground (arith, count))

  pub stale_tokens :
      (found : ℕ → ℕ) (plan : List Action)
      → (t : Fleet) × Reach false table (init_from found plan) t
        × (t.todo ≡ plan)
        × (t.counts k ≡ found k)
  stale_tokens found plan =
      let (t, reach, rest, count) =
        takes_found (found k) (init_from found plan)
          (record { idle = refl; left = refl; unflagged = refl }) in
      (t, reach, rest, omega (arith, count))
