-- ===== src/GenericSequencer/Reference.antt =====
-- What the sequencer of generic-sequencer.cpp promises, with no queue: each round releases the service
-- whose next deadline comes first, at that deadline, and of those the first in the array.
use ucb_rtes.Base.{
  ℕ, zero, suc, ◌+◌, ◌-◌, ◌≤◌, ◌≡◌, false, List, ◌∷◌, arith, ltb, if◌then◌else◌, update,
}
use native.Mathlib.Decide.{dec_lt}
use ucb_rtes.Base.Run.{Run, done, running, ◌>>=◌}
use ucb_rtes.GenericSequencer.{Event, sleep_for, post, Service, deadline, shutdown, run_time}
use ucb_rtes.GenericSequencer.Queue.{earliest_deadline}

-- The next deadline of service k.
abbrev pub due : (ℕ → Service) → (ℕ → ℕ) → ℕ → ℕ
due services releases k = deadline (services k) (releases k)

-- Of services 0 to m, the one whose deadline comes first.
unfoldable pub earliest : (ℕ → Service) → (ℕ → ℕ) → ℕ → ℕ
earliest services releases zero = 0
earliest services releases (suc m) =
    let k = earliest services releases m in
    if ltb (due services releases (suc m)) (due services releases k) then suc m else k

-- The rounds from time `now` on.
unfoldable pub reference_loop : ℕ → (ℕ → Service) → ℕ → ℕ → (ℕ → ℕ) → Run (List Event)
reference_loop zero services n now releases = running
reference_loop (suc fuel) services n now releases =
    let k = earliest services releases (n - 1) in
    let d = due services releases k in
    let again = reference_loop fuel services n d (update releases k (releases k + 1)) in
    (if ltb d run_time then again else done (shutdown n 0)) >>= λ r.
    done (if ltb now d then sleep_for (d - now) ∷ post k ∷ r else post k ∷ r)

unfoldable pub reference : ℕ → (ℕ → Service) → ℕ → Run (List Event)
reference fuel services n = reference_loop fuel services n 0 (λ _. 0)

module _ (services : ℕ → Service) (releases : ℕ → ℕ) where
  pub earliest_le : (m : ℕ) → earliest services releases m ≤ m
  unfolding earliest
  earliest_le zero = omega arith
  earliest_le (suc m) = ground (arith, earliest_le m)

  -- It comes behind none of them.
  pub earliest_first :
      (m k : ℕ)
      → k ≤ m
      → earliest_deadline
          (record {
            deadline = due services releases (earliest services releases m);
            svc = earliest services releases m;
          })
          (record { deadline = due services releases k; svc = k })
        ≡ false
  unfolding earliest
  earliest_first zero zero h = ground arith
  earliest_first zero (suc k) h = absurd (omega arith)
  earliest_first (suc m) k h = elim (dec_lt m k) [
    | yes p ↦ let e : k ≡ suc m = omega arith in rw e (ground (arith, earliest_le m))
    | no p ↦ ground (arith, earliest_first m k (omega arith), earliest_le m)
  ]

  -- And it is the only one.
  pub earliest_unique :
      (m k : ℕ)
      → k ≤ m
      → ((j : ℕ)
          → j ≤ m
          → earliest_deadline
              (record { deadline = due services releases k; svc = k })
              (record { deadline = due services releases j; svc = j })
            ≡ false)
      → earliest services releases m ≡ k
  earliest_unique m k h f =
      ground (arith, earliest_first m k h, f (earliest services releases m) (earliest_le m))
