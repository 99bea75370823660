-- ===== src/Threads/Exit.antt =====
-- What a service needs in order to exit once the sequencer has ended: its flag set, and a token if
-- it is in `sem_wait`.
use ucb_rtes.Base.{ℕ, ◌<◌, ◌≡◌, ◌⊎◌, inl, inr, true, Option, none, some, arith, Option-cases}
use ucb_rtes.Threads.{
  Service, Pc, check, wait, woken, released, finished, Fleet, service_step, Owns,
}

-- How many steps a service takes at most before it exits, with its flag set and a token at hand.
abbrev pub steps_left : Pc → ℕ
steps_left wait = 4
steps_left woken = 3
steps_left released = 2
steps_left check = 1
steps_left finished = 0

-- The service has exited, or it can take a step and is nearer to its exit after it.
abbrev pub ExitsSoon : Service → ℕ → Fleet → Type 0
ExitsSoon v k s =
    (s.pcs k ≡ finished)
    ⊎ ((t : Fleet) × (service_step v k s ≡ some t) × (steps_left (t.pcs k) < steps_left (s.pcs k)))

module _ {k : ℕ} {v : Service} {table : ℕ → Option Service} (own : Owns table k v) where
  advances :
      (s t : Fleet)
      → s.aborts v.abort_flag ≡ true
      → service_step v k s ≡ some t
      → steps_left (t.pcs k) < steps_left (s.pcs k)
  unfolding service_step
  advances s t g e = ground arith

  stops :
      (s : Fleet) → (s.pcs k ≡ wait → 0 < s.sems k) → service_step v k s ≡ none → s.pcs k ≡ finished
  unfolding service_step
  stops s w e = ground (arith, own.own_sem)

  pub exits_soon :
      (s : Fleet) → s.aborts v.abort_flag ≡ true → (s.pcs k ≡ wait → 0 < s.sems k) → ExitsSoon v k s
  exits_soon s g w = elim (Option-cases (service_step v k s)) [
    | inl e ↦ inl (stops s w e)
    | inr (t, e) ↦ inr (t, e, advances s t g e)
  ]
