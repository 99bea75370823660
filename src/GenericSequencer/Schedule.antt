-- ===== src/GenericSequencer/Schedule.antt =====
-- The times at which generic-sequencer.cpp releases its services, with no phase and `sleep_for` taken
-- to be exact.
use ucb_rtes.Base.{
  ℕ, zero, suc, ◌+◌, ◌-◌, ◌*◌, ◌/◌, ◌<◌, ◌≤◌, ◌≡◌, refl, List, [], ◌∷◌, arith, ltb, if◌then◌else◌,
  update, ◌==◌, ◌↔◌,
}
use native.Mathlib.Decide.{dec_lt}
use native.Mathlib.Nat.{div-lt_iff_lt-mul, mul-div_cancel, div-mul-le_self, lt-div-mul-add}
use ucb_rtes.GenericSequencer.{
  Event, sleep_for, post, missed, abort, Service, deadline, giga, phase, shutdown, run_time,
}

-- When service k is posted, from time t on and before the first abort, in nanoseconds.
unfoldable pub release_times : ℕ → ℕ → List Event → List ℕ
release_times k t [] = []
release_times k t (sleep_for d ∷ r) = release_times k (t + d) r
release_times k t (missed j ∷ r) = release_times k t r
release_times k t (post j ∷ r) = if j == k then t ∷ release_times k t r else release_times k t r
release_times k t (abort j ∷ r) = []

-- The deadlines of `left` releases of a service, from number i on.
unfoldable pub deadlines : Service → ℕ → ℕ → List ℕ
deadlines x i zero = []
deadlines x i (suc left) = deadline x i ∷ deadlines x (i + 1) left

pub deadlines-zero : (x : Service) (i : ℕ) → deadlines x i 0 ≡ []
unfolding deadlines
deadlines-zero x i = refl

pub deadlines-suc :
    (x : Service) (i left : ℕ) → deadlines x i (suc left) ≡ deadline x i ∷ deadlines x (i + 1) left
unfolding deadlines
deadlines-suc x i left = refl

-- A deadline is less than a nanosecond before the ideal time, and never behind it, for any number of
-- releases: i / frequency seconds after the phase, written without division.
pub deadline_drift :
    (x : Service) (i : ℕ)
    → 0 < x.frequency
    → ((deadline x i - phase) * x.frequency ≤ i * giga)
      × (i * giga < (deadline x i - phase) * x.frequency + x.frequency)
unfolding deadline
deadline_drift x i p =
    let e : phase + i * giga / x.frequency - phase ≡ i * giga / x.frequency = omega arith in
    rw e (div-mul-le_self (i * giga) x.frequency, lt-div-mul-add p)

-- With no phase, release i is due in the 3 seconds of the run exactly when i is below 3 * frequency.
pub deadline-lt :
    (x : Service) (i : ℕ) → 0 < x.frequency → (deadline x i < run_time) ↔ (i < 3 * x.frequency)
unfolding deadline
deadline-lt x i p =
    let d = div-lt_iff_lt-mul {k = x.frequency} {x = i * giga} {y = run_time} p in
    (λ h. omega (arith, d.0 (omega arith)), λ h. omega (arith, d.1 (omega arith)))

pub deadline_end : (x : Service) → 0 < x.frequency → deadline x (3 * x.frequency) ≡ run_time
unfolding deadline
deadline_end x p =
    let q : 3 * x.frequency * giga ≡ run_time * x.frequency = omega arith in
    rw q (omega (arith, mul-div_cancel run_time p))

-- The releases of the run that are still to come for the first `n` services.
unfoldable pub outstanding : (ℕ → Service) → (ℕ → ℕ) → ℕ → ℕ
outstanding services releases zero = 0
outstanding services releases (suc k) =
    (3 * (services k).frequency - releases k) + outstanding services releases k

pub outstanding_other :
    (services : ℕ → Service) (releases : ℕ → ℕ) (j r n : ℕ)
    → n ≤ j
    → outstanding services (update releases j r) n ≡ outstanding services releases n
unfolding outstanding
outstanding_other services releases j r zero h = refl
outstanding_other services releases j r (suc k) h =
    ground (arith, outstanding_other services releases j r k (omega arith))

pub outstanding-update :
    (services : ℕ → Service) (releases : ℕ → ℕ) (j n : ℕ)
    → j < n
    → releases j < 3 * (services j).frequency
    → outstanding services (update releases j (releases j + 1)) n + 1
      ≡ outstanding services releases n
unfolding outstanding
outstanding-update services releases j zero h l = absurd (omega arith)
outstanding-update services releases j (suc k) h l = elim (dec_lt j k) [
  | yes p ↦ ground (arith, outstanding-update services releases j k p l)
  | no p ↦
      let e : j ≡ k = omega arith in
      ground (arith, outstanding_other services releases j (releases j + 1) k (omega arith))
]

-- A round, for the times of the releases.
pub release_times-round :
    (k j now d : ℕ) (r : List Event)
    → now ≤ d
    → release_times k now (if ltb now d then sleep_for (d - now) ∷ post j ∷ r else post j ∷ r)
      ≡ (if j == k then d ∷ release_times k d r else release_times k d r)
unfolding release_times
release_times-round k j now d r h = elim (dec_lt now d) [
  | yes p ↦ let e : now + (d - now) ≡ d = omega arith in ground (arith, e)
  | no p ↦ let e : now ≡ d = omega arith in ground (arith, e)
]

pub release_times-shutdown : (k t n : ℕ) → release_times k t (shutdown (suc n) 0) ≡ []
unfolding release_times shutdown
release_times-shutdown k t n = refl
