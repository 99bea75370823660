-- ===== src/Lab1/Schedule.antt =====
-- The times at which the sequencer of lab1.c releases its services, `usleep` taken to be exact.
use ucb_rtes.Base.{
  ℕ, zero, suc, ◌+◌, ◌-◌, ◌*◌, ◌<◌, ◌≡◌, refl, max, true, List, [], ◌∷◌, arith, ltb, if◌then◌else◌,
  lt→ltb, ◌==◌, ap, ◌∙◌,
}
use ucb_rtes.Base.Run.{done}
use ucb_rtes.Lab1.{
  Event, usleep, sem_post, abort_test, major_period, shutdown, sequencer_loop, sequencer,
  usec_per_msec,
}

-- When semaphore k is posted, from time t on and before the abort, in microseconds.
pub release_times : ℕ → ℕ → List Event → List ℕ
release_times k t [] = []
release_times k t (usleep d ∷ r) = release_times k (t + d) r
release_times k t (sem_post j ∷ r) = if j == k then t ∷ release_times k t r else release_times k t r
release_times k t (abort_test ∷ r) = []

-- `n` times at a distance, from t on.
pub evenly : ℕ → ℕ → ℕ → List ℕ
evenly step t zero = []
evenly step t (suc n) = t ∷ evenly step (t + step) n

-- A whole run of n rounds.
unfoldable pub rounds : ℕ → List Event
rounds zero = shutdown
rounds (suc n) = major_period (rounds n)

sequencer_loop-rounds :
    (fuel periods cnt n : ℕ)
    → n < fuel
    → suc n + cnt ≡ max (cnt + 1) periods
    → sequencer_loop fuel periods cnt ≡ done (rounds (suc n))
unfolding sequencer_loop rounds
sequencer_loop-rounds zero periods cnt n f e = absurd (omega arith)
sequencer_loop-rounds (suc fuel) periods cnt zero f e = ground arith
sequencer_loop-rounds (suc fuel) periods cnt (suc n) f e =
    let c : ltb (cnt + 1) periods ≡ true = lt→ltb _ _ (omega arith) in
    rw c (rw (sequencer_loop-rounds fuel periods (cnt + 1) n (omega arith) (omega arith)) refl)

release_times-rounds-1 : (n t : ℕ) → release_times 1 t (rounds n) ≡ evenly 20_000 t (5 * n)
unfolding release_times evenly rounds major_period shutdown
release_times-rounds-1 zero t = refl
release_times-rounds-1 (suc n) t =
    let e : 5 * suc n ≡ suc (suc (suc (suc (suc (5 * n))))) = omega arith in
    let f : t + 20_000 + 20_000 + 10_000 + 10_000 ≡ t + 20_000 + 20_000 + 20_000 = omega arith in
    rw e
      (rw f (rw (release_times-rounds-1 n (t + 20_000 + 20_000 + 20_000 + 20_000 + 20_000)) refl))

release_times-rounds-2 : (n t : ℕ) → release_times 2 t (rounds n) ≡ evenly 50_000 t (2 * n)
unfolding release_times evenly rounds major_period shutdown
release_times-rounds-2 zero t = refl
release_times-rounds-2 (suc n) t =
    let e : 2 * suc n ≡ suc (suc (2 * n)) = omega arith in
    let f : t + 20_000 + 20_000 + 10_000 ≡ t + 50_000 = omega arith in
    let g : t + 50_000 + 10_000 + 20_000 + 20_000 ≡ t + 50_000 + 50_000 = omega arith in
    rw e (rw f (rw g (rw (release_times-rounds-2 n (t + 50_000 + 50_000)) refl)))

-- How many major periods a run has: the loop tests its count behind the first.
abbrev pub runs : ℕ → ℕ
runs major_periods = max 1 major_periods

pub sequencer-rounds :
    (fuel major_periods : ℕ)
    → major_periods < fuel
    → sequencer fuel major_periods ≡ done (rounds (runs major_periods))
unfolding sequencer
sequencer-rounds fuel m f =
    let e : suc (runs m - 1) ≡ runs m = omega arith in
    sequencer_loop-rounds fuel m 0 (runs m - 1) (omega arith) (omega arith)
    ∙ ap (λ n. done (rounds n)) e

-- With fuel for one round more than MajorPeriods, the sequencer ends, and it has released S1 every
-- 20 ms and S2 every 50 ms, from time 0 on: 5 times and twice in each major period, of which there is
-- at least one. The sleeps are taken to be exact.
pub release_times-sequencer :
    (fuel major_periods : ℕ)
    → major_periods < fuel
    → (plan : List Event) × (sequencer fuel major_periods ≡ done plan)
      × (release_times 1 0 plan ≡ evenly (20 * usec_per_msec) 0 (5 * max 1 major_periods))
      × (release_times 2 0 plan ≡ evenly (50 * usec_per_msec) 0 (2 * max 1 major_periods))
release_times-sequencer fuel m f = (
  _,
  sequencer-rounds fuel m f,
  release_times-rounds-1 (runs m) 0,
  release_times-rounds-2 (runs m) 0,
)
