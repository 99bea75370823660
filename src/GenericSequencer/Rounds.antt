-- ===== src/GenericSequencer/Rounds.antt =====
-- One round of the reference of generic-sequencer.cpp in a run with no phases: what it keeps, and what
-- it adds to the times of the releases.
use ucb_rtes.Base.{
  ℕ, suc, ◌+◌, ◌-◌, ◌*◌, ◌<◌, ◌≤◌, ◌≡◌, List, [], ◌∷◌, arith, ltb, if◌then◌else◌, update, ◌==◌,
  Bool-cases, inl, inr, ◌↔◌, ap,
}
use native.Mathlib.Decide.{dec_lt}
use ucb_rtes.GenericSequencer.{Event, sleep_for, post, Service, run_time, max_frequency}
use ucb_rtes.GenericSequencer.Refinement.{deadline_mono}
use ucb_rtes.GenericSequencer.Reference.{
  due, earliest, earliest_le, earliest_first, earliest_unique,
}
use ucb_rtes.GenericSequencer.Schedule.{
  release_times, deadlines, deadlines-zero, deadlines-suc, deadline-lt, deadline_end,
  release_times-round,
}

module _ (services : ℕ → Service) (m : ℕ) where
  -- Services 0 to m, with frequencies above 0 and up to 3 GHz.
  pub record IsPlain : Type 0 where
    pub runs : (k : ℕ) → k ≤ m → 0 < (services k).frequency
    pub in_range : (k : ℕ) → k ≤ m → (services k).frequency ≤ max_frequency

  -- A state of the run at time `now`.
  pub record IsRunning (now : ℕ) (releases : ℕ → ℕ) : Type 0 where
    pub within : (k : ℕ) → k ≤ m → releases k ≤ 3 * (services k).frequency
    pub on_time : (k : ℕ) → k ≤ m → now ≤ due services releases k

  -- The releases of service k from a state on.
  abbrev pub to_come : (ℕ → ℕ) → ℕ → List ℕ
  to_come releases k =
      deadlines (services k) (releases k)
        (3 * (services k).frequency - releases k + (if k == 0 then 1 else 0))

  -- The service of the next round.
  abbrev pub chosen : (ℕ → ℕ) → ℕ
  chosen releases = earliest services releases m

  module _ (plain : IsPlain) (now : ℕ) (releases : ℕ → ℕ) (h : IsRunning now releases) where
    not_before : (k : ℕ) → k ≤ m → due services releases (chosen releases) ≤ due services releases k
    not_before k p = ground (arith, earliest_first services releases m k p)

    pub due_runs :
        (k : ℕ)
        → k ≤ m
        → (due services releases k < run_time) ↔ (releases k < 3 * (services k).frequency)
    due_runs k p = deadline-lt (services k) (releases k) (plain.runs k p)

    pub round-IsRunning :
        due services releases (chosen releases) < run_time
        → IsRunning
            (due services releases (chosen releases))
            (update releases (chosen releases) (releases (chosen releases) + 1))
    round-IsRunning d = record {
      within = λ k p. ground (arith, h.within k p, (due_runs k p).0, d);
      on_time = λ k p.
          ground (arith, not_before k p, deadline_mono (services k) (releases k) (plain.runs k p));
    }

    -- Every service has had its releases when the earliest deadline is the end of the run.
    all_done :
        run_time ≤ due services releases (chosen releases)
        → (k : ℕ) → k ≤ m
        → releases k ≡ 3 * (services k).frequency
    all_done d k p = elim (dec_lt (releases k) (3 * (services k).frequency)) [
      | yes q ↦ absurd (omega (arith, (due_runs k p).1 q, not_before k p))
      | no q ↦ omega (arith, h.within k p)
    ]

    -- The last deadline of every service is the end of the run, so the first service is on top.
    last_due :
        run_time ≤ due services releases (chosen releases)
        → (k : ℕ) → k ≤ m
        → due services releases k ≡ run_time
    last_due d k p =
        let e : releases k ≡ 3 * (services k).frequency = all_done d k p in
        rw e (deadline_end (services k) (plain.runs k p))

    first_service : run_time ≤ due services releases (chosen releases) → (chosen releases) ≡ 0
    first_service d =
        earliest_unique services releases m 0 (omega arith)
          (λ j p. ground (arith, last_due d 0 (omega arith), last_due d j p))

    module _ (r : List Event) where
      abbrev pub behind : List Event
      behind =
          if ltb now (due services releases (chosen releases))
          then sleep_for (due services releases (chosen releases) - now)
            ∷ post (chosen releases)
            ∷ r
          else post (chosen releases) ∷ r

      -- What a round adds, from what comes behind it.
      pub times-round :
          (k : ℕ)
          → k ≤ m
          → due services releases (chosen releases) < run_time
          → release_times k (due services releases (chosen releases)) r
            ≡ to_come (update releases (chosen releases) (releases (chosen releases) + 1)) k
          → release_times k now behind ≡ to_come releases k
      times-round k p d ih =
          let chosen_le : (chosen releases) ≤ m = earliest_le services releases m in
          let l : releases (chosen releases) < 3 * (services (chosen releases)).frequency =
            (due_runs (chosen releases) chosen_le).0 d in
          rw
            (release_times-round k (chosen releases) now (due services releases (chosen releases)) r
              (h.on_time (chosen releases) chosen_le))
            (elim (Bool-cases ((chosen releases) == k)) [
              | inl eq ↦
                  let e : k ≡ (chosen releases) = ground arith in
                  let n : 3 * (services (chosen releases)).frequency
                        - releases (chosen releases)
                        + (if (chosen releases) == 0 then 1 else 0)
                      ≡ suc (
                          3 * (services (chosen releases)).frequency
                          - (releases (chosen releases) + 1)
                          + (if (chosen releases) == 0 then 1 else 0)) =
                    omega (arith, l) in
                  ground (
                    arith,
                    e,
                    ih,
                    ap (deadlines (services (chosen releases)) (releases (chosen releases))) n,
                    deadlines-suc (services (chosen releases)) (releases (chosen releases)) (
                        3 * (services (chosen releases)).frequency
                        - (releases (chosen releases) + 1)
                        + (if (chosen releases) == 0 then 1 else 0)),
                  )
              | inr other ↦ ground (arith, ih)
            ])

      pub times-last :
          (k : ℕ)
          → k ≤ m
          → run_time ≤ due services releases (chosen releases)
          → release_times k (due services releases (chosen releases)) r ≡ []
          → release_times k now behind ≡ to_come releases k
      times-last k p d e =
          let z : (chosen releases) ≡ 0 = first_service d in
          let a : releases k ≡ 3 * (services k).frequency = all_done d k p in
          rw
            (release_times-round k (chosen releases) now (due services releases (chosen releases)) r
              (h.on_time (chosen releases) (omega arith)))
            (elim (Bool-cases (k == 0)) [
              | inl first ↦ ground (
                arith,
                deadlines-suc (services k) (releases k) 0,
                deadlines-zero (services k) (releases k + 1),
              )
              | inr other ↦ ground (arith, deadlines-zero (services k) (releases k))
            ])
