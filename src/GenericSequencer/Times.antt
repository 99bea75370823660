-- ===== src/GenericSequencer/Times.antt =====
-- The times of all releases of a run of generic-sequencer.cpp with no phases.
use ucb_rtes.Base.{
  ℕ, zero, suc, ◌+◌, ◌-◌, ◌*◌, ◌<◌, ◌≤◌, ◌≡◌, refl, true, false, List, ◌∷◌, arith, ltb,
  if◌then◌else◌, update, ◌==◌, Bool-cases, inl, inr, ◌∙◌,
}
use ucb_rtes.Base.Run.{Run, done}
use ucb_rtes.GenericSequencer.{Event, sleep_for, post, Service, shutdown, run_time}
use ucb_rtes.GenericSequencer.Reference.{due, earliest_le, reference_loop, reference}
use ucb_rtes.GenericSequencer.Queue.{PriorityQueue}
use ucb_rtes.GenericSequencer.{sequencer}
use ucb_rtes.GenericSequencer.Refinement.{sequencer-eq-reference}
use ucb_rtes.GenericSequencer.Schedule.{
  release_times, deadlines, outstanding, outstanding-update, release_times-shutdown,
}
use ucb_rtes.GenericSequencer.Rounds.{
  IsPlain, IsRunning, chosen, to_come, round-IsRunning, times-round, times-last, due_runs, behind,
}

-- A run of the reference to its end, with the times of the releases of each service.
abbrev Ends : (ℕ → Service) → ℕ → ℕ → (ℕ → ℕ) → Run (List Event) → Type 0
Ends services m now releases run =
    (plan : List Event) × (run ≡ done plan)
    × ((k : ℕ) → k ≤ m → release_times k now plan ≡ to_come services m releases k)

-- A round of the reference that is not the last, and one that is.
module _ (services : ℕ → Service) (m fuel now : ℕ) (releases : ℕ → ℕ) (plan : List Event) where
  abbrev next_due : ℕ
  next_due = due services releases (chosen services m releases)

  abbrev with_round : List Event
  with_round =
      if ltb now next_due
      then sleep_for (next_due - now) ∷ post (chosen services m releases) ∷ plan
      else post (chosen services m releases) ∷ plan

  reference_round :
      ltb next_due run_time ≡ true
      → reference_loop fuel services
          (m + 1)
          next_due
          (update releases (chosen services m releases) (releases (chosen services m releases) + 1))
        ≡ done plan
      → reference_loop (suc fuel) services (m + 1) now releases ≡ done with_round
  unfolding reference_loop
  reference_round runs e = let a : m + 1 - 1 ≡ m = omega arith in rw a (rw runs (rw e refl))

  reference_last :
      ltb next_due run_time ≡ false
      → plan ≡ shutdown (m + 1) 0
      → reference_loop (suc fuel) services (m + 1) now releases ≡ done with_round
  unfolding reference_loop
  reference_last over e = let a : m + 1 - 1 ≡ m = omega arith in rw a (rw over (rw e refl))

module _ (services : ℕ → Service) (m : ℕ) (plain : IsPlain services m) where
  reference_loop-Ends :
      (fuel now : ℕ) (releases : ℕ → ℕ)
      → IsRunning services m now releases
      → outstanding services releases (m + 1) < fuel
      → Ends services m now releases (reference_loop fuel services (m + 1) now releases)
  reference_loop-Ends zero now releases h f = absurd (omega arith)
  reference_loop-Ends (suc fuel) now releases h f =
      let k0 = chosen services m releases in
      let d = due services releases k0 in
      elim (Bool-cases (ltb d run_time)) [
        | inl runs ↦
            let l : d < run_time = ground arith in
            let le : k0 ≤ m = earliest_le services releases m in
            let o : outstanding services (update releases k0 (releases k0 + 1)) (m + 1) + 1
                ≡ outstanding services releases (m + 1) =
              outstanding-update services releases k0 (m + 1) (omega (arith, le))
                ((due_runs services m plain now releases h k0 le).0 l) in
            let (plan, e, times) =
              reference_loop-Ends fuel d (update releases k0 (releases k0 + 1))
                (round-IsRunning services m plain now releases h l) (omega (arith, o)) in
            (
              behind services m plain now releases h plan,
              reference_round services m fuel now releases plan runs e,
              λ k p. times-round services m plain now releases h plan k p l (times k p),
            )
        | inr over ↦
            let l : run_time ≤ d = ground arith in
            let s : suc m ≡ m + 1 = omega arith in
            (
              behind services m plain now releases h (shutdown (m + 1) 0),
              reference_last services m fuel now releases (shutdown (m + 1) 0) over refl,
              λ k p.
                  times-last services m plain now releases h (shutdown (m + 1) 0) k p l
                    (rw s at (release_times-shutdown k d m)),
            )
      ]

  -- The releases of a whole run, of all services together.
  abbrev pub all_releases : ℕ
  all_releases = outstanding services (λ _. 0) (m + 1)

  start-IsRunning : IsRunning services m 0 (λ _. 0)
  start-IsRunning = record { within = λ k p. omega arith; on_time = λ k p. omega arith }

  -- For services 0 to m with no phases and frequencies above 0 and up to 3 GHz, on any priority queue,
  -- the sequencer ends, with fuel for one round more than the releases of 3 seconds. It releases each service k at
  -- every deadline of its own before 3 seconds, 3 * frequency in all, at that deadline and in this
  -- order, and the first service also at 3 seconds. The sleeps are taken to be exact.
  pub release_times-services :
      (pq : PriorityQueue) (fuel k : ℕ)
      → all_releases < fuel
      → k ≤ m
      → (plan : List Event) × (sequencer pq fuel services (m + 1) ≡ done plan)
        × (release_times k 0 plan
            ≡ deadlines (services k) 0 (3 * (services k).frequency + (if k == 0 then 1 else 0)))
  unfolding reference
  release_times-services pq fuel k f p =
      let (plan, e, times) = reference_loop-Ends fuel 0 (λ _. 0) start-IsRunning f in
      let z : 3 * (services k).frequency - 0 ≡ 3 * (services k).frequency = omega arith in
      (
        plan,
        sequencer-eq-reference pq services fuel (m + 1) (omega arith)
              (λ j q. (plain.runs j (omega arith), plain.in_range j (omega arith)))
            ∙ e,
        rw z at (times k p),
      )
