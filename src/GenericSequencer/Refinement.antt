-- ===== src/GenericSequencer/Refinement.antt =====
-- The sequencer of generic-sequencer.cpp, on any priority queue, does what the reference does.
use ucb_rtes.Base.{
  ℕ, zero, suc, ◌+◌, ◌-◌, ◌*◌, ◌/◌, ◌<◌, ◌≤◌, ◌≡◌, refl, true, false, Bool-cases, ltb→lt, List, ◌∷◌,
  arith, ltb, if◌then◌else◌, ◌==◌, ◌&&◌, inl, inr, some, Option-cases, sym,
}
use native.Mathlib.Nat.{le-div_iff_mul-le, div-mul-le_self, zero-div, zero-mul}
use ucb_rtes.Base.Run.{Run, done, exited, running, ◌>>=◌}
use ucb_rtes.GenericSequencer.{
  Event, sleep_for, post, Service, deadline, is_defined, phase, max_frequency, run_time, shutdown,
  giga, advance, wait, State, round, rounds_from, sequencer_loop, fill, sequencer,
}
use ucb_rtes.GenericSequencer.Queue.{Element, earliest_deadline, PriorityQueue}
use ucb_rtes.GenericSequencer.Schedule.{deadline-lt}
use ucb_rtes.GenericSequencer.Reference.{due, earliest, earliest_unique, reference_loop, reference}

abbrev element : (ℕ → Service) → (ℕ → ℕ) → ℕ → Element
element services releases k = record { deadline = due services releases k; svc = k }

-- Services 0 to n - 1 have frequencies above 0 and up to 3 GHz.
abbrev pub IsServed : (ℕ → Service) → ℕ → Type 0
IsServed services n =
    (k : ℕ) → k < n → (0 < (services k).frequency) × ((services k).frequency ≤ max_frequency)

-- Up to one release beyond those of the run, the next deadline is defined.
deadline-is_defined :
    (x : Service) (r : ℕ)
    → (0 < x.frequency) × (x.frequency ≤ max_frequency)
    → r ≤ 3 * x.frequency
    → is_defined x (r + 1) ≡ true
unfolding is_defined
deadline-is_defined x r p h = ground arith

-- A later release has no earlier deadline.
pub deadline_mono : (x : Service) (r : ℕ) → 0 < x.frequency → deadline x r ≤ deadline x (r + 1)
unfolding deadline
deadline_mono x r p =
    let m : (r * giga / x.frequency) * x.frequency ≤ r * giga =
      div-mul-le_self (r * giga) x.frequency in
    let q : r * giga / x.frequency ≤ (r + 1) * giga / x.frequency =
      (le-div_iff_mul-le p).1 (omega (arith, m)) in
    omega (arith, q)

-- A release that is not overdue.
wait_due :
    (x : Run (List Event)) (now : ℕ) (e : Element)
    → now ≤ e.deadline
    → (x >>= λ r. done (wait now e (post e.svc ∷ r))) ≡ (
        x >>= λ r. done (
          if ltb now e.deadline
          then sleep_for (e.deadline - now) ∷ post e.svc ∷ r
          else post e.svc ∷ r))
wait_due (done r) now e h = ground arith
wait_due exited now e h = refl
wait_due running now e h = refl

module _ (pq : PriorityQueue) (services : ℕ → Service) where
  open pq use {top, count}

  -- The queue holds each of the `n` services once, with its next deadline, and none of them is due
  -- before the time that has elapsed, or has had more releases than the run asks for.
  pub record IsQueue (n : ℕ) (s : State pq) : Type 0 where
    pub exact :
        (e : Element)
        → count e s.queue
          ≡ (if ltb e.svc n && (e.deadline == due services s.releases e.svc) then 1 else 0)
    pub not_late : (k : ℕ) → k < n → s.elapsed ≤ due services s.releases k
    pub few : (k : ℕ) → k < n → s.releases k ≤ 3 * (services k).frequency

  module _ (n : ℕ) (s : State pq) (h : IsQueue n s) (e : Element) (t : top s.queue ≡ some e) where
    top-listed : (e.svc < n) × (e.deadline ≡ due services s.releases e.svc)
    top-listed = ground (arith, pq.top_in e s.queue t, h.exact e)

    top-before : (k : ℕ) → k < n → earliest_deadline e (element services s.releases k) ≡ false
    top-before k p =
        pq.top_first (element services s.releases k) e s.queue t
          (ground (arith, h.exact (element services s.releases k)))

    top-earliest : earliest services s.releases (n - 1) ≡ e.svc
    top-earliest =
        let l = top-listed in
        earliest_unique services s.releases (n - 1) e.svc (omega (arith, l))
          (λ j p. ground (arith, l.1, top-before j (omega (arith, l))))

    round-exact :
        IsServed services n
        → (d : Element)
        → let s' = round pq services e s in
          count d s'.queue
          ≡ (if ltb d.svc n && (d.deadline == due services s'.releases d.svc) then 1 else 0)
    round-exact pos d =
        let l = top-listed in
        ground (
          arith,
          l,
          h.exact d,
          pq.count-pop d e s.queue t,
          pq.count-emplace d
              (record { deadline = deadline (services e.svc) (s.releases e.svc + 1); svc = e.svc })
              (pq.pop s.queue),
        )

    round-not_late :
        IsServed services n
        → (k : ℕ) → k < n
        → let s' = round pq services e s in s'.elapsed ≤ due services s'.releases k
    round-not_late pos k p =
        let l = top-listed in
        ground (
          arith,
          l,
          h.not_late k p,
          top-before k p,
          deadline_mono (services e.svc) (s.releases e.svc) ((pos e.svc l.0).0),
        )

    round-few :
        IsServed services n
        → e.deadline < run_time
        → (k : ℕ) → k < n
        → (round pq services e s).releases k ≤ 3 * (services k).frequency
    round-few pos runs k p =
        let l = top-listed in
        let q : s.releases e.svc < 3 * (services e.svc).frequency =
          (deadline-lt (services e.svc) (s.releases e.svc) (pos e.svc l.0).0).0
            (omega (arith, l, runs)) in
        ground (arith, h.few k p, q)

    pub round-IsQueue :
        IsServed services n → e.deadline < run_time → IsQueue n (round pq services e s)
    round-IsQueue pos runs = record {
      exact = round-exact pos;
      not_late = round-not_late pos;
      few = round-few pos runs;
    }

    loop_round :
        (fuel : ℕ)
        → IsServed services n
        → let s' = round pq services e s in
          (e.deadline < run_time
            → sequencer_loop pq fuel services n s'
              ≡ reference_loop fuel services n s'.elapsed s'.releases)
          → sequencer_loop pq (suc fuel) services n s
            ≡ reference_loop (suc fuel) services n s.elapsed s.releases
    unfolding sequencer_loop rounds_from reference_loop
    loop_round fuel pos ih =
        let l = top-listed in
        let late = h.not_late e.svc l.0 in
        let k = top-earliest in
        let late' : s.elapsed ≤ e.deadline = omega (arith, l, late) in
        let a : advance s.elapsed e.deadline ≡ e.deadline = ground arith in
        let c : is_defined (services e.svc) (s.releases e.svc + 1) ≡ true =
          deadline-is_defined (services e.svc) (s.releases e.svc) (pos e.svc l.0)
            (h.few e.svc l.0) in
        rw t (
          rw k (
            rw c (
              rw (sym l.1) (
                rw a (elim (Bool-cases (ltb e.deadline run_time)) [
                  | inl runs ↦
                      rw runs (rw (rw a at (ih (ltb→lt _ _ runs))) (wait_due _ s.elapsed e late'))
                  | inr over ↦ rw over (wait_due (done (shutdown n 0)) s.elapsed e late')
                ])))))

  sequencer_loop-eq-reference :
      (fuel n : ℕ) (s : State pq)
      → 1 ≤ n
      → IsServed services n
      → IsQueue n s
      → sequencer_loop pq fuel services n s ≡ reference_loop fuel services n s.elapsed s.releases
  sequencer_loop-eq-reference zero n s lo pos h = unfold sequencer_loop reference_loop in refl
  sequencer_loop-eq-reference (suc fuel) n s lo pos h = elim (Option-cases (top s.queue)) [
    | inl t ↦ absurd (
        ground (
          arith,
          h.exact (element services s.releases 0),
          pq.top_none (element services s.releases 0) s.queue t,
        ))
    | inr (e, t) ↦ loop_round n s h e t fuel pos (λ runs.
        sequencer_loop-eq-reference fuel n (round pq services e s) lo pos
          (round-IsQueue n s h e t pos runs))
  ]

  count-fill :
      (n : ℕ) (e : Element)
      → count e (fill pq services n) ≡ (if ltb e.svc n && (e.deadline == phase) then 1 else 0)
  unfolding fill
  count-fill zero e = ground (arith, pq.count-empty e)
  count-fill (suc n) e = ground (
    arith,
    pq.count-emplace e (record { deadline = phase; svc = n }) (fill pq services n),
    count-fill n e,
  )

  deadline-zero : (x : Service) → deadline x 0 ≡ phase
  unfolding deadline
  deadline-zero x = omega (arith, zero-mul giga, zero-div x.frequency)

  fill-IsQueue :
      (n : ℕ) → IsQueue n (record { queue = fill pq services n; elapsed = 0; releases = λ _. 0 })
  fill-IsQueue n = record {
    exact = λ e. ground (arith, count-fill n e, deadline-zero (services e.svc));
    not_late = λ k p. omega arith;
    few = λ k p. omega arith;
  }

  -- Whatever the priority queue and the fuel, the sequencer for n services, of which there is at least
  -- one, each with no phase and a frequency above 0 and up to 3 GHz, does exactly what the reference
  -- does: in each round it releases a service with the earliest of the next deadlines, and of those
  -- the first in the array, at its deadline and not later. No queue is found empty, no deadline
  -- missed, and no `int64_t` overflows.
  pub sequencer-eq-reference :
      (fuel n : ℕ)
      → 1 ≤ n
      → IsServed services n
      → sequencer pq fuel services n ≡ reference fuel services n
  unfolding sequencer reference
  sequencer-eq-reference fuel n lo pos =
      sequencer_loop-eq-reference fuel n _ lo pos (fill-IsQueue n)
