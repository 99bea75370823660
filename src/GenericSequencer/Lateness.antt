-- ===== src/GenericSequencer/Lateness.antt =====
-- generic-sequencer.cpp where every `sleep_for` returns late: the time that the sequencer goes by is
-- that of the deadlines, not of the clock, and what a sleep is late is late for all that follows.
use ucb_rtes.Base.{
  ℕ, zero, suc, ◌+◌, ◌*◌, ◌/◌, ◌<◌, ◌≤◌, ◌≡◌, ◌⊎◌, inl, inr, Bool-cases, List, [], ◌∷◌, arith,
  if◌then◌else◌, ◌==◌,
}
use native.Mathlib.Nat.{le-div_iff_mul-le, div-mul-le_self}
use ucb_rtes.Base.Run.{done}
use ucb_rtes.GenericSequencer.{
  Event, sleep_for, missed, post, abort, Service, deadline, giga, sequencer,
}
use ucb_rtes.GenericSequencer.Queue.{PriorityQueue}
use ucb_rtes.GenericSequencer.Rounds.{IsPlain}
use ucb_rtes.GenericSequencer.Schedule.{release_times, deadlines}
use ucb_rtes.GenericSequencer.Times.{release_times-services, all_releases}

-- When service k is posted by the clock, from time t on and before the first abort, where the i-th
-- sleep takes `late i` longer than it was asked for; `slept` sleeps are over.
unfoldable pub late_times : (ℕ → ℕ) → ℕ → ℕ → ℕ → List Event → List ℕ
late_times late k slept t [] = []
late_times late k slept t (sleep_for d ∷ r) = late_times late k (slept + 1) (t + d + late slept) r
late_times late k slept t (missed j ∷ r) = late_times late k slept t r
late_times late k slept t (post j ∷ r) =
    if j == k then t ∷ late_times late k slept t r else late_times late k slept t r
late_times late k slept t (abort j ∷ r) = []

-- Each time of the second list is behind the one of the first, by `lo` for each that stands before it,
-- with j before the first ones.
abbrev pub Behind : ℕ → ℕ → List ℕ → List ℕ → Type 0
Behind lo j [] [] = Unit
Behind lo j (x ∷ xs) (a ∷ as') = (x + j * lo ≤ a) × Behind lo (j + 1) xs as'
Behind lo j _ _ = ⊥

-- Strictly ascending, from above a bound, or from anywhere.
abbrev Above : ℕ → List ℕ → Type 0
Above b [] = Unit
Above b (x ∷ xs) = (b < x) × Above x xs

abbrev Ascending : List ℕ → Type 0
Ascending [] = Unit
Ascending (x ∷ xs) = Above x xs

Above-Ascending : (b : ℕ) (xs : List ℕ) → Above b xs → Ascending xs
Above-Ascending b [] h = tt
Above-Ascending b (x ∷ xs) h = h.1

-- With j releases behind, as many sleeps are over, or one less, and no sleep since the last release.
abbrev Place : ℕ → ℕ → ℕ → List ℕ → Type 0
Place j slept t times = ((j ≤ slept) × Ascending times) ⊎ ((j ≤ slept + 1) × Above t times)

Place-sleep :
    (j slept t t' : ℕ) (times : List ℕ) → Place j slept t times → Place j (slept + 1) t' times
Place-sleep j slept t t' times (inl (p, up)) = inl (omega arith, up)
Place-sleep j slept t t' times (inr (p, up)) = inl (p, Above-Ascending t times up)

Place-post :
    (j slept t : ℕ) (times : List ℕ)
    → Place j slept t (t ∷ times)
    → (j ≤ slept) × Place (j + 1) slept t times
Place-post j slept t times (inl (p, up)) = (p, inr (omega arith, up))
Place-post j slept t times (inr (p, up)) = absurd (omega (arith, up.0))

module _ (lo : ℕ) (late : ℕ → ℕ) (k : ℕ) (slow : (i : ℕ) → lo ≤ late i) where
  late_from :
      (plan : List Event) (slept t u j : ℕ)
      → t + slept * lo ≤ u
      → Place j slept t (release_times k t plan)
      → Behind lo j (release_times k t plan) (late_times late k slept u plan)
  unfolding release_times late_times
  late_from [] slept t u j h p = tt
  late_from (sleep_for d ∷ r) slept t u j h p =
      let l : lo ≤ late slept = slow slept in
      late_from r (slept + 1) (t + d) (u + d + late slept) j (grind arith)
        (Place-sleep j slept t (t + d) (release_times k (t + d) r) p)
  late_from (missed i ∷ r) slept t u j h p = late_from r slept t u j h p
  late_from (abort i ∷ r) slept t u j h p = tt
  late_from (post i ∷ r) slept t u j h p = elim (Bool-cases (i == k)) [
    | inr other ↦ rw other (late_from r slept t u j h (rw other at p))
    | inl own ↦
        let (before, p') = Place-post j slept t (release_times k t r) (rw own at p) in
        rw own (grind arith, late_from r slept t u (j + 1) h p')
  ]

-- Deadlines of a service of at most a gigahertz differ by a nanosecond or more.
deadline-lt-next :
    (x : Service) (i : ℕ) → 0 < x.frequency → x.frequency ≤ giga → deadline x i < deadline x (i + 1)
unfolding deadline
deadline-lt-next x i p slow =
    let a : i * giga / x.frequency * x.frequency ≤ i * giga =
      div-mul-le_self (i * giga) x.frequency in
    let b : (i * giga / x.frequency + 1) * x.frequency ≤ (i + 1) * giga = grind arith in
    let c : i * giga / x.frequency + 1 ≤ (i + 1) * giga / x.frequency = (le-div_iff_mul-le p).1 b in
    omega (arith, c)

Above-deadlines :
    (x : Service) (i n : ℕ)
    → 0 < x.frequency
    → x.frequency ≤ giga
    → Above (deadline x i) (deadlines x (i + 1) n)
unfolding deadlines
Above-deadlines x i zero p slow = tt
Above-deadlines x i (suc n) p slow =
    (deadline-lt-next x i p slow, Above-deadlines x (i + 1) n p slow)

Ascending-deadlines :
    (x : Service) (n : ℕ) → 0 < x.frequency → x.frequency ≤ giga → Ascending (deadlines x 0 n)
unfolding deadlines
Ascending-deadlines x zero p slow = tt
Ascending-deadlines x (suc n) p slow = Above-deadlines x 0 n p slow

-- For services 0 to m with no phases and frequencies above 0 and up to 3 GHz, on any priority
-- queue, where every sleep takes at least `lo` nanoseconds longer than it was asked for: the
-- sequencer ends, with fuel for one round more than the releases of 3 seconds, and by the clock
-- each service of at most a gigahertz is released as often as it has deadlines in its schedule, its
-- j-th release at least j * lo behind the j-th deadline, counted from 0. Lateness is not made up
-- for, but adds up.
pub lateness_adds_up :
    (services : ℕ → Service) (m : ℕ) (plain : IsPlain services m) (pq : PriorityQueue)
    (fuel k lo : ℕ) (late : ℕ → ℕ)
    → all_releases services m plain < fuel
    → k ≤ m
    → (services k).frequency ≤ giga
    → ((i : ℕ) → lo ≤ late i)
    → (plan : List Event) × (sequencer pq fuel services (m + 1) ≡ done plan)
      × Behind lo 0
          (deadlines (services k) 0 (3 * (services k).frequency + (if k == 0 then 1 else 0)))
          (late_times late k 0 0 plan)
lateness_adds_up services m plain pq fuel k lo late f p slow all =
    let (plan, e, times) = release_times-services services m plain pq fuel k f p in
    let n = 3 * (services k).frequency + (if k == 0 then 1 else 0) in
    let up : Ascending (release_times k 0 plan) =
      rw times (Ascending-deadlines (services k) n (plain.runs k p) slow) in
    (
      plan,
      e,
      rw times at (late_from lo late k all plan 0 0 0 0 (omega arith) (inl (omega arith, up))),
    )
