-- ===== src/Lab1/Services.antt =====
-- The service threads fib10 and fib20 of lab1.c: their loop on a semaphore and the flag abortTest, and
-- the loop that burns their computation time. The two functions differ in the semaphore, the time and
-- the text that they print. What the calibration asks for is a parameter.
use ucb_rtes.Base.{
  ℕ, zero, suc, ◌+◌, ◌*◌, ◌^◌, ◌-◌, ◌<◌, ◌≤◌, ◌≡◌, refl, max, Bool, true, Option, some, none, List,
  [], arith, ◌==◌, ltb, if◌then◌else◌, ap, lt→ltb,
}
use ucb_rtes.Base.Run.{Run, done, running, ◌>>=◌}
use ucb_rtes.Threads.{Service, Fleet, Reach, init, Owns}
use ucb_rtes.Threads.Plan.{abort_then_post, has_post, posts}
use ucb_rtes.Threads.Exit.{ExitsSoon}
use ucb_rtes.Threads.AbortFirst.{abort_first_exits}
use ucb_rtes.Threads.Count.{Reach-IsCounted}
use ucb_rtes.Lab1.{Event, sequencer, actions, major_period, shutdown}
use ucb_rtes.Lab1.Schedule.{runs, rounds, sequencer-rounds}
use ucb_rtes.Lab1.Fib.{Globals, fib_test, fib_test_cycles, result, fib_test-result}

abbrev pub fib10 : Service
fib10 = record { sem = 1; abort_flag = 0; rechecks = true }

abbrev pub fib20 : Service
fib20 = record { sem = 2; abort_flag = 0; rechecks = true }

abbrev pub table : ℕ → Option Service
table k = if k == 1 then some fib10 else if k == 2 then some fib20 else none

abbrev service_of : ℕ → Service
service_of k = record { sem = k; abort_flag = 0; rechecks = true }

alone : (k : ℕ) → (j : ℕ) (w : Service) → table j ≡ some w → w.sem ≡ k → j ≡ k
alone k j w e f = ground arith

table-Owns : (k : ℕ) → 1 ≤ k → k ≤ 2 → Owns table k (service_of k)
table-Owns k lo hi = record { listed = ground arith; own_sem = refl; alone = alone k }

abort_then_post-rounds : (k n : ℕ) → 1 ≤ k → k ≤ 2 → abort_then_post 0 k (actions (rounds n)) ≡ true
unfolding rounds major_period shutdown actions abort_then_post has_post
abort_then_post-rounds k zero lo hi = ground arith
abort_then_post-rounds k (suc n) lo hi = abort_then_post-rounds k n lo hi

-- Releases in a major period.
abbrev pub releases_of : ℕ → ℕ
releases_of k = if k == 1 then 5 else 2

posts-rounds : (k n : ℕ) → 1 ≤ k → k ≤ 2 → posts k (actions (rounds n)) ≡ releases_of k * n + 1
unfolding rounds major_period shutdown actions posts
posts-rounds k zero lo hi = ground arith
posts-rounds k (suc n) lo hi = ground (arith, posts-rounds k n lo hi)

module _ {fuel major_periods : ℕ} {plan : List Event} where
  plan-eq-rounds :
      major_periods < fuel
      → sequencer fuel major_periods ≡ done plan
      → plan ≡ rounds (runs major_periods)
  plan-eq-rounds f e = ground (arith, sequencer-rounds fuel major_periods f)

  -- Under any interleaving of the threads, in every state that a run reaches with the sequencer
  -- ended, each of the two services has exited, or it can take a step, and each such step brings it
  -- nearer to its exit: abortTest is set before the last posts. The sequencer has fuel for one round
  -- more than MajorPeriods.
  pub services_exit :
      {fifo : Bool} {s : Fleet} (k : ℕ)
      → 1 ≤ k
      → k ≤ 2
      → major_periods < fuel
      → sequencer fuel major_periods ≡ done plan
      → Reach fifo table (init (actions plan)) s
      → s.todo ≡ []
      → ExitsSoon (service_of k) k s
  services_exit k lo hi f e = rw (plan-eq-rounds f e) (
      abort_first_exits (table-Owns k lo hi) (actions (rounds (runs major_periods)))
        (abort_then_post-rounds k (runs major_periods) lo hi))

  -- Under any interleaving, in every state of a run with fuel for one round more than MajorPeriods,
  -- a service has counted at most as many releases as were posted: 5 for S1 and 2 for S2 in each
  -- major period, of which there is at least one, and one for the shutdown.
  pub service_releases-le :
      {fifo : Bool} {s : Fleet} (k : ℕ)
      → 1 ≤ k
      → k ≤ 2
      → major_periods < fuel
      → sequencer fuel major_periods ≡ done plan
      → Reach fifo table (init (actions plan)) s
      → s.counts k ≤ releases_of k * max 1 major_periods + 1
  service_releases-le {s} k lo hi f e q = omega (
    arith,
    Reach-IsCounted (table-Owns k lo hi) (actions plan) q,
    ap (λ p. posts k (actions p)) (plan-eq-rounds f e),
    posts-rounds k (runs major_periods) lo hi,
  )

-- `do { FIB_TEST(seqIterations, FIB_TEST_CYCLES); limit++; } while (limit < required_test_cycles);`,
-- with `fuel` rounds of its own.
-- The value of `limit` behind it is the number of rounds.
pub burn : ℕ → ℕ → ℕ → ℕ → ℕ → Globals → Run (ℕ × Globals)
burn zero inner seq_iterations required limit g = running
burn (suc fuel) inner seq_iterations required limit g =
    fib_test (fib_test_cycles + 1) inner seq_iterations fib_test_cycles g >>= λ h.
    let again = burn fuel inner seq_iterations required (limit + 1) h in
    if ltb (limit + 1) required then again else done (limit + 1, h)

burn-from :
    (n fuel inner s required limit : ℕ) (g : Globals)
    → 1 ≤ s
    → s < 2 ^ 32
    → s ≤ inner
    → n < fuel
    → limit + suc n ≡ max (limit + 1) required
    → burn fuel inner s required limit g ≡ done (limit + suc n, result fib_test_cycles s)
unfolding burn
burn-from n zero inner s required limit g lo hi f p e = absurd (omega arith)
burn-from zero (suc fuel) inner s required limit g lo hi f p e =
    rw (fib_test-result 101 inner s 100 g lo hi (omega arith) (omega arith) (omega arith) f)
      (ground arith)
burn-from (suc n) (suc fuel) inner s required limit g lo hi f p e =
    let c : ltb (limit + 1) required ≡ true = lt→ltb _ _ (omega arith) in
    let q : limit + suc (suc n) ≡ limit + 1 + suc n = omega arith in
    rw (fib_test-result 101 inner s 100 g lo hi (omega arith) (omega arith) (omega arith) f) (
      rw c (
        rw q (burn-from n fuel inner s required (limit + 1) _ lo hi f (omega arith) (omega arith))))

-- The work of a release ends: it runs FIB_TEST as often as the calibration asks for, and at least
-- once, and leaves the Fibonacci numbers at place seqIterations modulo 2 ^ 32, whatever the
-- variables held before. seqIterations is at least 1 and below 2 ^ 32, and the loops have fuel for
-- it and for one round more than is asked for.
pub burn-result :
    (fuel inner s required : ℕ) (g : Globals)
    → 1 ≤ s
    → s < 2 ^ 32
    → s ≤ inner
    → required < fuel
    → burn fuel inner s required 0 g ≡ done (max 1 required, result fib_test_cycles s)
burn-result fuel inner s required g lo hi f p =
    let e : 0 + suc (max 1 required - 1) ≡ max 1 required = omega arith in
    rw e at
      (burn-from (max 1 required - 1) fuel inner s required 0 g lo hi f (omega arith) (omega arith))
