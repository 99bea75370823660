-- ===== src/SeqGenEx0/Rates.antt =====
-- The sequencer's loop against a plain description of its cycles, and the number of releases that
-- each service gets.
use ucb_rtes.Base.{
  ℕ, zero, suc, ◌+◌, ◌-◌, ◌/◌, ◌%◌, ◌^◌, ◌<◌, ◌≤◌, ◌≡◌, ◌⊎◌, ltb, lt→ltb, ◌==◌, if◌then◌else◌, true,
  false, List, ◌∷◌, arith,
}
use ucb_rtes.Base.Int.{pos, ltb_ℤ, ◌≤ℤ◌}
use ucb_rtes.Base.Run.{done, exited, ◌>>=◌}
use ucb_rtes.Posix.{u64}
use ucb_rtes.SeqGenEx0.{Env, delay_loop, releases, shutdown, sequencer_loop, sequencer}
use ucb_rtes.SeqGenEx0.Delay.{IsWait, delay_loop-result}
use native.Mathlib.Numerals.{add-one}
use ucb_rtes.Threads.Every.{posts-post_every}
use ucb_rtes.Threads.Plan.{Action, sleep, posts}

-- n cycles, after `seq_cnt` of them, and the shutdown.
unfoldable pub cycles : ℕ → ℕ → List Action
cycles seq_cnt zero = shutdown
cycles seq_cnt (suc n) = sleep ∷ releases seq_cnt (cycles (seq_cnt + 1) n)

-- The loop makes m + 1 cycles. Cycle j has its first call of `clock_nanosleep` at `first j` and is
-- interrupted `signals j` times; no sleep fails with a negative result.
pub record RunsFor (env : Env) (periods m inner : ℕ) : Type 0 where
  pub first : ℕ → ℕ
  pub signals : ℕ → ℕ
  pub starts : first 0 ≡ 0
  pub follows : (j : ℕ) → j < m → first (j + 1) ≡ first j + signals j + 1
  pub waits : (j : ℕ) → j ≤ m → IsWait env.clock_nanosleep (first j) (signals j)
  pub returns : (j : ℕ) → j ≤ m → pos 0 ≤ℤ env.clock_nanosleep (first j + signals j)
  pub few : (j : ℕ) → j ≤ m → signals j < inner
  pub not_aborted : (j : ℕ) → 0 < j → j ≤ m → env.abort_test j ≡ false
  pub below : (j : ℕ) → 0 < j → j ≤ m → j < periods
  pub small : m + 1 < 2 ^ 64
  pub stops : (env.abort_test (m + 1) ≡ true) ⊎ (periods ≤ m + 1)

module _ {env : Env} {periods m inner : ℕ} (r : RunsFor env periods m inner) where
  wait :
      (c : ℕ)
      → c ≤ m
      → delay_loop inner env.clock_nanosleep (r.first c) 0
        ≡ done (record { calls = r.first c + r.signals c + 1; delay_cnt = r.signals c })
  wait c h =
      let z : ltb_ℤ (env.clock_nanosleep (r.first c + r.signals c)) (pos 0) ≡ false =
        ground (arith, r.returns c h) in
      let d : delay_loop inner env.clock_nanosleep (r.first c) 0 ≡ (
          if ltb_ℤ (env.clock_nanosleep (r.first c + r.signals c)) (pos 0)
          then exited
          else done (record { calls = r.first c + r.signals c + 1; delay_cnt = 0 + r.signals c })) =
        delay_loop-result (r.signals c) inner env.clock_nanosleep (r.first c) 0 (r.waits c h)
          (r.few c h) in
      let e : 0 + r.signals c ≡ r.signals c = omega arith in rw e at (rw z at d)

  goes_on :
      (fuel c : ℕ)
      → c < m
      → sequencer_loop (suc fuel) inner env periods (r.first c) c ≡ (
          sequencer_loop fuel inner env periods (r.first (c + 1)) (c + 1) >>= λ rest.
          done (sleep ∷ releases c rest))
  unfolding sequencer_loop
  goes_on fuel c h =
      let w : u64 (c + 1) ≡ c + 1 = omega (arith, r.small) in
      let t : ltb (c + 1) periods ≡ true =
        lt→ltb _ _ (r.below (c + 1) (omega arith) (omega arith)) in
      rw (r.follows c h) (
        rw (wait c (omega arith))
          (rw w (rw t (rw (r.not_aborted (c + 1) (omega arith) (omega arith))))))

  last :
      (fuel : ℕ)
      → sequencer_loop (suc fuel) inner env periods (r.first m) m
        ≡ done (sleep ∷ releases m shutdown)
  unfolding sequencer_loop
  last fuel =
      let w : u64 (m + 1) ≡ m + 1 = omega (arith, r.small) in
      rw (wait m (omega arith)) (rw w (ground (arith, r.stops)))

  sequencer_loop-cycles :
      (n fuel c : ℕ)
      → n ≤ fuel
      → c + n ≡ m
      → sequencer_loop (suc fuel) inner env periods (r.first c) c ≡ done (cycles c (suc n))
  unfolding cycles
  sequencer_loop-cycles zero fuel c f e = let e' : c ≡ m = omega arith in rw e' (last fuel)
  sequencer_loop-cycles (suc n) zero c f e = absurd (omega arith)
  sequencer_loop-cycles (suc n) (suc fuel) c f e =
      rw (goes_on (suc fuel) c (omega arith))
        (rw (sequencer_loop-cycles n fuel (c + 1) (omega arith) (omega arith)))

pub sequencer0-cycles :
    (fuel inner : ℕ) (env : Env) (periods m : ℕ)
    → RunsFor env periods m inner
    → m < fuel
    → sequencer fuel inner env periods ≡ done (cycles 0 (m + 1))
unfolding sequencer
sequencer0-cycles zero inner env periods m r h = absurd (omega arith)
sequencer0-cycles (suc fuel) inner env periods m r h =
    rw add-one (rw r.starts at (sequencer_loop-cycles r m fuel 0 (omega arith) (omega arith)))

-- Periods of the three services, in sequencer cycles.
abbrev pub rate : ℕ → ℕ
rate k = if k == 1 then 2 else if k == 2 then 10 else 15

-- n / d, rounded up.
abbrev pub ceil_div : ℕ → ℕ → ℕ
ceil_div n d = (n + d - 1) / d

posts-releases :
    (k c : ℕ) (rest : List Action)
    → 1 ≤ k
    → k ≤ 3
    → posts k (releases c rest) ≡ (if c % rate k == 0 then 1 else 0) + posts k rest
unfolding releases
posts-releases k c rest lo hi = simp posts-post_every (ground arith)

pub posts-cycles :
    (k n c : ℕ)
    → 1 ≤ k
    → k ≤ 3
    → posts k (cycles c n) + ceil_div c (rate k) ≡ ceil_div (c + n) (rate k) + 1
unfolding cycles posts shutdown
posts-cycles k zero c lo hi = ground arith
posts-cycles k (suc n) c lo hi =
    ground (arith, posts-releases k c (cycles (c + 1) n) lo hi, posts-cycles k n (c + 1) lo hi)

-- A run that is to make m + 1 cycles, each with fewer interrupted sleeps than the delay loop has
-- fuel, ends with more than m units of fuel, and in it the semaphore of service k, for k from 1 to
-- 3, is posted in the first cycle and in every `rate k`-th one from there, which makes (m + 1) /
-- rate k times, rounded up, and once more at the shutdown.
pub posts-sequencer0 :
    (fuel inner : ℕ) (env : Env) (periods m k : ℕ)
    → RunsFor env periods m inner
    → m < fuel
    → 1 ≤ k
    → k ≤ 3
    → (plan : List Action) × (sequencer fuel inner env periods ≡ done plan)
      × (posts k plan ≡ ceil_div (m + 1) (rate k) + 1)
posts-sequencer0 fuel inner env periods m k r h lo hi = (
  cycles 0 (m + 1),
  sequencer0-cycles fuel inner env periods m r h,
  ground (arith, posts-cycles k (m + 1) 0 lo hi),
)
