-- ===== src/SeqGen2/Rates.antt =====
-- The sequencer's loop against a plain description of its cycles, and the number of releases that
-- each service gets.
use ucb_rtes.Base.{
  ℕ, zero, suc, ◌+◌, ◌/◌, ◌%◌, ◌^◌, ◌<◌, ◌≤◌, ◌≡◌, ◌≢◌, ◌⊎◌, ◌&&◌, ltb, leb, lt→ltb, ◌==◌,
  if◌then◌else◌, true, false, List, ◌∷◌, arith,
}
use ucb_rtes.Base.Int.{pos}
use ucb_rtes.Base.Run.{done, exited, ◌>>=◌}
use ucb_rtes.Posix.{u64}
use ucb_rtes.SeqGen2.{Env, releases, shutdown, sequencer_loop, sequencer}
use native.Mathlib.Numerals.{add-one}
use ucb_rtes.Threads.Every.{posts-post_every}
use ucb_rtes.Threads.Plan.{Action, sleep, posts}

-- n cycles, after `seq_cnt` of them, and the shutdown.
unfoldable pub cycles : ℕ → ℕ → List Action
cycles seq_cnt zero = shutdown
cycles seq_cnt (suc n) = sleep ∷ releases (seq_cnt + 1) (cycles (seq_cnt + 1) n)

-- The loop goes on after the first m cycles.
pub record GoesOn (env : Env) (periods m : ℕ) : Type 0 where
  pub not_aborted : (j : ℕ) → 0 < j → j ≤ m → env.abort_test j ≡ false
  pub below : (j : ℕ) → 0 < j → j ≤ m → j < periods
  pub small : m + 1 < 2 ^ 64
  pub slept : (j : ℕ) → j < m → env.clock_nanosleep j ≡ pos 0

-- It ends after m + 1 cycles, with the last sleep complete too.
pub record RunsFor (env : Env) (periods m : ℕ) : Type 0 where
  pub before : GoesOn env periods m
  pub last : env.clock_nanosleep m ≡ pos 0
  pub stops : (env.abort_test (m + 1) ≡ true) ⊎ (periods ≤ m + 1)

goes_on :
    {env : Env} {periods m : ℕ} (g : GoesOn env periods m) (fuel c : ℕ)
    → c < m
    → sequencer_loop (suc fuel) env periods c c ≡ (
        sequencer_loop fuel env periods (c + 1) (c + 1) >>= λ rest.
        done (sleep ∷ releases (c + 1) rest))
unfolding sequencer_loop
goes_on {env} {periods} g fuel c h =
    let w : u64 (c + 1) ≡ c + 1 = omega (arith, g.small) in
    let t : ltb (c + 1) periods ≡ true = lt→ltb _ _ (g.below (c + 1) (omega arith) (omega arith)) in
    rw w (rw t (rw (g.not_aborted (c + 1) (omega arith) (omega arith)) (rw (g.slept c h))))

stops :
    {env : Env} {periods m : ℕ} (r : RunsFor env periods m) (fuel : ℕ)
    → sequencer_loop (suc fuel) env periods m m ≡ done (sleep ∷ releases (m + 1) shutdown)
unfolding sequencer_loop
stops {env} {periods} {m} r fuel =
    let w : u64 (m + 1) ≡ m + 1 = omega (arith, r.before.small) in
    rw w (rw r.last (ground (arith, r.stops)))

sequencer_loop-cycles :
    {env : Env} {periods m : ℕ} (r : RunsFor env periods m) (n fuel c : ℕ)
    → n ≤ fuel
    → c + n ≡ m
    → sequencer_loop (suc fuel) env periods c c ≡ done (cycles c (suc n))
unfolding cycles
sequencer_loop-cycles r zero fuel c f e = let e' : c ≡ _ = omega arith in rw e' (stops r fuel)
sequencer_loop-cycles r (suc n) zero c f e = absurd (omega arith)
sequencer_loop-cycles r (suc n) (suc fuel) c f e =
    rw (goes_on r.before (suc fuel) c (omega arith))
      (rw (sequencer_loop-cycles r n fuel (c + 1) (omega arith) (omega arith)))

fails :
    (env : Env) (periods c fuel : ℕ)
    → env.clock_nanosleep c ≢ pos 0
    → sequencer_loop (suc fuel) env periods c c ≡ exited
unfolding sequencer_loop
fails env periods c fuel x = ground arith

sequencer_loop-exited :
    {env : Env} {periods m : ℕ} (g : GoesOn env periods m) (n fuel c : ℕ)
    → env.clock_nanosleep m ≢ pos 0
    → n ≤ fuel
    → c + n ≡ m
    → sequencer_loop (suc fuel) env periods c c ≡ exited
sequencer_loop-exited {env} {periods} {m} g zero fuel c x f e =
    let e' : c ≡ m = omega arith in rw e' (fails env periods m fuel x)
sequencer_loop-exited g (suc n) zero c x f e = absurd (omega arith)
sequencer_loop-exited g (suc n) (suc fuel) c x f e =
    rw (goes_on g (suc fuel) c (omega arith))
      (rw (sequencer_loop-exited g n fuel (c + 1) x (omega arith) (omega arith)))

pub sequencer2-cycles :
    (fuel : ℕ) (env : Env) (periods m : ℕ)
    → RunsFor env periods m
    → m < fuel
    → sequencer fuel env periods ≡ done (cycles 0 (m + 1))
unfolding sequencer
sequencer2-cycles zero env periods m r h = absurd (omega arith)
sequencer2-cycles (suc fuel) env periods m r h =
    rw add-one (sequencer_loop-cycles r m fuel 0 (omega arith) (omega arith))

-- If a sleep fails, and be it by a signal, after m complete ones and before the loop is over, the
-- process exits: no service gets the releases of that cycle, or its abort flag.
pub sequencer2-exited :
    (fuel : ℕ) (env : Env) (periods m : ℕ)
    → GoesOn env periods m
    → env.clock_nanosleep m ≢ pos 0
    → m < fuel
    → sequencer fuel env periods ≡ exited
unfolding sequencer
sequencer2-exited zero env periods m g x h = absurd (omega arith)
sequencer2-exited (suc fuel) env periods m g x h =
    sequencer_loop-exited g m fuel 0 x (omega arith) (omega arith)

-- The releases of service k in the first n cycles.
abbrev pub released_in : ℕ → ℕ → ℕ
released_in k n = if leb 6 k then n / 100 else 0

posts-releases :
    (k c : ℕ) (rest : List Action)
    → 1 ≤ k
    → k ≤ 7
    → posts k (releases c rest) ≡ (if leb 6 k && (c % 100 == 0) then 1 else 0) + posts k rest
unfolding releases
posts-releases k c rest lo hi = simp posts-post_every (ground arith)

pub posts-cycles :
    (k n c : ℕ) → 1 ≤ k → k ≤ 7 → posts k (cycles c n) + released_in k c ≡ released_in k (c + n) + 1
unfolding cycles posts shutdown
posts-cycles k zero c lo hi = ground arith
posts-cycles k (suc n) c lo hi =
    ground
      (arith, posts-releases k (c + 1) (cycles (c + 1) n) lo hi, posts-cycles k n (c + 1) lo hi)

-- A run that is to make m + 1 cycles ends, with more than m units of fuel, and in it the semaphores
-- of services 6 and 7 are posted in every 100th cycle and once more at the shutdown, and those of
-- services 1 to 5 only at the shutdown.
pub posts-sequencer2 :
    (fuel : ℕ) (env : Env) (periods m k : ℕ)
    → RunsFor env periods m
    → m < fuel
    → 1 ≤ k
    → k ≤ 7
    → (plan : List Action) × (sequencer fuel env periods ≡ done plan)
      × (posts k plan ≡ released_in k (m + 1) + 1)
posts-sequencer2 fuel env periods m k r h lo hi = (
  cycles 0 (m + 1),
  sequencer2-cycles fuel env periods m r h,
  ground (arith, posts-cycles k (m + 1) 0 lo hi),
)
