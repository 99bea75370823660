-- ===== src/SeqGen/Rates.antt =====
-- The sequencer's loop against a plain description of its cycles, and the number of releases that
-- each service gets.
use ucb_rtes.Base.{
  one_to_seven, ℕ, zero, suc, ◌+◌, ◌/◌, ◌%◌, ◌^◌, ◌<◌, ◌≤◌, ◌≡◌, ◌⊎◌, inl, inr, not, ◌&&◌, ltb,
  lt→ltb, ◌==◌, if◌then◌else◌, true, false, refl, List, [], ◌∷◌, arith,
}
use ucb_rtes.Base.Int.{pos, negsuc}
use ucb_rtes.Base.Run.{done, exited}
use ucb_rtes.Posix.{u64}
use ucb_rtes.SeqGen.{
  Env, delay_loop, releases, shutdown, after_delay, cycle, sequencer_loop, sequencer_trace, planned,
  sequencer,
}
use ucb_rtes.SeqGen.Delay.{delay_once}
use native.Mathlib.Numerals.{add-one}
use ucb_rtes.Threads.Every.{post_every, posts-post_every}
use ucb_rtes.Threads.Plan.{Action, sleep, post, abort, posts}

-- n cycles, after `seq_cnt` of them, and the shutdown.
unfoldable pub cycles : ℕ → ℕ → List Action
cycles seq_cnt zero = shutdown
cycles seq_cnt (suc n) = sleep ∷ releases (seq_cnt + 1) (cycles (seq_cnt + 1) n)

-- The loop goes on after the first m cycles: `abortTest` is read as 0 at the end of each, and the
-- number of periods is not reached.
pub record GoesOn (env : Env) (periods m : ℕ) : Type 0 where
  pub not_aborted : (j : ℕ) → 0 < j → j ≤ m → env.abort_test j ≡ false
  pub below : (j : ℕ) → 0 < j → j ≤ m → j < periods
  pub small : m + 1 < 2 ^ 64
  pub slept : (j : ℕ) → j < m → (env.nanosleep j).rc ≡ pos 0

-- It ends after m + 1 cycles, with the last sleep complete too.
pub record RunsFor (env : Env) (periods m : ℕ) : Type 0 where
  pub before : GoesOn env periods m
  pub last : (env.nanosleep m).rc ≡ pos 0
  pub stops : (env.abort_test (m + 1) ≡ true) ⊎ (periods ≤ m + 1)

-- n cycles, after `seq_cnt` of them, and nothing else.
unfoldable pub complete : ℕ → ℕ → List Action
complete seq_cnt zero = []
complete seq_cnt (suc n) = sleep ∷ releases (seq_cnt + 1) (complete (seq_cnt + 1) n)

-- One round of the loop, with its sleep complete and the counter in range.
round :
    (fuel : ℕ) (env : Env) (periods c : ℕ)
    → (env.nanosleep c).rc ≡ pos 0
    → c + 1 < 2 ^ 64
    → sequencer_loop (suc fuel) env periods c c
      ≡ cycle (c + 1) (
          if not (env.abort_test (c + 1)) && ltb (c + 1) periods
          then sequencer_loop fuel env periods (c + 1) (c + 1)
          else (shutdown, done tt))
unfolding sequencer_loop after_delay
round fuel env periods c e h =
    let w : u64 (c + 1) ≡ c + 1 = omega arith in
    let d : delay_loop (suc fuel) env.nanosleep c 0 0
        ≡ done (record { calls = c + 1; delay_cnt = 0 }) =
      ground (arith, e, delay_once fuel env.nanosleep c (inl e)) in
    rw d (rw w)

module _ {env : Env} {periods m : ℕ} (g : GoesOn env periods m) where
  open g use {not_aborted, below, small, slept}

  -- A round that is not the last.
  goes_on :
      (fuel c : ℕ)
      → c < m
      → sequencer_loop (suc fuel) env periods c c
        ≡ cycle (c + 1) (sequencer_loop fuel env periods (c + 1) (c + 1))
  goes_on fuel c h = rw (round fuel env periods c (slept c h) (omega (arith, small))) (
      rw (not_aborted (c + 1) (omega arith) (omega arith))
        (rw (lt→ltb _ _ (below (c + 1) (omega arith) (omega arith)))))

-- A round that is the last.
last_round :
    (fuel : ℕ) {env : Env} {periods m : ℕ} (r : RunsFor env periods m)
    → sequencer_loop (suc fuel) env periods m m ≡ cycle (m + 1) (shutdown, done tt)
last_round fuel {env} {periods} {m} r =
    let stop : (not (env.abort_test (m + 1)) && ltb (m + 1) periods) ≡ false =
      ground (arith, r.stops) in
    rw (round fuel env periods m r.last (omega (arith, r.before.small))) (rw stop refl)

sequencer_loop-cycles :
    {env : Env} {periods m : ℕ} (r : RunsFor env periods m) (n fuel c : ℕ)
    → n ≤ fuel
    → c + n ≡ m
    → sequencer_loop (suc fuel) env periods c c ≡ (cycles c (suc n), done tt)
unfolding cycles cycle
sequencer_loop-cycles {env} {periods} {m} r zero fuel c f e =
    let e' : c ≡ m = omega arith in rw e' (rw (last_round fuel r) refl)
sequencer_loop-cycles r (suc n) zero c f e = absurd (omega arith)
sequencer_loop-cycles r (suc n) (suc fuel) c f e =
    rw (goes_on r.before (suc fuel) c (omega arith))
      (rw (sequencer_loop-cycles r n fuel (c + 1) (omega arith) (omega arith)) refl)

sequencer_loop-exited :
    {env : Env} {periods m : ℕ} (g : GoesOn env periods m) (n fuel c : ℕ)
    → (env.nanosleep m).rc ≡ negsuc 0
    → n ≤ fuel
    → c + n ≡ m
    → sequencer_loop (suc fuel) env periods c c ≡ (complete c n, exited)
unfolding complete cycle
sequencer_loop-exited {env} {periods} {m} g zero fuel c x f e =
    let e' : c ≡ m = omega arith in
    let d : delay_loop (suc fuel) env.nanosleep c 0 0 ≡ exited =
      ground (arith, x, e', delay_once fuel env.nanosleep c (inr (rw e' x))) in
    unfold sequencer_loop after_delay in rw d refl
sequencer_loop-exited g (suc n) zero c x f e = absurd (omega arith)
sequencer_loop-exited g (suc n) (suc fuel) c x f e =
    rw (goes_on g (suc fuel) c (omega arith))
      (rw (sequencer_loop-exited g n fuel (c + 1) x (omega arith) (omega arith)) refl)

-- If the loop is to make m + 1 cycles, then with fuel for as many rounds the sequencer ends, and has
-- done those cycles and the shutdown, and nothing else.
pub sequencer-cycles :
    (fuel : ℕ) (env : Env) (periods m : ℕ)
    → RunsFor env periods m
    → m < fuel
    → sequencer fuel env periods ≡ done (cycles 0 (m + 1))
unfolding sequencer sequencer_trace planned
sequencer-cycles zero env periods m r h = absurd (omega arith)
sequencer-cycles (suc fuel) env periods m r h =
    rw add-one (rw (sequencer_loop-cycles r m fuel 0 (omega arith) (omega arith)) refl)

-- The rates of the header comment, in sequencer periods.
abbrev pub rate : ℕ → ℕ
rate k =
    if k == 1
    then 10
    else if k == 2
    then 30
    else if k == 3
    then 60
    else if k == 4
    then 30
    else if k == 5
    then 60
    else if k == 6
    then 30
    else 300

posts-releases :
    (k c : ℕ) (rest : List Action)
    → 1 ≤ k
    → k ≤ 7
    → posts k (releases c rest) ≡ (if c % rate k == 0 then 1 else 0) + posts k rest
unfolding releases
posts-releases k c rest =
    one_to_seven
      (λ j. posts j (releases c rest) ≡ (if c % rate j == 0 then 1 else 0) + posts j rest)
      (simp posts-post_every (omega arith)) (simp posts-post_every (omega arith))
      (simp posts-post_every (omega arith)) (simp posts-post_every (omega arith))
      (simp posts-post_every (omega arith)) (simp posts-post_every (omega arith))
      (simp posts-post_every (omega arith)) k

posts-shutdown : (k : ℕ) → 1 ≤ k → k ≤ 7 → posts k shutdown ≡ 1
unfolding posts shutdown
posts-shutdown k lo hi = ground arith

pub posts-cycles :
    (k n c : ℕ) → 1 ≤ k → k ≤ 7 → posts k (cycles c n) + c / rate k ≡ (c + n) / rate k + 1
unfolding cycles posts
posts-cycles k zero c lo hi = ground (arith, posts-shutdown k lo hi)
posts-cycles k (suc n) c lo hi =
    ground
      (arith, posts-releases k (c + 1) (cycles (c + 1) n) lo hi, posts-cycles k n (c + 1) lo hi)

-- A run that is to make m + 1 cycles ends, with more than m units of fuel, and in it the semaphore
-- of service k, for k from 1 to 7, is posted once in every `rate k` cycles, and once more at the
-- shutdown.
pub posts-sequencer :
    (fuel : ℕ) (env : Env) (periods m k : ℕ)
    → RunsFor env periods m
    → m < fuel
    → 1 ≤ k
    → k ≤ 7
    → (plan : List Action) × (sequencer fuel env periods ≡ done plan)
      × (posts k plan ≡ (m + 1) / rate k + 1)
posts-sequencer fuel env periods m k r h lo hi = (
  cycles 0 (m + 1),
  sequencer-cycles fuel env periods m r h,
  ground (arith, posts-cycles k (m + 1) 0 lo hi),
)

-- How often the abort flag of service k is set.
unfoldable pub aborts : ℕ → List Action → ℕ
aborts k [] = 0
aborts k (abort j ∷ r) = (if j == k then 1 else 0) + aborts k r
aborts k (post j ∷ r) = aborts k r
aborts k (sleep ∷ r) = aborts k r

aborts-post_every :
    (k c n j : ℕ) (rest : List Action) → aborts k (post_every c n j rest) ≡ aborts k rest
unfolding aborts post_every
aborts-post_every k c n j rest = ground arith

aborts-complete : (k n c : ℕ) → aborts k (complete c n) ≡ 0
unfolding complete releases aborts
aborts-complete k zero c = refl
aborts-complete k (suc n) c = simp aborts-post_every (aborts-complete k n (c + 1))

posts-complete :
    (k n c : ℕ) → 1 ≤ k → k ≤ 7 → posts k (complete c n) + c / rate k ≡ (c + n) / rate k
unfolding complete posts
posts-complete k zero c lo hi = ground arith
posts-complete k (suc n) c lo hi =
    ground
      (arith, posts-releases k (c + 1) (complete (c + 1) n) lo hi, posts-complete k n (c + 1) lo hi)

-- If a sleep fails, also by a signal, after m complete ones and before the loop is over, the process
-- exits. Until then the semaphore of service k, for k from 1 to 7, has been posted once in every
-- `rate k` of the m cycles before, and not in that cycle; its abort flag has not been set. There is
-- fuel for m + 1 rounds.
pub sequencer-exited :
    (fuel : ℕ) (env : Env) (periods m k : ℕ)
    → GoesOn env periods m
    → (env.nanosleep m).rc ≡ negsuc 0
    → m < fuel
    → 1 ≤ k
    → k ≤ 7
    → (plan : List Action) × (sequencer_trace fuel env periods ≡ (plan, exited))
      × (posts k plan ≡ m / rate k)
      × (aborts k plan ≡ 0)
unfolding sequencer_trace
sequencer-exited zero env periods m k g x h lo hi = absurd (omega arith)
sequencer-exited (suc fuel) env periods m k g x h lo hi = (
  complete 0 m,
  sequencer_loop-exited g m fuel 0 x (omega arith) (omega arith),
  ground (arith, posts-complete k m 0 lo hi),
  aborts-complete k m 0,
)
