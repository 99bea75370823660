-- ===== src/SeqGenEx0.antt =====
-- 08-sequencer-generic/sam-sequencer/seqgenex0.c: a sequencer that sleeps to an absolute time, and
-- three services, all on one core.
-- The environment gives the results of the calls of `clock_nanosleep` and the values read of
-- `abortTest`. Both loops run on fuel.
pub mod Delay
pub mod Drift
pub mod Rates
pub mod Services
pub mod Setup
mod Tests
use ucb_rtes.Base.{ℕ, zero, suc, ◌+◌, Bool, not, ◌&&◌, List, [], ◌∷◌, ltb, if◌then◌else◌}
use ucb_rtes.Base.Int.{ℤ, pos, ◌+ℤ◌, ◌-ℤ◌, ltb_ℤ, ==_ℤ}
use ucb_rtes.Base.Run.{Run, done, exited, running, ◌>>=◌}
use ucb_rtes.Posix.{eintr, u64}
use ucb_rtes.Threads.Every.{post_every}
use ucb_rtes.Threads.Plan.{Action, sleep, post, abort}

-- What the thread gets from outside: what its i-th `clock_nanosleep` returns, and the value of
-- `abortTest` at the end of the n-th cycle.
pub record Env : Type 0 where
  pub clock_nanosleep : ℕ → ℤ
  pub abort_test : ℕ → Bool

-- `struct timespec`
pub record Timespec : Type 0 where
  pub tv_sec : ℤ
  pub tv_nsec : ℤ

-- The absolute time to which a cycle sleeps, from the clock's value and the delay in `tv_nsec`, which
-- the drift control computes in floating point.
unfoldable pub wake_time : Timespec → ℤ → Timespec
wake_time now delay =
    let nsec = now.tv_nsec +ℤ delay in
    if ltb_ℤ (pos 1_000_000_000) nsec
    then record { tv_sec = now.tv_sec +ℤ pos 1; tv_nsec = nsec -ℤ pos 1_000_000_000 }
    else record { tv_sec = now.tv_sec; tv_nsec = nsec }

-- `delay_cnt`, and the number of calls of `clock_nanosleep` made so far.
pub record Waited : Type 0 where
  pub calls : ℕ
  pub delay_cnt : ℕ

-- The delay loop.
unfoldable pub delay_loop : ℕ → (ℕ → ℤ) → ℕ → ℕ → Run Waited
delay_loop zero clock_nanosleep i delay_cnt = running
delay_loop (suc fuel) clock_nanosleep i delay_cnt =
    let rc = clock_nanosleep i in
    let again = delay_loop fuel clock_nanosleep (i + 1) (delay_cnt + 1) in
    if ==_ℤ rc eintr
    then again
    else if ltb_ℤ rc (pos 0)
    then exited
    else done (record { calls = i + 1; delay_cnt = delay_cnt })

-- The releases of one cycle, in front of what follows them.
unfoldable pub releases : ℕ → List Action → List Action
releases seq_cnt rest =
    post_every seq_cnt 2 1 (post_every seq_cnt 10 2 (post_every seq_cnt 15 3 rest))

-- What follows the loop.
unfoldable pub shutdown : List Action
shutdown = post 1 ∷ post 2 ∷ post 3 ∷ abort 1 ∷ abort 2 ∷ abort 3 ∷ []

-- The outer `do … while` and what follows it, with `i` calls of `clock_nanosleep` made before; the
-- delay loop has fuel `inner`. The counter goes up behind the releases.
unfoldable pub sequencer_loop : ℕ → ℕ → Env → ℕ → ℕ → ℕ → Run (List Action)
sequencer_loop zero inner env periods i seq_cnt = running
sequencer_loop (suc fuel) inner env periods i seq_cnt =
    delay_loop inner env.clock_nanosleep i 0 >>= λ d.
    let seq_cnt' = u64 (seq_cnt + 1) in
    let again = sequencer_loop fuel inner env periods d.calls seq_cnt' in
    (if not (env.abort_test seq_cnt') && ltb seq_cnt' periods then again else done shutdown)
    >>= λ rest. done (sleep ∷ releases seq_cnt rest)

unfoldable pub sequencer : ℕ → ℕ → Env → ℕ → Run (List Action)
sequencer fuel inner env periods = sequencer_loop fuel inner env periods 0 0
