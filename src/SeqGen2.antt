-- ===== src/SeqGen2.antt =====
-- 08-sequencer-generic/sam-sequencer/seqgen2.c: a sequencer at 100 Hz on a core of its own, and seven
-- services on two more cores. The releases of services 1 to 5 are commented out.
-- The environment gives the results of the calls of `clock_nanosleep` and the values read of
-- `abortTest`. The outer loop runs on fuel.
pub mod Rates
pub mod Services
pub mod Setup
mod Tests
use ucb_rtes.Base.{ℕ, zero, suc, ◌+◌, ◌%◌, Bool, not, ◌&&◌, List, [], ◌∷◌, ltb, ◌==◌, if◌then◌else◌}
use ucb_rtes.Base.Int.{ℤ, pos, ==_ℤ}
use ucb_rtes.Base.Run.{Run, done, exited, running, ◌>>=◌}
use ucb_rtes.Posix.{u64}
use ucb_rtes.Threads.Every.{post_every}
use ucb_rtes.Threads.Plan.{Action, sleep, post, abort}

-- What the thread gets from outside: what its i-th `clock_nanosleep` returns, and the value of
-- `abortTest` at the end of the n-th cycle.
pub record Env : Type 0 where
  pub clock_nanosleep : ℕ → ℤ
  pub abort_test : ℕ → Bool

-- The releases of one cycle, in front of what follows them.
unfoldable pub releases : ℕ → List Action → List Action
releases seq_cnt rest = post_every seq_cnt 100 6 (post_every seq_cnt 100 7 rest)

-- What follows the loop.
unfoldable pub shutdown : List Action
shutdown =
    post 1
    ∷ post 2
    ∷ post 3
    ∷ post 4
    ∷ post 5
    ∷ post 6
    ∷ post 7
    ∷ abort 1
    ∷ abort 2
    ∷ abort 3
    ∷ abort 4
    ∷ abort 5
    ∷ abort 6
    ∷ abort 7
    ∷ []

-- The `do … while` and what follows it, with `i` calls of `clock_nanosleep` made before.
unfoldable pub sequencer_loop : ℕ → Env → ℕ → ℕ → ℕ → Run (List Action)
sequencer_loop zero env periods i seq_cnt = running
sequencer_loop (suc fuel) env periods i seq_cnt =
    let seq_cnt' = u64 (seq_cnt + 1) in
    let again = sequencer_loop fuel env periods (i + 1) seq_cnt' in
    if not (==_ℤ (env.clock_nanosleep i) (pos 0))
    then exited
    else (if not (env.abort_test seq_cnt') && ltb seq_cnt' periods then again else done shutdown)
      >>= λ rest. done (sleep ∷ releases seq_cnt' rest)

unfoldable pub sequencer : ℕ → Env → ℕ → Run (List Action)
sequencer fuel env periods = sequencer_loop fuel env periods 0 0
