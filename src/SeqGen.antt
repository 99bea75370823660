-- ===== src/SeqGen.antt =====
-- 08-sequencer-generic/sam-sequencer/seqgen.c: a sequencer at 30 Hz that releases seven services at
-- sub-rates, for a given number of periods.
-- The environment gives the results of the calls of `nanosleep` and the values read of `abortTest`,
-- to which the program never writes. Loops run on fuel.
pub mod Delay
pub mod Rates
pub mod Services
pub mod Setup
mod Tests
use ucb_rtes.Base.{
  ℕ, zero, suc, ◌+◌, ◌%◌, Bool, not, ◌&&◌, List, [], ◌∷◌, ◌++◌, ltb, ◌==◌, if◌then◌else◌,
}
use ucb_rtes.Base.Int.{ℤ, pos, ltb_ℤ, ==_ℤ}
use ucb_rtes.Base.Run.{Run, done, exited, running, ◌>>=◌}
use ucb_rtes.Posix.{eintr, u64, nanoseconds, Sleep}
use ucb_rtes.Threads.Every.{post_every}
use ucb_rtes.Threads.Plan.{Action, sleep, post, abort}

-- What the thread gets from outside: the result of its i-th `nanosleep`, and the value of `abortTest`
-- at the end of the n-th cycle.
pub record Env : Type 0 where
  pub nanosleep : ℕ → Sleep
  pub abort_test : ℕ → Bool

-- `delay_cnt`, and the number of calls of `nanosleep` made so far.
pub record Waited : Type 0 where
  pub calls : ℕ
  pub delay_cnt : ℕ

-- The inner `do … while`. The residual is kept in nanoseconds: only its sign is used.
pub delay_loop : ℕ → (ℕ → Sleep) → ℕ → ℕ → ℕ → Run Waited
delay_loop zero nanosleep i residual delay_cnt = running
delay_loop (suc fuel) nanosleep i residual delay_cnt =
    let r = nanosleep i in
    let residual' = if ==_ℤ r.rc eintr then nanoseconds r.remaining else residual in
    let delay_cnt' = if ==_ℤ r.rc eintr then delay_cnt + 1 else delay_cnt in
    let again = delay_loop fuel nanosleep (i + 1) residual' delay_cnt' in
    if not (==_ℤ r.rc eintr) && ltb_ℤ r.rc (pos 0)
    then exited
    else if ltb 0 residual' && ltb delay_cnt' 100
    then again
    else done (record { calls = i + 1; delay_cnt = delay_cnt' })

-- The releases of one cycle, in front of what follows them.
pub releases : ℕ → List Action → List Action
releases seq_cnt rest = post_every seq_cnt 10 1 (
    post_every seq_cnt 30 2 (
      post_every seq_cnt 60 3 (
        post_every seq_cnt 30 4
          (post_every seq_cnt 60 5 (post_every seq_cnt 30 6 (post_every seq_cnt 300 7 rest))))))

-- What follows the loop.
pub shutdown : List Action
shutdown =
    post 1
    ∷ post 2
    ∷ post 3
    ∷ post 4
    ∷ post 5
    ∷ post 6
    ∷ post 7
    ∷ abort 1
    ∷ abort 2
    ∷ abort 3
    ∷ abort 4
    ∷ abort 5
    ∷ abort 6
    ∷ abort 7
    ∷ []

-- What the thread has done, and how it ended: `exit(-1)` ends the process.
abbrev pub Trace : Type 0
Trace = List Action × Run (Unit {0})

-- What follows the inner loop, if it does not end the process.
pub after_delay : Run Waited → (Waited → Trace) → Trace
after_delay (done d) next = next d
after_delay exited next = ([], exited)
after_delay running next = ([], running)

-- A cycle in front of what follows it; one sleep stands for a whole inner loop.
pub cycle : ℕ → Trace → Trace
cycle seq_cnt (rest, end) = (sleep ∷ releases seq_cnt rest, end)

-- The outer `do … while` and what follows it.
pub sequencer_loop : ℕ → Env → ℕ → ℕ → ℕ → Trace
sequencer_loop zero env periods i seq_cnt = ([], running)
sequencer_loop (suc fuel) env periods i seq_cnt =
    after_delay (delay_loop (suc fuel) env.nanosleep i 0 0) (λ d.
      let seq_cnt' = u64 (seq_cnt + 1) in
      let again = sequencer_loop fuel env periods d.calls seq_cnt' in
      cycle seq_cnt' (
        if not (env.abort_test seq_cnt') && ltb seq_cnt' periods
        then again
        else (shutdown, done tt)))

pub sequencer_trace : ℕ → Env → ℕ → Trace
sequencer_trace fuel env periods = sequencer_loop fuel env periods 0 0

-- All actions of a run that comes to its end.
pub planned : Trace → Run (List Action)
planned (plan, done u) = done plan
planned (plan, exited) = exited
planned (plan, running) = running

pub sequencer : ℕ → Env → ℕ → Run (List Action)
unfolding sequencer_trace
sequencer fuel env periods = planned (sequencer_trace fuel env periods)
