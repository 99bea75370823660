-- ===== src/Posix.antt =====
-- The calls of POSIX and Linux that the programs make, as far as the programs use their results:
-- constants, `struct timespec`, and what a sleep returns. Which values come back is left to the
-- environment, an argument of each model.
use ucb_rtes.Base.{
  ℕ, ◌*◌, ◌+◌, ◌^◌, ◌%◌, Bool, Option, none, some, List, [], ◌∷◌, ◌==◌, if◌then◌else◌,
}
use ucb_rtes.Base.Run.{Run, done, exited}
use ucb_rtes.Base.Int.{ℤ, pos}

abbrev pub eintr : ℤ
eintr = pos 4

abbrev pub nanosec_per_sec : ℕ
nanosec_per_sec = 1_000_000_000

-- `unsigned long long`
abbrev pub u64 : ℕ → ℕ
u64 n = n % 2 ^ 64

-- `struct timespec` where neither field is negative
pub record Timespec : Type 0 where
  pub tv_sec : ℕ
  pub tv_nsec : ℕ

abbrev pub nanoseconds : Timespec → ℕ
nanoseconds t = t.tv_sec * nanosec_per_sec + t.tv_nsec

-- What a call of `nanosleep` or `clock_nanosleep` returns, and the time that it leaves.
pub record Sleep : Type 0 where
  pub rc : ℤ
  pub remaining : Timespec

-- `sched_getscheduler`
pub data Policy : Type 0 where
  fifo other rr unknown : Policy

-- The attributes with which a thread is created, as far as the programs set them: explicit
-- scheduling, the policy, the priority, and the one core that it is bound to.
pub record Attr : Type 0 where
  pub explicit_sched : Bool
  pub policy : Policy
  pub sched_priority : ℤ
  pub core : Option ℕ

-- A call of `pthread_create`: which thread, which start routine (0 for the sequencer, k for the k-th
-- service), and its attributes.
pub record Created : Type 0 where
  pub thread : ℕ
  pub routine : ℕ
  pub attr : Attr

-- The `switch` of `print_scheduler`, where any policy but SCHED_FIFO ends the process.
abbrev pub require_fifo : Policy → Run (Unit {0})
require_fifo fifo = done tt
require_fifo _ = exited

-- The attributes with which thread `k` is created.
unfoldable pub find_attr : ℕ → List Created → Option Attr
find_attr k [] = none
find_attr k (c ∷ cs) = if c.thread == k then some c.attr else find_attr k cs
