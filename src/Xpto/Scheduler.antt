-- ===== src/Xpto/Scheduler.antt =====
-- include/xpto/ucbrtes.hpp: `dump_scheduler` and `install_rt_scheduler`, on the process that calls them.
-- What the system answers is a parameter. The scope that is printed is what `pthread_attr_getscope`
-- makes of bytes that `sched_getattr` wrote, which are laid out as another type.
use ucb_rtes.Base.{◌≡◌, ◌≢◌, ◌⊎◌, List, [], ◌∷◌, arith}
use ucb_rtes.Base.Int.{ℤ, pos}
use ucb_rtes.Posix.{Policy, fifo}
use ucb_rtes.Xpto.OrLose.{Outcome, returns, throws, or_lose}

pub data Scope : Type 0 where
  system process unknown : Scope

-- The results of the calls, `errno` before the first one, and the scope that is read.
pub record Answers : Type 0 where
  pub getparam : ℤ
  pub setscheduler : ℤ
  pub getscope : ℤ
  pub errno : ℤ
  pub scope : Scope

-- What the kernel keeps of the process: its policy and its priority.
pub record Process : Type 0 where
  pub policy : Policy
  pub sched_priority : ℤ

pub data Line : Type 0 where
  dumped : Policy → Scope → Line
  installed : Line

-- The process behind a call, the lines that were printed, and whether it returned or threw.
pub record Called : Type 0 where
  pub now : Process
  pub lines : List Line
  pub outcome : Outcome

-- What follows a call of `or_lose`, on the process as it is.
abbrev pub or_else : Process → Outcome → Called → Called
or_else p (throws value errno) rest = record { now = p; lines = []; outcome = throws value errno }
or_else p (returns errno) rest = rest

abbrev pub print : Line → Called → Called
print l c = record c { lines = l ∷ c.lines }

unfoldable pub dump_scheduler : Answers → Process → Called
dump_scheduler a p =
    or_else p (or_lose a.getscope a.errno)
      (record { now = p; lines = dumped p.policy a.scope ∷ []; outcome = returns a.errno })

-- The priority that the process had is read, and overwritten.
unfoldable pub install_rt_scheduler : Answers → ℤ → Process → Called
unfolding dump_scheduler
install_rt_scheduler a prio p =
    let p' : Process = record { policy = fifo; sched_priority = prio } in
    or_else p (or_lose a.getparam a.errno)
      (or_else p (or_lose a.setscheduler a.errno) (print installed (dump_scheduler a p')))

-- `install_rt_scheduler` returns exactly if all three calls return 0. Then the process runs under
-- SCHED_FIFO at the priority given, which is what is printed. If it throws, the process is as it was and
-- nothing is printed, or only the scope could not be read, and the process is under SCHED_FIFO.
pub install_rt_scheduler-cases :
    (a : Answers) (prio : ℤ) (p : Process)
    → ((install_rt_scheduler a prio p ≡ record {
      now = record { policy = fifo; sched_priority = prio };
      lines = installed ∷ dumped fifo a.scope ∷ [];
      outcome = returns a.errno;
    })
        × (a.getparam ≡ pos 0)
        × (a.setscheduler ≡ pos 0)
        × (a.getscope ≡ pos 0))
      ⊎ (((install_rt_scheduler a prio p).now ≡ p)
          × ((install_rt_scheduler a prio p).lines ≡ [])
          × ((install_rt_scheduler a prio p).outcome ≢ returns a.errno)
          × ((a.getparam ≢ pos 0) ⊎ (a.setscheduler ≢ pos 0)))
      ⊎ (((install_rt_scheduler a prio p).now ≡ record { policy = fifo; sched_priority = prio })
          × ((install_rt_scheduler a prio p).lines ≡ installed ∷ [])
          × ((install_rt_scheduler a prio p).outcome ≢ returns a.errno)
          × (a.getscope ≢ pos 0))
unfolding install_rt_scheduler or_lose
install_rt_scheduler-cases a prio p = ground arith

pub install_rt_scheduler-returns :
    (a : Answers) (prio errno : ℤ) (p : Process)
    → (install_rt_scheduler a prio p).outcome ≡ returns errno
    → (install_rt_scheduler a prio p).now ≡ record { policy = fifo; sched_priority = prio }
unfolding install_rt_scheduler or_lose
install_rt_scheduler-returns a prio errno p e = ground arith
