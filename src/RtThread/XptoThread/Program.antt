-- ===== src/RtThread/XptoThread/Program.antt =====
-- `main` of 06-rt-simplethread/pthread.cpp: it puts itself under SCHED_FIFO, and constructs four threads.
-- Nothing catches an exception.
use ucb_rtes.Base.{ℕ, zero, suc, ◌+◌, if◌then◌else◌}
use ucb_rtes.Base.Int.{ℤ}
use ucb_rtes.Xpto.OrLose.{Outcome, returns, throws}
use ucb_rtes.Xpto.Scheduler.{Answers, Process, dump_scheduler, install_rt_scheduler}
use ucb_rtes.Xpto.Thread.{System, thread_model}
use ucb_rtes.Xpto.Thread.Caller.{process_after}
use ucb_rtes.Xpto.ThreadObjects.{Ending, terminates, emplace_all}
use ucb_rtes.RtThread.XptoThread.{k_num_threads, attributes_of}

-- What follows a call that left the process as it is now, if it did not throw.
abbrev pub unless_thrown : Process → Outcome → Process × Ending → Process × Ending
unless_thrown now (throws value errno) rest = (now, terminates)
unless_thrown now (returns errno) rest = rest

-- The process when threads `i` and up are constructed, `left` of them, or the first constructor that
-- throws has thrown.
unfoldable pub after_all : (ℕ → System) → ℤ → ℕ → ℕ → Process → Process
after_all sys rt_max_prio zero i now = now
after_all sys rt_max_prio (suc left) i now =
    let made = thread_model (sys i) (attributes_of rt_max_prio i) in
    let now' = process_after (sys i) now made.calls in
    let rest = after_all sys rt_max_prio left (i + 1) now' in if made.ok then rest else now'

-- The process and the end of `main`. The system answers the first `dump_scheduler` as `first`, and
-- `install_rt_scheduler` as `second`; `sys k` is what it is for thread k.
unfoldable pub main : Answers → Answers → (ℕ → System) → ℤ → Process → Process × Ending
main first second sys rt_max_prio p =
    let dumped = dump_scheduler first p in
    let installed = install_rt_scheduler second rt_max_prio p in
    let made =
      emplace_all (λ k. (thread_model (sys k) (attributes_of rt_max_prio k)).ok) k_num_threads 0 in
    unless_thrown dumped.now dumped.outcome (
      unless_thrown installed.now installed.outcome
        (after_all sys rt_max_prio k_num_threads 0 installed.now, made))
