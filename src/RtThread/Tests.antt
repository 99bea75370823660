-- ===== src/RtThread/Tests.antt =====
-- Runs of the model of 06-rt-simplethread/pthread.c, and the theorems at concrete inputs.
use ucb_rtes.Base.{ℕ, List, ◌+◌, ◌/◌, ◌∷◌, [], ◌<◌, ◌≡◌, refl, true, false, none, arith}
use ucb_rtes.Base.Int.{pos}
use ucb_rtes.Base.Word.{to_int}
use ucb_rtes.Base.Run.{done}
use ucb_rtes.Fibonacci.{fibonacci, u32}
use ucb_rtes.RtThread.Fib.{Globals, globals, fib_while, fib_for, fib_test, fib_test-returns}
use ucb_rtes.RtThread.DeltaT.{Timespec, clock}
use ucb_rtes.Posix.{other, Attr}
use ucb_rtes.Xpto.Thread.{
  System, thread_model, is_started, perform, body, affinity_part, stack_part, policy_part,
  name_part,
}
use ucb_rtes.RtThread.DeltaT.{instant}
use ucb_rtes.RtThread.Report.{counter_thread, counter_thread-reports}
use ucb_rtes.Xpto.Scheduler.{Answers, Process, system}
use ucb_rtes.RtThread.XptoThread.{attributes_of, k_num_threads}

-- Two rounds with seqCnt = 5 leave the numbers around place 10.
ten_places :
    fib_test 3 6 5 2 globals
    ≡ done (pos 2, record { idx = 2; jdx = 0; fib = 89; fib0 = 34; fib1 = 55 })
unfolding fib_test fib_for fib_while to_int
ten_places = refl

fib_test-returns_example :
    (h : Globals) × (fib_test 10 50 47 3 globals ≡ done (pos 3, h))
    × (h.fib0 ≡ u32 (fibonacci 140))
    × (h.fib1 ≡ u32 (fibonacci 141))
    × (h.fib ≡ u32 (fibonacci 142))
fib_test-returns_example =
    fib_test-returns 10 50 47 3 (omega arith) (omega arith) (omega arith) (omega arith)
      (omega arith) (omega arith)

-- What `*delta_t` holds before the call.
abbrev zero_time : Timespec
zero_time = clock 0 0

-- A system that refuses nothing.
abbrev willing : System
willing = record { result = λ _. pos 0; priority_max = λ _. pos 99 }

abbrev default_attr : Attr
default_attr = record {
  explicit_sched = false;
  policy = other;
  sched_priority = pos 0;
  core = none;
}

is_started-willing :
    (j : ℕ)
    → j < k_num_threads
    → is_started willing (thread_model willing (attributes_of (pos 99) j)).calls ≡ true
unfolding is_started thread_model perform body affinity_part stack_part policy_part name_part
is_started-willing j h = refl

-- The thread with index 3 takes 1.5 s, across a change of seconds.
counter_thread-reports_example :
    (s : ℕ) × (k : ℕ) × (h : Globals) × (counter_thread 1003 10_000_001 48
        (clock 5 900_000_000)
        (clock 7 400_000_000)
        (pos 3)
        globals
      ≡ done (
        record {
          idx = pos 3;
          sec = pos s;
          msec = pos (k / 1_000_000);
          microsec = pos (k / 1000);
          nsec = pos k;
        },
        h,
      ))
    × (instant s k + instant 5 900_000_000 ≡ instant 7 400_000_000)
    × (k < 1_000_000_000)
counter_thread-reports_example =
    counter_thread-reports 1003 10_000_001 48 3 7 5 400_000_000 900_000_000 (omega arith)
      (omega arith) (omega arith) (omega arith) (omega arith) (omega arith) (omega arith)
      (omega arith) (omega arith)

-- The kernel refuses nothing, and `errno` is 0.
abbrev no_errors : Answers
no_errors = record {
  getparam = pos 0;
  setscheduler = pos 0;
  getscope = pos 0;
  errno = pos 0;
  scope = system;
}

abbrev shell : Process
shell = record { policy = other; sched_priority = pos 0 }

abbrev in_order : List ℕ
in_order = 0 ∷ 1 ∷ 2 ∷ 3 ∷ []
