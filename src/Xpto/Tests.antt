-- ===== src/Xpto/Tests.antt =====
-- Runs of the models of include/xpto, and the theorems at concrete inputs.
use ucb_rtes.Base.{
  ℕ, ◌+◌, ◌*◌, ◌≤◌, ◌<◌, ◌≡◌, ◌≢◌, ◌⊎◌, refl, true, false, some, none, List, [], ◌∷◌, arith,
}
use ucb_rtes.Base.Int.{ℤ, pos, ◌+ℤ◌}
use ucb_rtes.Base.Word.{to_int}
use ucb_rtes.Posix.{fifo, other, Attr}
use ucb_rtes.Base.Run.{done}
use ucb_rtes.RtThread.Fib as C
use ucb_rtes.RtThread.Fib.{globals}
use ucb_rtes.Xpto.Fib.{fib_test, fib_for, fib_while, work}
use ucb_rtes.Xpto.Fib.Agreement.{as_result, fib_test-first_call}
use ucb_rtes.Xpto.Fib.Calibration.{work-calibrated}
use ucb_rtes.Base.Bytes.{c_str}
use ucb_rtes.Xpto.Syslog.{debug, syslog, format_to_n}
use ucb_rtes.Xpto.Resource
use ucb_rtes.Xpto.Resource.{
  Op, construct, move_construct, swap, destroy, reset, release, run, apply, payload_at,
}
use ucb_rtes.Xpto.Resource.Ownership.{count, handles_conserved}
use ucb_rtes.Xpto.Thread.{
  Attributes, Call, create, setname, System, thread_model, is_started, perform, body, affinity_part,
  stack_part, policy_part, name_part,
}
use ucb_rtes.Xpto.Thread.Lifecycle.{thread_model-cases}

-- Two handles, of which one is moved to another object, closed there, and closed no more; `Invalid` is 0.
abbrev handover : List Op
handover =
    construct 7 ∷ move_construct 0 ∷ construct 8 ∷ swap 0 1 ∷ destroy 0 ∷ release 0 ∷ destroy 1 ∷ []

handed_over :
    run 0 handover Resource.init
    ≡ record { payloads = 0 ∷ []; acquired = 8 ∷ 7 ∷ []; destructed = 7 ∷ []; released = 8 ∷ [] }
unfolding run apply
handed_over = refl

handles_conserved_example :
    count 7 (run 0 handover Resource.init).acquired
    ≡ count 7 (run 0 handover Resource.init).payloads
      + count 7 (run 0 handover Resource.init).destructed
      + count 7 (run 0 handover Resource.init).released
handles_conserved_example = handles_conserved 0 7 handover (ground arith)

owns_nothing : payload_at 0 (run 0 handover Resource.init).payloads ≡ some 0
unfolding run apply
owns_nothing = refl

-- A system that refuses one kind of call, or none: ERANGE for a name that is too long, EPERM for the
-- creation of a thread under SCHED_FIFO.
abbrev erange : Call → ℤ
erange setname = pos 34
erange _ = pos 0

abbrev eperm : Call → ℤ
eperm create = pos 1
eperm _ = pos 0

abbrev strict : System
strict = record { result = erange; priority_max = λ _. pos 99 }

abbrev unprivileged : System
unprivileged = record { result = eperm; priority_max = λ _. pos 99 }

abbrev named : Attributes
named = record {
  affinity = 3 ∷ [];
  stack_size = none;
  name_size = 16;
  policy = some fifo;
  prio = none;
}

abbrev default_attr : Attr
default_attr = record {
  explicit_sched = false;
  policy = other;
  sched_priority = pos 0;
  core = none;
}

not_created :
    ((thread_model unprivileged named).ok ≡ false)
    × (is_started unprivileged (thread_model unprivileged named).calls ≡ false)
unfolding thread_model is_started perform body affinity_part stack_part policy_part name_part
not_created = (refl, refl)

thread_model-cases_example :
    (((thread_model strict named).ok ≡ true)
      × (is_started strict (thread_model strict named).calls ≡ true))
    ⊎ (((thread_model strict named).ok ≡ false)
        × (is_started strict (thread_model strict named).calls ≡ false))
    ⊎ (((thread_model strict named).ok ≡ false)
        × (is_started strict (thread_model strict named).calls ≡ true)
        × (named.name_size ≢ 0)
        × (pos 34 ≢ pos 0))
thread_model-cases_example = thread_model-cases strict named

-- The first Fibonacci numbers, and 47 * 3 of them, modulo 2 ^ 32.
fib_test-small :
    fib_test 3 4 3 2
    ≡ done (pos 2, record { idx = pos 2; jdx = pos 0; fib = 13; fib0 = 5; fib1 = 8 })
unfolding fib_test fib_for fib_while to_int ◌+ℤ◌
fib_test-small = refl

fib_test-first_call_example :
    fib_test 5001 16 15 5000 ≡ as_result (C.fib_test 5001 16 15 5000 globals)
fib_test-first_call_example = fib_test-first_call 5001 16 15 5000 (omega arith) (omega arith)

-- 20 ms of calls that take 300 microseconds each.
calls_in_20_ms :
    (n : ℕ) × (work 70 20_000_000 300_000 ≡ done n)
    × (n * 300_000 ≤ 20_000_000)
    × (20_000_000 < (n + 1) * 300_000)
calls_in_20_ms = work-calibrated 70 20_000_000 300_000 (omega arith) (omega arith) (omega arith)

-- "ok" and a newline, which fit.
syslog-ok : debug (111 ∷ 107 ∷ 10 ∷ []) ≡ (7, 111 ∷ 107 ∷ 10 ∷ [])
unfolding debug syslog format_to_n c_str
syslog-ok = refl
