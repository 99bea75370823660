-- ===== src/Lab1/Setup.antt =====
-- `main` and `print_scheduler` of lab1.c. Results of `pthread_create` and of the calls on attributes
-- are not looked at.
use ucb_rtes.Base.{
  ℕ, zero, suc, ◌≡◌, ◌≢◌, ◌⊎◌, Bool, true, false, some, List, [], ◌∷◌, arith, if◌then◌else◌, update,
}
use ucb_rtes.Base.Int.{ℤ, pos, ◌-ℤ◌}
use ucb_rtes.Base.Run.{Run, done, exited, ◌>>=◌}
use ucb_rtes.Posix.{Policy, fifo, Attr, Created, require_fifo}

-- What `main` gets from outside: whether the calls of `sem_init` for semF10 and semF20 fail, the
-- highest priority, and the policy in force after `sched_setscheduler`.
pub record Machine : Type 0 where
  pub sem_f10_fails : Bool
  pub sem_f20_fails : Bool
  pub rt_max_prio : ℤ
  pub policy : Policy

-- `print_scheduler`: any policy but SCHED_FIFO ends the process.
abbrev pub print_scheduler : Policy → Run (Unit {0})
print_scheduler p = require_fifo p

-- The `for` loop over the threads: each is bound to core 3.
pub init_attrs : Machine → ℕ → (ℕ → Attr) → (ℕ → Attr)
init_attrs m zero attrs = attrs
init_attrs m (suc i) attrs = update (init_attrs m i attrs) i (record {
  explicit_sched = true;
  policy = fifo;
  sched_priority = m.rt_max_prio -ℤ pos i;
  core = some 3;
})

-- The threads in the order in which they are created: fib10 (1), fib20 (2) and the sequencer (0),
-- with the attributes of the same index.
unfoldable pub main : Machine → (ℕ → Attr) → Run (List Created)
unfolding init_attrs
main m garbage =
    if m.sem_f10_fails
    then exited
    else if m.sem_f20_fails
    then exited
    else print_scheduler m.policy >>= λ _.
        let attrs = init_attrs m 3 garbage in
        done (
          record { thread = 1; routine = 1; attr = attrs 1 }
          ∷ record { thread = 2; routine = 2; attr = attrs 2 }
          ∷ record { thread = 0; routine = 0; attr = attrs 0 }
          ∷ [])

-- `threadParams[0].MajorPeriods=3;`
abbrev pub major_periods : ℕ
major_periods = 3

-- A thread under SCHED_FIFO on core 3, i below the highest priority.
abbrev pub at_prio : Machine → ℕ → Created
at_prio m i = record {
  thread = i;
  routine = i;
  attr = record {
    explicit_sched = true;
    policy = fifo;
    sched_priority = m.rt_max_prio -ℤ pos i;
    core = some 3;
  };
}

-- `main` either exits, because one of the two semaphores cannot be made or the policy is not
-- SCHED_FIFO, or creates fib10, fib20 and the sequencer in this order, all under SCHED_FIFO by their
-- own attributes and on core 3, with the sequencer above fib10 and fib10 above fib20.
pub main-cases :
    (m : Machine) (garbage : ℕ → Attr)
    → ((main m garbage ≡ exited)
        × ((m.sem_f10_fails ≡ true) ⊎ (m.sem_f20_fails ≡ true) ⊎ (m.policy ≢ fifo)))
      ⊎ ((main m garbage ≡ done (at_prio m 1 ∷ at_prio m 2 ∷ at_prio m 0 ∷ []))
          × (m.sem_f10_fails ≡ false)
          × (m.sem_f20_fails ≡ false)
          × (m.policy ≡ fifo))
unfolding main
main-cases m garbage = ground arith
