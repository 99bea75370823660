-- ===== src/SeqGenEx0/Setup.antt =====
-- `main` of seqgenex0.c: semaphores, the policy check, and the threads in the order in which they are
-- created, all on core 3. What `main` gets from outside, and the calls of `sem_init`, are those of
-- seqgen.c.
use ucb_rtes.Base.{
  ℕ, zero, suc, ◌≤◌, ◌≡◌, true, inl, inr, some, List, [], ◌∷◌, arith, ◌==◌, if◌then◌else◌, update,
}
use ucb_rtes.Base.Int.{ℤ, pos, ◌-ℤ◌}
use ucb_rtes.Base.Run.{Run, done, ◌>>=◌}
use ucb_rtes.Posix.{Policy, fifo, Attr, Created, require_fifo, find_attr}
use ucb_rtes.SeqGen.Setup.{Machine, init_sems, init_sems-cases}

-- `print_scheduler`: any policy but SCHED_FIFO ends the process. The scope is
-- only printed.
abbrev pub print_scheduler : Policy → Run (Unit {0})
print_scheduler p = require_fifo p

-- The `for` loop over the threads.
pub init_attrs : Machine → ℕ → (ℕ → Attr) → (ℕ → Attr)
init_attrs m zero attrs = attrs
init_attrs m (suc i) attrs = update (init_attrs m i attrs) i (record {
  explicit_sched = true;
  policy = fifo;
  sched_priority = m.rt_max_prio -ℤ pos i;
  core = some 3;
})

-- `rt_param[k].sched_priority=p; pthread_attr_setschedparam(…); pthread_create(…)`
pub create : ℕ → ℤ → (ℕ → Attr) → Created
create k p attrs = record {
  thread = k;
  routine = k;
  attr = record (attrs k) { sched_priority = p };
}

unfoldable pub main : Machine → (ℕ → Attr) → Run (List Created)
unfolding init_attrs create
main m garbage = init_sems m 3 1 >>= λ _. print_scheduler m.policy >>= λ _.
    let attrs = init_attrs m 4 garbage in
    done (
      create 1 (m.rt_max_prio -ℤ pos 1) attrs
      ∷ create 2 (m.rt_max_prio -ℤ pos 2) attrs
      ∷ create 3 (m.rt_max_prio -ℤ pos 3) attrs
      ∷ create 0 m.rt_max_prio attrs
      ∷ [])

-- A thread under SCHED_FIFO on core 3, by its own attributes.
abbrev pub attr_of : Machine → ℕ → Attr
attr_of m k = record {
  explicit_sched = true;
  policy = fifo;
  sched_priority = if k == 0 then m.rt_max_prio else m.rt_max_prio -ℤ pos k;
  core = some 3;
}

-- Whenever `main` gets as far as to create its threads, all four run under SCHED_FIFO on core 3, the
-- sequencer at the highest priority and service k at k below it.
pub one_core :
    (m : Machine) (garbage : ℕ → Attr) (cs : List Created) (k : ℕ)
    → main m garbage ≡ done cs
    → k ≤ 3
    → find_attr k cs ≡ some (attr_of m k)
unfolding main find_attr
one_core m garbage cs k e h = elim (init_sems-cases m 3 1) [
  | inl (ok, _) ↦ ground (arith, ok)
  | inr (bad, _, _, _, _) ↦ absurd (ground (arith, bad))
]
