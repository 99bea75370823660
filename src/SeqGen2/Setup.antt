-- ===== src/SeqGen2/Setup.antt =====
-- `main` of seqgen2.c: semaphores, the policy check, cores, priorities, and the threads in the order
-- in which they are created. Results of `pthread_create` are only printed. What `main` gets from
-- outside, and the calls of `sem_init`, are those of seqgen.c.
use ucb_rtes.Base.{
  ℕ, zero, suc, ◌%◌, ◌≤◌, ◌≡◌, true, inl, inr, some, List, [], ◌∷◌, arith, ◌==◌, if◌then◌else◌,
  update, one_to_seven,
}
use ucb_rtes.Base.Int.{ℤ, pos, ◌-ℤ◌}
use ucb_rtes.Base.Run.{Run, done, ◌>>=◌}
use ucb_rtes.Posix.{Policy, fifo, Attr, Created, require_fifo, find_attr}
use ucb_rtes.SeqGen.Setup.{Machine, init_sems, init_sems-cases}

-- `print_scheduler`: any policy but SCHED_FIFO ends the process.
abbrev pub print_scheduler : Policy → Run (Unit {0})
print_scheduler p = require_fifo p

-- The `for` loop over the threads: even ones on core 2, odd ones on core 3, priority rt_max_prio - i.
pub init_attrs : Machine → ℕ → (ℕ → Attr) → (ℕ → Attr)
init_attrs m zero attrs = attrs
init_attrs m (suc i) attrs = update (init_attrs m i attrs) i (record {
  explicit_sched = true;
  policy = fifo;
  sched_priority = m.rt_max_prio -ℤ pos i;
  core = some (if i % 2 == 0 then 2 else 3);
})

-- `rt_param[k].sched_priority=p; pthread_attr_setschedparam(…); pthread_create(…)`
pub create : ℕ → ℤ → (ℕ → Attr) → Created
create k p attrs = record {
  thread = k;
  routine = k;
  attr = record (attrs k) { sched_priority = p };
}

-- `pthread_attr_setaffinity_np` of the sequencer's attributes.
abbrev pub bind_sequencer : (ℕ → Attr) → (ℕ → Attr)
bind_sequencer attrs = update attrs 0 (record (attrs 0) { core = some 1 })

-- The sequencer's thread, the last one, on core 1.
abbrev create_sequencer : Machine → (ℕ → Attr) → Created
create_sequencer m attrs = create 0 m.rt_max_prio (bind_sequencer attrs)

unfoldable pub main : Machine → (ℕ → Attr) → Run (List Created)
unfolding init_attrs create
main m garbage = init_sems m 7 1 >>= λ _. print_scheduler m.policy >>= λ _.
    let attrs = init_attrs m 8 garbage in
    done (
      create 1 (m.rt_max_prio -ℤ pos 1) attrs
      ∷ create 2 (m.rt_max_prio -ℤ pos 2) attrs
      ∷ create 3 (m.rt_max_prio -ℤ pos 3) attrs
      ∷ create 4 (m.rt_max_prio -ℤ pos 4) attrs
      ∷ create 5 (m.rt_max_prio -ℤ pos 5) attrs
      ∷ create 6 (m.rt_max_prio -ℤ pos 6) attrs
      ∷ create 7 m.rt_min_prio attrs
      ∷ create_sequencer m attrs
      ∷ [])

-- `threadParams[0].sequencePeriods=2000;`
abbrev pub sequence_periods : ℕ
sequence_periods = 2000

abbrev pub priority : Machine → ℕ → ℤ
priority m k = if k == 7 then m.rt_min_prio else m.rt_max_prio -ℤ pos k

-- A thread under SCHED_FIFO by its own attributes.
abbrev pub fifo_attr : ℤ → ℕ → Attr
fifo_attr p c = record { explicit_sched = true; policy = fifo; sched_priority = p; core = some c }

-- Whenever `main` gets as far as to create its threads, the sequencer has core 1 to itself, at the
-- highest priority, and services 1 to 7 run under SCHED_FIFO by their own attributes, those with an
-- even number on core 2 and the others on core 3, each at the priority of the header comment.
pub placement :
    (m : Machine) (garbage : ℕ → Attr) (cs : List Created) (k : ℕ)
    → main m garbage ≡ done cs
    → 1 ≤ k
    → k ≤ 7
    → (find_attr 0 cs ≡ some (fifo_attr m.rt_max_prio 1))
      × (find_attr k cs ≡ some (fifo_attr (priority m k) (if k % 2 == 0 then 2 else 3)))
unfolding main find_attr
placement m garbage cs k e lo hi = elim (init_sems-cases m 7 1) [
  | inl (ok, _) ↦ (
    ground (arith, ok),
    one_to_seven
        (λ j. find_attr j cs ≡ some (fifo_attr (priority m j) (if j % 2 == 0 then 2 else 3)))
        (ground (arith, ok)) (ground (arith, ok)) (ground (arith, ok)) (ground (arith, ok))
        (ground (arith, ok)) (ground (arith, ok)) (ground (arith, ok)) k lo hi,
  )
  | inr (bad, _, _, _, _) ↦ absurd (ground (arith, bad))
]
