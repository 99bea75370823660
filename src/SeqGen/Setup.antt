-- ===== src/SeqGen/Setup.antt =====
-- `main` and `print_scheduler` of seqgen.c: semaphores, the policy check, priorities, and the threads
-- in the order in which they are created. Results of `pthread_create` are only printed.
use native.Mathlib.Decide.{dec_lt}
use ucb_rtes.Base.{
  Bool-cases, ◌↔◌, ◌⊎◌, inl, inr, ◌∙◌, sym, ℕ, zero, suc, ◌+◌, ◌<◌, ◌≤◌, ◌≡◌, ◌≢◌, refl, Bool, true,
  false, none, some, List, [], ◌∷◌, arith, ◌==◌, if◌then◌else◌, update, one_to_seven,
}
use ucb_rtes.Base.Int.{ℤ, pos, ◌+ℤ◌, ◌-ℤ◌, ◌≤ℤ◌}
use ucb_rtes.Base.Run.{Run, done, exited, ◌>>=◌}
use ucb_rtes.Posix.{Policy, fifo, Attr, Created, require_fifo, find_attr}

-- What `main` gets from outside: which calls of `sem_init` fail, the range of priorities, and the
-- policy that is in force after `sched_setscheduler`.
pub record Machine : Type 0 where
  pub sem_init_fails : ℕ → Bool
  pub rt_max_prio : ℤ
  pub rt_min_prio : ℤ
  pub policy : Policy

-- `sem_init` of semaphores `k` and up, `left` of them.
unfoldable pub init_sems : Machine → ℕ → ℕ → Run (Unit {0})
init_sems m zero k = done tt
init_sems m (suc left) k = if m.sem_init_fails k then exited else init_sems m left (k + 1)

-- The `for` loop over the threads: explicit scheduling, SCHED_FIFO, priority rt_max_prio - i. The
-- call that would bind the thread to a core is commented out.
pub init_attrs : Machine → ℕ → (ℕ → Attr) → (ℕ → Attr)
init_attrs m zero attrs = attrs
init_attrs m (suc i) attrs = update (init_attrs m i attrs) i (record {
  explicit_sched = true;
  policy = fifo;
  sched_priority = m.rt_max_prio -ℤ pos i;
  core = none;
})

-- `rt_param[k].sched_priority=p; pthread_attr_setschedparam(…); pthread_create(…)`
pub create : ℕ → ℤ → (ℕ → Attr) → Created
create k p attrs = record {
  thread = k;
  routine = k;
  attr = record (attrs k) { sched_priority = p };
}

-- The sequencer's thread, the last one.
abbrev create_sequencer : Machine → (ℕ → Attr) → Created
create_sequencer m attrs = create 0 m.rt_max_prio attrs

unfoldable pub main : Machine → (ℕ → Attr) → Run (List Created)
unfolding init_sems init_attrs create
main m garbage = init_sems m 7 1 >>= λ _. require_fifo m.policy >>= λ _.
    let attrs = init_attrs m 8 garbage in
    done (
      create 1 (m.rt_max_prio -ℤ pos 1) attrs
      ∷ create 2 (m.rt_max_prio -ℤ pos 2) attrs
      ∷ create 3 (m.rt_max_prio -ℤ pos 3) attrs
      ∷ create 4 (m.rt_max_prio -ℤ pos 3) attrs
      ∷ create 5 (m.rt_max_prio -ℤ pos 3) attrs
      ∷ create 6 (m.rt_max_prio -ℤ pos 2) attrs
      ∷ create 7 m.rt_min_prio attrs
      ∷ create_sequencer m attrs
      ∷ [])

-- How far below the sequencer service k stands, 7 aside.
abbrev offset : ℕ → ℕ
offset k = if k == 1 then 1 else if k == 2 then 2 else if k == 6 then 2 else 3

abbrev priority : Machine → ℕ → ℤ
priority m k = if k == 7 then m.rt_min_prio else m.rt_max_prio -ℤ pos (offset k)

module _ (m : Machine) (garbage : ℕ → Attr) (cs : List Created) (e : main m garbage ≡ done cs) where
  find_attr-main :
      (k : ℕ)
      → 1 ≤ k
      → k ≤ 7
      → find_attr k cs
        ≡ some (record {
          explicit_sched = true;
          policy = fifo;
          sched_priority = priority m k;
          core = none;
        })
  unfolding main find_attr
  find_attr-main =
      one_to_seven _ (ground arith) (ground arith) (ground arith) (ground arith) (ground arith)
        (ground arith) (ground arith)

-- a > b
abbrev pub Above : ℤ → ℤ → Type 0
Above a b = b +ℤ pos 1 ≤ℤ a

-- What holds of service j, with a higher rate than service k.
abbrev IsAhead : Machine → ℕ → ℕ → Type 0
IsAhead m j k =
    Above (priority m j) (priority m k)
    ⊎ ((j ≡ 4) × ((k ≡ 3) ⊎ (k ≡ 5)) × (priority m j ≡ priority m k))

pub init_sems-cases :
    (m : Machine) (left k : ℕ)
    → ((init_sems m left k ≡ done tt)
        × ((j : ℕ) → k ≤ j → j < k + left → m.sem_init_fails j ≡ false))
      ⊎ ((init_sems m left k ≡ exited)
          × (j : ℕ) × (k ≤ j)
          × (j < k + left)
          × (m.sem_init_fails j ≡ true))
unfolding init_sems
init_sems-cases m zero k = inl (refl, λ j p q. absurd (omega arith))
init_sems-cases m (suc left) k = elim (Bool-cases (m.sem_init_fails k)) [
  | inl bad ↦ inr (rw bad refl, k, omega arith, omega arith, bad)
  | inr good ↦ elim (init_sems-cases m left (k + 1)) [
    | inl (ok, all) ↦ inl (
      rw good ok,
      λ j p q. elim (dec_lt k j) [
        | yes above ↦ all j (omega arith) (omega arith)
        | no same ↦ let e : j ≡ k = omega arith in rw e good
      ],
    )
    | inr (bad, j, p, q, f) ↦ inr (rw good bad, j, omega arith, omega arith, f)
  ]
]

-- `main` creates threads exactly when the seven semaphores are made and the policy is SCHED_FIFO;
-- otherwise it exits, and no thread is created.
pub main-exited :
    (m : Machine) (garbage : ℕ → Attr)
    → (main m garbage ≡ exited)
      ↔ ((m.policy ≢ fifo) ⊎ ((k : ℕ) × (1 ≤ k) × (k ≤ 7) × (m.sem_init_fails k ≡ true)))
unfolding main
main-exited m garbage = elim (init_sems-cases m 7 1) [
  | inl (ok, all) ↦ (
    λ e. inl (λ p. ground (arith, ok)),
    λ h. elim h [
      | inl p ↦ ground (arith, ok)
      | inr (k, lo, hi, f) ↦ ground (arith, all k lo (omega arith))
    ],
  )
  | inr (bad, k, lo, hi, f) ↦ (λ e. inr (k, lo, omega arith, f), λ h. rw bad)
]

-- Service 4 runs at twice the rate of service 3, and both have the same priority.
pub service_4-eq-service_3 :
    (m : Machine) (garbage : ℕ → Attr) (cs : List Created)
    → main m garbage ≡ done cs
    → find_attr 4 cs ≡ find_attr 3 cs
service_4-eq-service_3 m garbage cs e =
    find_attr-main m garbage cs e 4 (omega arith) (omega arith)
    ∙ sym (find_attr-main m garbage cs e 3 (omega arith) (omega arith))
