-- ===== src/Affinity/Tests.antt =====
-- The theorems on 04-simplethread-affinity at concrete inputs.
use ucb_rtes.Base.{ℕ, ◌*◌, arith, ◌≡◌, true, false, refl, none, [], ◌∷◌}
use ucb_rtes.Base.Int.{pos, negsuc}
use ucb_rtes.Posix.{other, Attr}
use ucb_rtes.Xpto.Thread.{
  System, thread_model, is_started, perform, body, affinity_part, stack_part, policy_part,
  name_part,
}
use ucb_rtes.Base.Run.{done}
use ucb_rtes.Xpto.Thread.Effect.{with_attr, with_created}
use ucb_rtes.Affinity.{counter_thread, starter_loop, fifo_sched_attr}
use ucb_rtes.Affinity.Program.{
  Machine, policy_line, perror, create_starter, join_starter, test_complete, main,
}
use ucb_rtes.Affinity.XptoThread.{
  fifo_rt_max_prio_attrs, sum_thread, sum_thread-counter_thread, emplace_loop,
  emplace_loop-starter_loop,
}

-- A system that refuses nothing.
abbrev willing : System
willing = record { result = λ _. pos 0; priority_max = λ _. pos 99 }

abbrev default_attr : Attr
default_attr = record {
  explicit_sched = false;
  policy = other;
  sched_priority = pos 0;
  core = none;
}

is_started-willing : is_started willing (thread_model willing fifo_rt_max_prio_attrs).calls ≡ true
unfolding is_started thread_model perform body affinity_part stack_part policy_part name_part
is_started-willing = refl

threads_64 :
    with_attr willing default_attr (emplace_loop 64 0) ≡ with_created (starter_loop (pos 99) 64 0)
threads_64 =
    emplace_loop-starter_loop willing default_attr 64 0 (refl, refl, refl) is_started-willing

sum_63 :
    (sum : ℕ) × (counter_thread 1_000_001 64 (pos 63) ≡ done (pos sum))
    × (sum_thread 1_000_001 64 (pos 63) ≡ done (pos sum))
    × (2 * sum ≡ 63 * 64)
sum_63 = sum_thread-counter_thread 1_000_001 64 63 (omega arith) (omega arith) (omega arith)

-- A process that may not use SCHED_FIFO: EPERM for each thread.
abbrev unprivileged : Machine
unprivileged = record {
  policy_before = other;
  policy_after = other;
  set_result = negsuc 0;
  max_prio = pos 99;
  create_result = λ _. pos 1;
  starter_result = pos 1;
}

nothing_runs :
    main unprivileged
    ≡ policy_line other
      ∷ perror
      ∷ policy_line other
      ∷ create_starter (fifo_sched_attr (pos 99))
      ∷ join_starter false
      ∷ test_complete
      ∷ []
unfolding main
nothing_runs = refl
