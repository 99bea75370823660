-- ===== src/HardcodedSequencer/Tests.antt =====
-- Runs of the model of 07-hardcoded-sequencer/main.cpp, and the theorems at concrete inputs.
use ucb_rtes.Base.{
  ℕ, ◌≡◌, ◌==◌, if◌then◌else◌, refl, true, false, none, some, Option, List, [], ◌∷◌, ◌&&◌, Bool,
  arith,
}
use ucb_rtes.Base.Int.{ℤ, pos, ◌+ℤ◌}
use ucb_rtes.Posix.{other, Attr}
use ucb_rtes.Threads.{Fleet, Reach, init}
use ucb_rtes.Threads.Hang.{sequencer_ends}
use ucb_rtes.Threads.Exit.{ExitsSoon}
use ucb_rtes.Lab1.Schedule.{rounds, sequencer-rounds}
use ucb_rtes.Lab1.Setup.{Machine, at_prio}
use ucb_rtes.Xpto.Thread.{
  System, thread_model, is_started, perform, body, affinity_part, stack_part, policy_part,
  name_part,
}
use ucb_rtes.Xpto.Thread.Effect.{attr_at_create}
use ucb_rtes.HardcodedSequencer.{table, major_periods, sequencer, actions, thread_attributes}
use ucb_rtes.HardcodedSequencer.Agreement.{
  as_lab1, before_abort, sequencer-lab1, thread_attributes-lab1,
}
use ucb_rtes.Threads.{finished}
use ucb_rtes.Xpto.Thread.{Call, create}
use ucb_rtes.HardcodedSequencer.Construction.{ending, plan, started, joined_threads_end}
use ucb_rtes.Xpto.ThreadObjects.{joins, terminates}
use ucb_rtes.Threads.Plan.{Action}
use ucb_rtes.HardcodedSequencer.Services.{service_of}
use ucb_rtes.HardcodedSequencer.Rerun.{open_semaphores, close_semaphores, values, stale_releases}
use ucb_rtes.HardcodedSequencer.Calibrated.{IsCalibrated, calibrated_in_time}
use ucb_rtes.Lab1.Feasibility.{Load, execute, idle}
use ucb_rtes.Xpto.Fib.{work}
use ucb_rtes.Base.Word.{to_int}
use ucb_rtes.Threads.Stale.{init_from}
use ucb_rtes.Xpto.Semaphore.{SemCalls, o_creat, auto_text}
use ucb_rtes.Xpto.Semaphore.Persistence.{IsPersistent}

sequencer-lab1_example :
    before_abort (as_lab1 (sequencer major_periods)) ≡ before_abort (rounds major_periods)
sequencer-lab1_example = sequencer-lab1 4 3 (omega arith) (sequencer-rounds 4 3 (omega arith))

-- A system that refuses nothing.
abbrev willing : System
willing = record { result = λ _. pos 0; priority_max = λ _. pos 99 }

abbrev linux : Machine
linux = record {
  sem_f10_fails = false;
  sem_f20_fails = false;
  rt_max_prio = pos 99;
  policy = other;
}

abbrev default_attr : Attr
default_attr = record {
  explicit_sched = false;
  policy = other;
  sched_priority = pos 0;
  core = none;
}

is_started-willing :
    is_started willing (thread_model willing (thread_attributes (pos 99) 2)).calls ≡ true
unfolding is_started thread_model perform body affinity_part stack_part policy_part name_part
is_started-willing = refl

t20_as_fib20 :
    attr_at_create willing default_attr (thread_model willing (thread_attributes (pos 99) 2)).calls
    ≡ some (at_prio linux 2).attr
t20_as_fib20 =
    thread_attributes-lab1 willing linux 2 default_attr (refl, refl, refl) is_started-willing

-- The sequencer's thread is refused, with EAGAIN.
abbrev eagain : Call → ℤ
eagain create = pos 11
eagain _ = pos 0

abbrev crowded : ℕ → System
crowded k = if k == 0 then record { result = eagain; priority_max = λ _. pos 99 } else willing

refused : ending crowded (pos 99) ≡ terminates
unfolding ending thread_model perform body affinity_part stack_part policy_part name_part
refused = refl

all_constructed : ending (λ _. willing) (pos 99) ≡ joins (0 ∷ 1 ∷ 2 ∷ [])
unfolding ending thread_model perform body affinity_part stack_part policy_part name_part
all_constructed = refl

abbrev in_order : List ℕ
in_order = 0 ∷ 1 ∷ 2 ∷ []

abbrev threads : List Action
threads = plan (λ _. willing) (pos 99)

abbrev ended : (s : Fleet) × Reach false table (init threads) s × (s.todo ≡ [])
ended = sequencer_ends threads _ refl

joined_threads_end_example :
    (in_order ≡ 0 ∷ 1 ∷ 2 ∷ [])
    × (started (λ _. willing) (pos 99) 0 ≡ true)
    × (started (λ _. willing) (pos 99) 1 ≡ true)
    × (started (λ _. willing) (pos 99) 2 ≡ true)
    × ExitsSoon (service_of 2) 2 ended.0
joined_threads_end_example =
    joined_threads_end (λ _. willing) (pos 99) in_order 2 (omega arith) (omega arith)
      all_constructed ended.1 ended.2

-- A system that keeps its semaphores by their names, and never refuses: the handles are all 1.
abbrev Kernel : Type 0
Kernel = List ℕ → Option ℕ

abbrev same_name : List ℕ → List ℕ → Bool
same_name [] [] = true
same_name (a ∷ as') (b ∷ bs) = (a == b) && same_name as' bs
same_name _ _ = false

abbrev opened : ℕ → Option ℕ → Option ℕ
opened n none = some n
opened n (some m) = some m

abbrev keeper : SemCalls Kernel
keeper = record {
  sem_open = λ name oflag mode n k.
      (1, λ sought. if same_name name sought then opened n (k sought) else k sought);
  sem_close = λ h k. k;
  sem_wait = λ h k. some (pos 0, pos 0, k);
  sem_post = λ h k. (pos 0, pos 0, k);
  sem_getvalue = λ h k. (pos 0, pos 0, pos 0);
}

abbrev keeper_tokens : List ℕ → Kernel → Option ℕ
keeper_tokens name k = k name

keeper-kept :
    (name sought : List ℕ) (mode value n : ℕ) (k : Kernel)
    → k sought ≡ some n
    → keeper_tokens sought ((keeper.sem_open name o_creat mode value k).1) ≡ some n
keeper-kept name sought mode value n k e = ground arith

keeper-IsPersistent : IsPersistent keeper keeper_tokens
keeper-IsPersistent = record { kept_open = keeper-kept; kept_close = λ sought h k. refl }

-- A first run of 3 major periods that left 16 tokens for t10.
abbrev left_behind : Kernel
left_behind name = if same_name name (auto_text 1) then some 16 else none

abbrev reopened : Kernel
reopened = (open_semaphores keeper (close_semaphores keeper 1 1 left_behind)).2

left_16 : left_behind (auto_text 1) ≡ some 16
unfolding auto_text
left_16 = refl

stale_releases_example :
    ((s : Fleet) × Reach false table (init (actions (sequencer 3))) s
      × (s.todo ≡ [])
      × (s.pcs 1 ≡ finished)
      × (s.sems 1 ≡ 16))
    × ((t : Fleet) × Reach false table
          (init_from (values keeper_tokens reopened) (actions (sequencer 3)))
          t
        × (t.todo ≡ actions (sequencer 3))
        × (t.counts 1 ≡ 16))
stale_releases_example =
    stale_releases keeper keeper_tokens keeper-IsPersistent 3 3 1 1 1 left_behind (omega arith)
      (omega arith) left_16

-- FIB_TEST takes 300 microseconds: 33 calls for 10 ms, 66 for 20 ms.
calls_10_ms : IsCalibrated 70 10_000_000 300_000 33
unfolding work to_int ◌+ℤ◌
calls_10_ms = record {
  took_time = omega arith;
  in_range = omega arith;
  enough = omega arith;
  calls = refl;
}

calls_20_ms : IsCalibrated 70 20_000_000 300_000 66
unfolding work to_int ◌+ℤ◌
calls_20_ms = record {
  took_time = omega arith;
  in_range = omega arith;
  enough = omega arith;
  calls = refl;
}

abbrev at_that_speed : Load
at_that_speed = record { work = λ k n. if k == 1 then 9_900 else 19_800; late = λ n. 55 }

calibrated_in_time_example :
    ((execute at_that_speed (as_lab1 (sequencer 3)) idle).overruns ≡ 0)
    × ((execute at_that_speed (as_lab1 (sequencer 3)) idle).left_10 ≡ 0)
    × ((execute at_that_speed (as_lab1 (sequencer 3)) idle).left_20 ≡ 0)
calibrated_in_time_example =
    calibrated_in_time 70 3 300_000 300_000 33 66 at_that_speed calls_10_ms calls_20_ms
      (λ j. omega arith) (λ j. omega arith)
