-- ===== src/ForkedChild/Tests.antt =====
-- Runs of the two processes of 03-twoprocs/main.cpp, and the theorems on them.
use ucb_rtes.Base.{◌+◌, ◌<◌, ◌≡◌, ◌⊎◌, refl, arith}
use ucb_rtes.ForkedChild.{
  ParentPc, ChildPc, State, init, parent_step, child_step, parent_throw, parent_moves, child_moves,
  parent_throws, Steps, here, next,
}
use ucb_rtes.ForkedChild.NoChild.{no_child, fork_failure_hangs}
use ucb_rtes.ForkedChild.Ends.{stuck_cases, no_fault_ends}

-- The parent's first `sem_wait` fails, and the child makes one round.
abbrev stuck : State
stuck = record (init 0 0) {
  parent_sem = 1;
  parent = ParentPc.unwind;
  child_i = 1;
  parent_faults = 1;
}

to_stuck : Steps (init 0 0) 4 stuck
unfolding parent_step child_step parent_throw
to_stuck =
    next (next (next (next here (parent_moves refl)) (parent_throws refl)) (child_moves refl))
      (child_moves refl)

stuck_cases_example :
    ((stuck.parent ≡ ParentPc.gone) × (stuck.child ≡ ChildPc.gone))
    ⊎ ((stuck.parent ≡ ParentPc.unwind)
        × (stuck.child ≡ ChildPc.wait)
        × (stuck.parent_faults ≡ 1)
        × (stuck.child_i ≡ stuck.parent_i + 1)
        × (stuck.child_i < 3))
    ⊎ ((stuck.parent ≡ ParentPc.wait)
        × (stuck.child ≡ ChildPc.gone)
        × (stuck.child_faults ≡ 1)
        × (stuck.child_i ≡ stuck.parent_i))
unfolding parent_step child_step
stuck_cases_example = stuck_cases to_stuck refl refl

-- Both end, over semaphores that were left at 2 and 1.
abbrev final : State
final = record (init 2 1) {
  parent = ParentPc.gone;
  parent_i = 3;
  child = ChildPc.gone;
  child_i = 3;
}

to_final : Steps (init 2 1) 13 final
unfolding parent_step child_step
to_final =
    next
      (next
        (next
          (next
            (next
              (next
                (next
                  (next
                    (next
                      (next
                        (next (next (next here (parent_moves refl)) (child_moves refl))
                          (child_moves refl))
                        (parent_moves refl))
                      (parent_moves refl))
                    (child_moves refl))
                  (child_moves refl))
                (parent_moves refl))
              (parent_moves refl))
            (child_moves refl))
          (child_moves refl))
        (parent_moves refl))
      (parent_moves refl)

no_fault_ends_example :
    (final.parent ≡ ParentPc.gone)
    × (final.child ≡ ChildPc.gone)
    × (final.parent_i ≡ 3)
    × (final.child_i ≡ 3)
    × (final.child_sem ≡ 2)
    × (final.parent_sem ≡ 1)
unfolding parent_step child_step
no_fault_ends_example = no_fault_ends to_final refl refl refl refl

-- No child: the process posts once, and waits.
abbrev alone : State
alone = record (no_child 0 0) { child_sem = 1; parent = ParentPc.wait }

to_alone : Steps (no_child 0 0) 1 alone
unfolding parent_step
to_alone = next here (parent_moves refl)

alone_hangs : (alone.parent ≡ ParentPc.wait) × (alone.parent_sem ≡ 0) × (alone.parent_i ≡ 0)
unfolding parent_step
alone_hangs = fork_failure_hangs (omega arith) to_alone refl refl
