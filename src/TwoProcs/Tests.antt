-- ===== src/TwoProcs/Tests.antt =====
-- A whole run of the two processes, and the theorems on it.
use ucb_rtes.Base.{◌+◌, ◌≤◌, ◌≡◌, refl, false}
use ucb_rtes.TwoProcs.{
  ParentPc, ChildPc, State, init, parent_step, child_step, parent_moves, child_moves, Steps, here,
  next,
}
use ucb_rtes.TwoProcs.Turns.{turns}
use ucb_rtes.TwoProcs.Ends.{no_deadlock}

-- Parent and child in turn, then the child's two steps and the parent's five.
abbrev final : State
final = record (init 0 0) {
  linked_c = false;
  linked_p = false;
  parent = ParentPc.gone;
  parent_i = 3;
  child = ChildPc.gone;
  child_i = 3;
}

-- The child's first token is posted, and not yet taken.
abbrev first_post : State
first_post = record (init 0 0) { sync_sem_c = 1; parent = ParentPc.wait }

posted : Steps (init 0 0) 1 first_post
unfolding parent_step
posted = next here (parent_moves refl)

run : Steps (init 0 0) 19 final
unfolding parent_step child_step
run =
    next
      (next
        (next
          (next
            (next
              (next
                (next
                  (next
                    (next
                      (next
                        (next
                          (next
                            (next
                              (next
                                (next
                                  (next
                                    (next (next (next here (parent_moves refl)) (child_moves refl))
                                      (child_moves refl))
                                    (parent_moves refl))
                                  (parent_moves refl))
                                (child_moves refl))
                              (child_moves refl))
                            (parent_moves refl))
                          (parent_moves refl))
                        (child_moves refl))
                      (child_moves refl))
                    (parent_moves refl))
                  (child_moves refl))
                (child_moves refl))
              (parent_moves refl))
            (parent_moves refl))
          (parent_moves refl))
        (parent_moves refl))
      (parent_moves refl)

turns_example :
    (final.parent_i ≤ final.child_i) × (final.child_i ≤ final.parent_i + 1) × (final.child_i ≤ 3)
turns_example = turns run refl refl

no_deadlock_example : (final.parent ≡ ParentPc.gone) × (final.child ≡ ChildPc.gone)
unfolding parent_step child_step
no_deadlock_example = no_deadlock run refl refl
