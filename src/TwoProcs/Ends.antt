-- ===== src/TwoProcs/Ends.antt =====
-- The two processes end: no deadlock, and a bound on the length of every run.
use ucb_rtes.Base.{ℕ, ◌↔◌, suc, ◌+◌, ◌-◌, ◌*◌, ◌≤◌, ◌≡◌, refl, none, some, arith}
use ucb_rtes.TwoProcs.{
  ParentPc, ChildPc, State, init, parent_step, child_step, parent_fault, child_fault, Step,
  parent_moves, child_moves, parent_fails, child_fails, Steps, here, next,
}
use ucb_rtes.TwoProcs.Turns.{Inv, Steps-Inv}

no_deadlock_of_Inv :
    (c p : ℕ) (s : State)
    → Inv c p s
    → parent_step s ≡ none
    → child_step s ≡ none
    → (s.parent ≡ ParentPc.gone) × (s.child ≡ ChildPc.gone)
unfolding parent_step child_step
no_deadlock_of_Inv c p s h e f = ground arith

-- Whatever the first values of the semaphores, the interleaving and the failures: a state in which
-- neither process can take a step of its own is one in which both have exited.
pub no_deadlock :
    {c p n : ℕ} {s : State}
    → Steps (init c p) n s
    → parent_step s ≡ none
    → child_step s ≡ none
    → (s.parent ≡ ParentPc.gone) × (s.child ≡ ChildPc.gone)
no_deadlock r = no_deadlock_of_Inv _ _ _ (Steps-Inv r)

-- Steps that a process has still to make.
abbrev parent_left : ParentPc → ℕ → ℕ
parent_left ParentPc.post i = 5 + 2 * (3 - i)
parent_left ParentPc.wait i = 4 + 2 * (3 - i)
parent_left ParentPc.join i = 5
parent_left ParentPc.close_c i = 4
parent_left ParentPc.close_p i = 3
parent_left ParentPc.unlink_c i = 2
parent_left ParentPc.unlink_p i = 1
parent_left ParentPc.gone i = 0

abbrev child_left : ChildPc → ℕ → ℕ
child_left ChildPc.wait i = 2 + 2 * (3 - i)
child_left ChildPc.post i = 1 + 2 * (3 - i)
child_left ChildPc.close_p i = 2
child_left ChildPc.close_c i = 1
child_left ChildPc.gone i = 0

abbrev left : State → ℕ
left s = parent_left s.parent s.parent_i + child_left s.child s.child_i

module _ (c p : ℕ) (s t : State) (h : Inv c p s) where
  parent_step-left : parent_step s ≡ some t → suc (left t) ≡ left s
  unfolding parent_step
  parent_step-left e = ground arith

  child_step-left : child_step s ≡ some t → suc (left t) ≡ left s
  unfolding child_step
  child_step-left e = ground arith

  parent_fault-left : parent_fault s ≡ some t → suc (left t) ≡ left s
  unfolding parent_fault
  parent_fault-left e = ground arith

  child_fault-left : child_fault s ≡ some t → suc (left t) ≡ left s
  unfolding child_fault
  child_fault-left e = ground arith

Step-left : (c p : ℕ) {s t : State} → Inv c p s → Step s t → suc (left t) ≡ left s
Step-left c p h (parent_moves e) = parent_step-left c p _ _ h e
Step-left c p h (child_moves e) = child_step-left c p _ _ h e
Step-left c p h (parent_fails e) = parent_fault-left c p _ _ h e
Step-left c p h (child_fails e) = child_fault-left c p _ _ h e

Steps-left : {c p n : ℕ} {s : State} → Steps (init c p) n s → n + left s ≡ 19
Steps-left here = refl
Steps-left {c} {p} (next r st) = omega (arith, Steps-left r, Step-left c p (Steps-Inv r) st)

-- Whatever the first values, the interleaving and the failures, a run has 19 steps at most; and it has
-- made all 19 exactly when both processes have exited.
pub run_length :
    {c p n : ℕ} {s : State}
    → Steps (init c p) n s
    → (n ≤ 19) × ((n ≡ 19) ↔ ((s.parent ≡ ParentPc.gone) × (s.child ≡ ChildPc.gone)))
run_length r = ground (arith, Steps-left r, Steps-Inv r)
