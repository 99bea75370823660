-- ===== src/ForkedChild/NoChild.antt =====
-- 03-twoprocs/main.cpp where `fork` fails: it returns -1, which is not the `Invalid` of `forked_child`, so
-- that the process goes on as a parent. There is no child to make a step, and `waitpid` does not block.
use ucb_rtes.Base.{ℕ, ◌+◌, ◌≤◌, ◌≡◌, ◌⊎◌, none, some, arith}
use ucb_rtes.ForkedChild.{
  ParentPc, ChildPc, State, init, parent_step, child_step, parent_throw, child_throw, Step,
  parent_moves, child_moves, parent_throws, child_throws, Steps, here, next,
}

-- The process behind a `fork` that failed.
abbrev pub no_child : ℕ → ℕ → State
no_child c p = record (init c p) { child = ChildPc.gone }

abbrev Stands : ParentPc → State → Type 0
Stands ParentPc.post s = s.parent_faults ≡ 0
Stands ParentPc.wait s = s.parent_faults ≡ 0
Stands ParentPc.clear s = (s.parent_i ≡ 3) × (s.parent_faults ≡ 0)
Stands ParentPc.unwind s = s.parent_faults ≡ 1
Stands ParentPc.gone s = (s.parent_i ≡ 3) ⊎ (s.parent_faults ≡ 1)

record IsAlone (p : ℕ) (s : State) : Type 0 where
  childless : s.child ≡ ChildPc.gone
  tokens : s.parent_sem + s.parent_i ≡ p
  rounds : s.parent_i ≤ 3
  within :
      (s.parent ≡ ParentPc.post) × (s.parent_i ≤ 2)
      ⊎ (s.parent ≡ ParentPc.wait) × (s.parent_i ≤ 2)
      ⊎ (s.parent ≡ ParentPc.clear)
      ⊎ (s.parent ≡ ParentPc.unwind)
      ⊎ (s.parent ≡ ParentPc.gone)
  stands : Stands s.parent s

module _ (p : ℕ) (s t : State) where
  parent_step-IsAlone : parent_step s ≡ some t → IsAlone p s → IsAlone p t
  unfolding parent_step
  parent_step-IsAlone e h = ground arith

  child_step-IsAlone : child_step s ≡ some t → IsAlone p s → IsAlone p t
  unfolding child_step
  child_step-IsAlone e h = ground arith

  parent_throw-IsAlone : parent_throw s ≡ some t → IsAlone p s → IsAlone p t
  unfolding parent_throw
  parent_throw-IsAlone e h = ground arith

  child_throw-IsAlone : child_throw s ≡ some t → IsAlone p s → IsAlone p t
  unfolding child_throw
  child_throw-IsAlone e h = ground arith

Step-IsAlone : {p : ℕ} {s t : State} → Step s t → IsAlone p s → IsAlone p t
Step-IsAlone (parent_moves e) = parent_step-IsAlone _ _ _ e
Step-IsAlone (child_moves e) = child_step-IsAlone _ _ _ e
Step-IsAlone (parent_throws e) = parent_throw-IsAlone _ _ _ e
Step-IsAlone (child_throws e) = child_throw-IsAlone _ _ _ e

Steps-IsAlone : {c p n : ℕ} {s : State} → Steps (no_child c p) n s → IsAlone p s
Steps-IsAlone here = ground arith
Steps-IsAlone (next r st) = Step-IsAlone st (Steps-IsAlone r)

stuck_of_IsAlone :
    (p : ℕ) (s : State)
    → IsAlone p s
    → p ≤ 2
    → s.parent_faults ≡ 0
    → parent_step s ≡ none
    → (s.parent ≡ ParentPc.wait) × (s.parent_sem ≡ 0) × (s.parent_i ≡ p)
unfolding parent_step
stuck_of_IsAlone p s h l f e = ground arith

-- With fewer than three tokens in its semaphore, a process whose `fork` failed hangs: where it can take
-- no step, and no `sem_wait` has failed, it waits for a token that nobody posts, after as many rounds as
-- there were tokens.
pub fork_failure_hangs :
    {c p n : ℕ} {s : State}
    → p ≤ 2
    → Steps (no_child c p) n s
    → s.parent_faults ≡ 0
    → parent_step s ≡ none
    → (s.parent ≡ ParentPc.wait) × (s.parent_sem ≡ 0) × (s.parent_i ≡ p)
fork_failure_hangs {c} {p} {n} {s} l r = stuck_of_IsAlone p s (Steps-IsAlone r) l
