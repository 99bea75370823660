-- ===== src/ForkedChild/Ends.antt =====
-- How the two processes of 03-twoprocs/main.cpp end, or do not.
use ucb_rtes.Base.{ℕ, ◌+◌, ◌-◌, ◌*◌, ◌<◌, ◌≤◌, ◌≡◌, ◌≢◌, ◌⊎◌, none, some, arith}
use ucb_rtes.ForkedChild.{
  ParentPc, ChildPc, State, init, parent_step, child_step, parent_throw, child_throw, Step,
  parent_moves, child_moves, parent_throws, child_throws, Steps, here, next,
}

-- Posts that a process has made beyond its finished rounds.
abbrev parent_ahead : ParentPc → ℕ
parent_ahead ParentPc.wait = 1
parent_ahead ParentPc.unwind = 1
parent_ahead _ = 0

abbrev child_ahead : ChildPc → ℕ
child_ahead ChildPc.post = 1
child_ahead _ = 0

abbrev ParentLoop : ParentPc → State → Type 0
ParentLoop ParentPc.post s = (s.parent_i < 3) × (s.parent_faults ≡ 0)
ParentLoop ParentPc.wait s = (s.parent_i < 3) × (s.parent_faults ≡ 0)
ParentLoop ParentPc.clear s = (s.parent_i ≡ 3) × (s.parent_faults ≡ 0)
ParentLoop ParentPc.unwind s = (s.parent_i < 3) × (s.parent_faults ≡ 1)
ParentLoop ParentPc.gone s =
    (s.child ≡ ChildPc.gone)
    × (((s.parent_i ≡ 3) × (s.parent_faults ≡ 0)) ⊎ ((s.parent_i < 3) × (s.parent_faults ≡ 1)))

abbrev ChildLoop : ChildPc → State → Type 0
ChildLoop ChildPc.wait s = (s.child_i < 3) × (s.child_faults ≡ 0)
ChildLoop ChildPc.post s = (s.child_i < 3) × (s.child_faults ≡ 0)
ChildLoop ChildPc.gone s =
    ((s.child_i ≡ 3) × (s.child_faults ≡ 0)) ⊎ ((s.child_i < 3) × (s.child_faults ≡ 1))

pub record Inv (c p : ℕ) (s : State) : Type 0 where
  pub parent_loop : ParentLoop s.parent s
  pub child_loop : ChildLoop s.child s
  -- Posts made, and waits that have returned.
  pub tokens_c :
      (s.parent ≡ ParentPc.gone)
      ⊎ (s.child_sem + s.child_i + child_ahead s.child ≡ c + s.parent_i + parent_ahead s.parent)
  pub tokens_c_gone :
      (s.parent ≢ ParentPc.gone)
      ⊎ (s.child_sem + s.child_i + child_ahead s.child ≡ c + s.parent_i + s.parent_faults)
  pub tokens_p : s.parent_sem + s.parent_i ≡ p + s.child_i

module _ (c p : ℕ) (s t : State) where
  parent_step-Inv : parent_step s ≡ some t → Inv c p s → Inv c p t
  unfolding parent_step
  parent_step-Inv e h = ground arith

  child_step-Inv : child_step s ≡ some t → Inv c p s → Inv c p t
  unfolding child_step
  child_step-Inv e h = ground arith

  parent_throw-Inv : parent_throw s ≡ some t → Inv c p s → Inv c p t
  unfolding parent_throw
  parent_throw-Inv e h = ground arith

  child_throw-Inv : child_throw s ≡ some t → Inv c p s → Inv c p t
  unfolding child_throw
  child_throw-Inv e h = ground arith

Step-Inv : {c p : ℕ} {s t : State} → Step s t → Inv c p s → Inv c p t
Step-Inv (parent_moves e) = parent_step-Inv _ _ _ _ e
Step-Inv (child_moves e) = child_step-Inv _ _ _ _ e
Step-Inv (parent_throws e) = parent_throw-Inv _ _ _ _ e
Step-Inv (child_throws e) = child_throw-Inv _ _ _ _ e

Steps-Inv : {c p n : ℕ} {s : State} → Steps (init c p) n s → Inv c p s
Steps-Inv here = ground arith
Steps-Inv (next r st) = Step-Inv st (Steps-Inv r)

stuck_of_Inv :
    (s : State)
    → Inv 0 0 s
    → parent_step s ≡ none
    → child_step s ≡ none
    → ((s.parent ≡ ParentPc.gone) × (s.child ≡ ChildPc.gone))
      ⊎ ((s.parent ≡ ParentPc.unwind)
          × (s.child ≡ ChildPc.wait)
          × (s.parent_faults ≡ 1)
          × (s.child_i ≡ s.parent_i + 1)
          × (s.child_i < 3))
      ⊎ ((s.parent ≡ ParentPc.wait)
          × (s.child ≡ ChildPc.gone)
          × (s.child_faults ≡ 1)
          × (s.child_i ≡ s.parent_i))
unfolding parent_step child_step
stuck_of_Inv s h e f = ground arith

-- With both semaphores new: a state in which neither process can take a step of its own is one where
-- both have ended; or one where the parent's `sem_wait` failed before the last round, so that it waits
-- in the destructor for a child that waits for the next post; or one where the child's `sem_wait`
-- failed, so that it ended and the parent waits for a post that does not come.
pub stuck_cases :
    {n : ℕ} {s : State}
    → Steps (init 0 0) n s
    → parent_step s ≡ none
    → child_step s ≡ none
    → ((s.parent ≡ ParentPc.gone) × (s.child ≡ ChildPc.gone))
      ⊎ ((s.parent ≡ ParentPc.unwind)
          × (s.child ≡ ChildPc.wait)
          × (s.parent_faults ≡ 1)
          × (s.child_i ≡ s.parent_i + 1)
          × (s.child_i < 3))
      ⊎ ((s.parent ≡ ParentPc.wait)
          × (s.child ≡ ChildPc.gone)
          × (s.child_faults ≡ 1)
          × (s.child_i ≡ s.parent_i))
stuck_cases r = stuck_of_Inv _ (Steps-Inv r)

no_fault_of_Inv :
    (c p : ℕ) (s : State)
    → Inv c p s
    → s.parent_faults ≡ 0
    → s.child_faults ≡ 0
    → parent_step s ≡ none
    → child_step s ≡ none
    → (s.parent ≡ ParentPc.gone)
      × (s.child ≡ ChildPc.gone)
      × (s.parent_i ≡ 3)
      × (s.child_i ≡ 3)
      × (s.child_sem ≡ c)
      × (s.parent_sem ≡ p)
unfolding parent_step child_step
no_fault_of_Inv c p s h a b e f = ground arith

-- Whatever the first values of the semaphores: if no `sem_wait` has failed and neither process can
-- take a step, both have ended after three rounds, and the semaphores, whose names stay, hold their
-- first values again.
pub no_fault_ends :
    {c p n : ℕ} {s : State}
    → Steps (init c p) n s
    → s.parent_faults ≡ 0
    → s.child_faults ≡ 0
    → parent_step s ≡ none
    → child_step s ≡ none
    → (s.parent ≡ ParentPc.gone)
      × (s.child ≡ ChildPc.gone)
      × (s.parent_i ≡ 3)
      × (s.child_i ≡ 3)
      × (s.child_sem ≡ c)
      × (s.parent_sem ≡ p)
no_fault_ends {c} {p} {s} r = no_fault_of_Inv c p s (Steps-Inv r)

-- Steps that a process has still to make at most.
abbrev parent_left : ParentPc → ℕ → ℕ
parent_left ParentPc.post i = 1 + 2 * (3 - i)
parent_left ParentPc.wait i = 2 * (3 - i)
parent_left ParentPc.clear i = 1
parent_left ParentPc.unwind i = 1
parent_left ParentPc.gone i = 0

abbrev child_left : ChildPc → ℕ → ℕ
child_left ChildPc.wait i = 2 * (3 - i)
child_left ChildPc.post i = 2 * (3 - i) - 1
child_left ChildPc.gone i = 0

abbrev left : State → ℕ
left s = parent_left s.parent s.parent_i + child_left s.child s.child_i

module _ (c p : ℕ) (s t : State) (h : Inv c p s) where
  parent_step-left : parent_step s ≡ some t → left t < left s
  unfolding parent_step
  parent_step-left e = ground arith

  child_step-left : child_step s ≡ some t → left t < left s
  unfolding child_step
  child_step-left e = ground arith

  parent_throw-left : parent_throw s ≡ some t → left t < left s
  unfolding parent_throw
  parent_throw-left e = ground arith

  child_throw-left : child_throw s ≡ some t → left t < left s
  unfolding child_throw
  child_throw-left e = ground arith

Step-left : (c p : ℕ) {s t : State} → Inv c p s → Step s t → left t < left s
Step-left c p h (parent_moves e) = parent_step-left c p _ _ h e
Step-left c p h (child_moves e) = child_step-left c p _ _ h e
Step-left c p h (parent_throws e) = parent_throw-left c p _ _ h e
Step-left c p h (child_throws e) = child_throw-left c p _ _ h e

Steps-left : {c p n : ℕ} {s : State} → Steps (init c p) n s → n + left s ≤ 13
Steps-left here = omega arith
Steps-left {c} {p} (next r st) = omega (arith, Steps-left r, Step-left c p (Steps-Inv r) st)

-- Whatever the first values, the interleaving and the failures, a run has 13 steps at most.
pub run_bounded : {c p n : ℕ} {s : State} → Steps (init c p) n s → n ≤ 13
run_bounded r = omega (arith, Steps-left r)
