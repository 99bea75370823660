-- ===== src/TwoProcs/Turns.antt =====
-- The invariant of the two processes, and their turns.
use ucb_rtes.Base.{zero, ◌≢◌, suc, refl, some, ℕ, ◌+◌, ◌<◌, ◌≤◌, ◌≡◌, ◌⊎◌, true, false, some, arith}
use ucb_rtes.TwoProcs.{
  ParentPc, ChildPc, State, init, parent_step, child_step, parent_fault, child_fault, Step,
  parent_moves, child_moves, parent_fails, child_fails, Steps, here, next,
}

-- What a process has done beyond its finished rounds: a post of the parent, a wait of the child.
abbrev parent_ahead : ParentPc → ℕ
parent_ahead ParentPc.wait = 1
parent_ahead _ = 0

abbrev child_ahead : ChildPc → ℕ
child_ahead ChildPc.post = 1
child_ahead _ = 0

abbrev ParentLoop : ParentPc → ℕ → Type 0
ParentLoop ParentPc.post i = i < 3
ParentLoop ParentPc.wait i = i < 3
ParentLoop _ i = i ≡ 3

abbrev ChildLoop : ChildPc → ℕ → Type 0
ChildLoop ChildPc.wait i = i < 3
ChildLoop ChildPc.post i = i < 3
ChildLoop _ i = i ≡ 3

-- Behind its `wait` the parent knows that the child is gone.
abbrev Joined : ParentPc → ChildPc → Type 0
Joined ParentPc.post c = Unit
Joined ParentPc.wait c = Unit
Joined ParentPc.join c = Unit
Joined _ c = c ≡ ChildPc.gone

abbrev Linked : ParentPc → State → Type 0
Linked ParentPc.unlink_p s = (s.linked_c ≡ false) × (s.linked_p ≡ true)
Linked ParentPc.gone s = (s.linked_c ≡ false) × (s.linked_p ≡ false)
Linked _ s = (s.linked_c ≡ true) × (s.linked_p ≡ true)

pub record Inv (c p : ℕ) (s : State) : Type 0 where
  pub parent_loop : ParentLoop s.parent s.parent_i
  pub child_loop : ChildLoop s.child s.child_i
  pub joined : Joined s.parent s.child
  pub linked : Linked s.parent s
  -- Posts made, and waits that have returned with the semaphore.
  pub tokens_c :
      s.sync_sem_c + s.child_i + child_ahead s.child
      ≡ c + s.parent_i + parent_ahead s.parent + s.child_faults
  pub tokens_p : s.sync_sem_p + s.parent_i ≡ p + s.child_i + s.parent_faults

module _ (c p : ℕ) (s t : State) where
  parent_step-Inv : parent_step s ≡ some t → Inv c p s → Inv c p t
  unfolding parent_step
  parent_step-Inv e h = ground arith

  child_step-Inv : child_step s ≡ some t → Inv c p s → Inv c p t
  unfolding child_step
  child_step-Inv e h = ground arith

  parent_fault-Inv : parent_fault s ≡ some t → Inv c p s → Inv c p t
  unfolding parent_fault
  parent_fault-Inv e h = ground arith

  child_fault-Inv : child_fault s ≡ some t → Inv c p s → Inv c p t
  unfolding child_fault
  child_fault-Inv e h = ground arith

Step-Inv : {c p : ℕ} {s t : State} → Step s t → Inv c p s → Inv c p t
Step-Inv (parent_moves e) = parent_step-Inv _ _ _ _ e
Step-Inv (child_moves e) = child_step-Inv _ _ _ _ e
Step-Inv (parent_fails e) = parent_fault-Inv _ _ _ _ e
Step-Inv (child_fails e) = child_fault-Inv _ _ _ _ e

pub Steps-Inv : {c p n : ℕ} {s : State} → Steps (init c p) n s → Inv c p s
Steps-Inv here = ground arith
Steps-Inv (next r st) = Step-Inv st (Steps-Inv r)

-- With both semaphores new, and while no `sem_wait` has failed, the processes take turns: the child has
-- finished as many rounds as the parent, or one more, and both are never beyond their three rounds.
pub turns :
    {n : ℕ} {s : State}
    → Steps (init 0 0) n s
    → s.parent_faults ≡ 0
    → s.child_faults ≡ 0
    → (s.parent_i ≤ s.child_i) × (s.child_i ≤ s.parent_i + 1) × (s.child_i ≤ 3)
turns r p q = let h = Steps-Inv r in ground (arith, h)

-- With both semaphores new, a run that has ended with no failed `sem_wait` leaves both at 0.
pub semaphores_drained :
    {n : ℕ} {s : State}
    → Steps (init 0 0) n s
    → s.parent_faults ≡ 0
    → s.child_faults ≡ 0
    → s.parent ≡ ParentPc.gone
    → (s.sync_sem_c ≡ 0) × (s.sync_sem_p ≡ 0)
semaphores_drained r p q g = let h = Steps-Inv r in ground (arith, h)

-- Whatever the first values and the failures, a name is unlinked only when the child is gone, and when
-- the parent is gone both names are unlinked.
pub unlinked_last :
    {c p n : ℕ} {s : State}
    → Steps (init c p) n s
    → ((s.linked_c ≡ true) ⊎ (s.child ≡ ChildPc.gone))
      × ((s.linked_p ≡ true) ⊎ (s.child ≡ ChildPc.gone))
      × ((s.parent ≢ ParentPc.gone) ⊎ ((s.linked_c ≡ false) × (s.linked_p ≡ false)))
unlinked_last r = let h = Steps-Inv r in ground (arith, h)

-- A stale semaphore breaks the turns: if `sem_open` finds /twoprocCsync with three posts or more left in
-- it, the child can finish its three rounds before the parent has done anything, with no failed call.
pub stale_breaks_turns :
    (c : ℕ)
    → 3 ≤ c
    → (n : ℕ) × (s : State) × Steps (init c 0) n s
      × (s.child_i ≡ 3)
      × (s.parent_i ≡ 0)
      × (s.parent ≡ ParentPc.post)
      × (s.child_faults ≡ 0)
unfolding child_step
stale_breaks_turns zero h = absurd (omega arith)
stale_breaks_turns (suc zero) h = absurd (omega arith)
stale_breaks_turns (suc (suc zero)) h = absurd (omega arith)
stale_breaks_turns (suc (suc (suc c))) h = (
  6,
  _,
  next
      (next
        (next (next (next (next here (child_moves refl)) (child_moves refl)) (child_moves refl))
          (child_moves refl))
        (child_moves refl))
      (child_moves refl),
  refl,
  refl,
  refl,
  refl,
)
