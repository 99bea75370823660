-- ===== src/ForkedChild.antt =====
-- 03-twoprocs/main.cpp: the turns of parent and child as main.c has them, with a `sem_wait` that throws
-- when it fails. A parent that unwinds still waits for the child, in the destructor of `forked_child`;
-- a child that unwinds has no process to wait for, and ends. One step of a process is one call on a
-- semaphore, or `waitpid`; the semaphores are closed as the process ends, and their names are never
-- unlinked. `sem_open` takes a semaphore of that name as it finds it, so the first values are
-- parameters. NoChild has a `fork` that fails; a failure of
-- `sem_open` or `sem_post` is not modelled.
pub mod Ends
pub mod NoChild
mod Tests
use ucb_rtes.Base.{ℕ, zero, suc, ◌+◌, ◌≡◌, Option, none, some, ltb, if◌then◌else◌}

-- Where the parent stands: in front of the call named, or in the `waitpid` of the destructor.
pub data ParentPc : Type 0 where
  post wait clear unwind gone : ParentPc

pub data ChildPc : Type 0 where
  wait post gone : ChildPc

pub record State : Type 0 where
  pub child_sem : ℕ
  pub parent_sem : ℕ
  pub parent : ParentPc
  pub parent_i : ℕ
  pub child : ChildPc
  pub child_i : ℕ
  -- how many calls of `sem_wait` have failed
  pub parent_faults : ℕ
  pub child_faults : ℕ

-- The two processes after `fork`.
abbrev pub init : ℕ → ℕ → State
init c p = record {
  child_sem = c;
  parent_sem = p;
  parent = ParentPc.post;
  parent_i = 0;
  child = ChildPc.wait;
  child_i = 0;
  parent_faults = 0;
  child_faults = 0;
}

parent_take : ℕ → State → Option State
parent_take zero s = none
parent_take (suc n) s = some (record s {
  parent_sem = n;
  parent_i = s.parent_i + 1;
  parent = if ltb (s.parent_i + 1) 3 then ParentPc.post else ParentPc.clear;
})

-- `waitpid`: it blocks until the child is gone.
waitpid : ChildPc → State → Option State
waitpid ChildPc.gone s = some (record s { parent = ParentPc.gone })
waitpid _ s = none

parent_at : ParentPc → State → Option State
unfolding parent_take waitpid
parent_at ParentPc.post s = some (record s { child_sem = s.child_sem + 1; parent = ParentPc.wait })
parent_at ParentPc.wait s = parent_take s.parent_sem s
parent_at ParentPc.clear s = waitpid s.child s
parent_at ParentPc.unwind s = waitpid s.child s
parent_at ParentPc.gone s = none

-- The parent's next step; `none` when it is blocked or gone.
pub parent_step : State → Option State
unfolding parent_at
parent_step s = parent_at s.parent s

child_take : ℕ → State → Option State
child_take zero s = none
child_take (suc n) s = some (record s { child_sem = n; child = ChildPc.post })

child_at : ChildPc → State → Option State
unfolding child_take
child_at ChildPc.wait s = child_take s.child_sem s
child_at ChildPc.post s = some (record s {
  parent_sem = s.parent_sem + 1;
  child_i = s.child_i + 1;
  child = if ltb (s.child_i + 1) 3 then ChildPc.wait else ChildPc.gone;
})
child_at ChildPc.gone s = none

pub child_step : State → Option State
unfolding child_at
child_step s = child_at s.child s

-- `sem_wait` fails, and the process unwinds.
parent_throws_at : ParentPc → State → Option State
parent_throws_at ParentPc.wait s =
    some (record s { parent_faults = s.parent_faults + 1; parent = ParentPc.unwind })
parent_throws_at _ s = none

pub parent_throw : State → Option State
unfolding parent_throws_at
parent_throw s = parent_throws_at s.parent s

child_throws_at : ChildPc → State → Option State
child_throws_at ChildPc.wait s =
    some (record s { child_faults = s.child_faults + 1; child = ChildPc.gone })
child_throws_at _ s = none

pub child_throw : State → Option State
unfolding child_throws_at
child_throw s = child_throws_at s.child s

pub data Step (s : State) : State → Type 0 where
  parent_moves : {t : State} → parent_step s ≡ some t → Step s t
  child_moves : {t : State} → child_step s ≡ some t → Step s t
  parent_throws : {t : State} → parent_throw s ≡ some t → Step s t
  child_throws : {t : State} → child_throw s ≡ some t → Step s t

-- Runs of n steps.
pub data Steps (s : State) : ℕ → State → Type 0 where
  here : Steps s 0 s
  next : {n : ℕ} {t u : State} → Steps s n t → Step t u → Steps s (suc n) u
