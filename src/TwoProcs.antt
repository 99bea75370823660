-- ===== src/TwoProcs.antt =====
-- 03-twoprocs/main.c: a parent and the child that it forks take turns, three rounds, by two named
-- semaphores; the parent waits for the child, then closes and unlinks.
-- One step of a process is one call on a semaphore, or `wait`, `exit`. A `sem_wait` can also fail
-- (EINTR): the program prints that and goes on as if it had the semaphore. `sem_open` with O_CREAT
-- takes a semaphore of that name as it finds it, so the first values are parameters.
pub mod Turns
pub mod Ends
mod Tests
use ucb_rtes.Base.{
  ℕ, zero, suc, ◌+◌, ◌≡◌, Bool, true, false, Option, none, some, ltb, if◌then◌else◌,
}

-- Where the parent stands: in front of the call named. It has called `exit` when `gone`.
pub data ParentPc : Type 0 where
  post wait join close_c close_p unlink_c unlink_p gone : ParentPc

pub data ChildPc : Type 0 where
  wait post close_p close_c gone : ChildPc

pub record State : Type 0 where
  pub sync_sem_c : ℕ
  pub sync_sem_p : ℕ
  pub linked_c : Bool
  pub linked_p : Bool
  pub parent : ParentPc
  pub parent_i : ℕ
  pub child : ChildPc
  pub child_i : ℕ
  -- how many calls of `sem_wait` have failed
  pub parent_faults : ℕ
  pub child_faults : ℕ

-- The two processes after `fork`.
abbrev pub init : ℕ → ℕ → State
init c p = record {
  sync_sem_c = c;
  sync_sem_p = p;
  linked_c = true;
  linked_p = true;
  parent = ParentPc.post;
  parent_i = 0;
  child = ChildPc.wait;
  child_i = 0;
  parent_faults = 0;
  child_faults = 0;
}

-- `i++` and the test of the parent's loop.
abbrev parent_round : State → State
parent_round s = record s {
  parent_i = s.parent_i + 1;
  parent = if ltb (s.parent_i + 1) 3 then ParentPc.post else ParentPc.join;
}

parent_take : ℕ → State → Option State
parent_take zero s = none
parent_take (suc n) s = some (parent_round (record s { sync_sem_p = n }))

parent_wait : ChildPc → State → Option State
parent_wait ChildPc.gone s = some (record s { parent = ParentPc.close_c })
parent_wait _ s = none

parent_at : ParentPc → State → Option State
unfolding parent_take parent_wait
parent_at ParentPc.post s =
    some (record s { sync_sem_c = s.sync_sem_c + 1; parent = ParentPc.wait })
parent_at ParentPc.wait s = parent_take s.sync_sem_p s
parent_at ParentPc.join s = parent_wait s.child s
parent_at ParentPc.close_c s = some (record s { parent = ParentPc.close_p })
parent_at ParentPc.close_p s = some (record s { parent = ParentPc.unlink_c })
parent_at ParentPc.unlink_c s = some (record s { linked_c = false; parent = ParentPc.unlink_p })
parent_at ParentPc.unlink_p s = some (record s { linked_p = false; parent = ParentPc.gone })
parent_at ParentPc.gone s = none

-- The parent's next step; `none` when it is blocked or gone.
pub parent_step : State → Option State
unfolding parent_at
parent_step s = parent_at s.parent s

-- `i++` and the test of the child's loop.
abbrev child_round : State → State
child_round s = record s {
  child_i = s.child_i + 1;
  child = if ltb (s.child_i + 1) 3 then ChildPc.wait else ChildPc.close_p;
}

child_take : ℕ → State → Option State
child_take zero s = none
child_take (suc n) s = some (record s { sync_sem_c = n; child = ChildPc.post })

child_at : ChildPc → State → Option State
unfolding child_take
child_at ChildPc.wait s = child_take s.sync_sem_c s
child_at ChildPc.post s = some (child_round (record s { sync_sem_p = s.sync_sem_p + 1 }))
child_at ChildPc.close_p s = some (record s { child = ChildPc.close_c })
child_at ChildPc.close_c s = some (record s { child = ChildPc.gone })
child_at ChildPc.gone s = none

pub child_step : State → Option State
unfolding child_at
child_step s = child_at s.child s

-- `sem_wait` fails: `perror`, and on.
parent_fails_at : ParentPc → State → Option State
parent_fails_at ParentPc.wait s =
    some (parent_round (record s { parent_faults = s.parent_faults + 1 }))
parent_fails_at _ s = none

pub parent_fault : State → Option State
unfolding parent_fails_at
parent_fault s = parent_fails_at s.parent s

child_fails_at : ChildPc → State → Option State
child_fails_at ChildPc.wait s =
    some (record s { child_faults = s.child_faults + 1; child = ChildPc.post })
child_fails_at _ s = none

pub child_fault : State → Option State
unfolding child_fails_at
child_fault s = child_fails_at s.child s

pub data Step (s : State) : State → Type 0 where
  parent_moves : {t : State} → parent_step s ≡ some t → Step s t
  child_moves : {t : State} → child_step s ≡ some t → Step s t
  parent_fails : {t : State} → parent_fault s ≡ some t → Step s t
  child_fails : {t : State} → child_fault s ≡ some t → Step s t

-- Runs of n steps.
pub data Steps (s : State) : ℕ → State → Type 0 where
  here : Steps s 0 s
  next : {n : ℕ} {t u : State} → Steps s n t → Step t u → Steps s (suc n) u
