-- ===== src/Xpto/Thread/Caller.antt =====
-- thread.hpp: what the constructor does to the process that calls it, by
-- `sched_setscheduler(getpid(), …)`.
use ucb_rtes.Base.{
  ℕ, zero, suc, ◌≡◌, refl, true, Option, none, some, List, [], ◌∷◌, ◌++◌, arith, if◌then◌else◌,
}
use ucb_rtes.Base.Int.{ℤ}
use ucb_rtes.Posix.{Policy}
use ucb_rtes.Xpto.Scheduler.{Process}
use ucb_rtes.Xpto.Thread.{
  Attributes, Call, attr_init, attr_destroy, setinheritsched, create, setaffinity, setstacksize,
  setschedpolicy, setscheduler, setschedparam, setname, Statement, checked, System, succeeds,
  perform, affinity_part, stack_part, policy_part, name_part, prio_of, body, thread_model,
}

-- The process behind some calls.
unfoldable pub process_after : System → Process → List Call → Process
process_after sys now [] = now
process_after sys now (setscheduler p n ∷ r) =
    let now' =
      if succeeds sys (setscheduler p n) then record { policy = p; sched_priority = n } else now in
    process_after sys now' r
process_after sys now (_ ∷ r) = process_after sys now r

-- What the process gets from the attributes of the thread.
abbrev pub as_thread : System → Option Policy → Option ℤ → Process → Process
as_thread sys none prio now = now
as_thread sys (some p) prio now = record { policy = p; sched_priority = prio_of sys p prio }

Leads : System → Process → Process → List Statement → Type 0
Leads sys x now r = (perform sys r).ok ≡ true → process_after sys now (perform sys r).calls ≡ x

module _ (sys : System) (x now : Process) where
  name_part-process : (n : ℕ) → Leads sys now now (checked create ∷ name_part n)
  unfolding Leads process_after perform name_part
  name_part-process zero h = ground arith
  name_part-process (suc n) h = ground arith

  stack_part-process :
      (size : Option ℕ) (r : List Statement)
      → Leads sys x now r
      → Leads sys x now (stack_part size r)
  unfolding Leads process_after perform stack_part
  stack_part-process none r h s = h s
  stack_part-process (some n) r h s = ground arith

  policy_part-process :
      (policy : Option Policy) (prio : Option ℤ) (r : List Statement)
      → Leads sys x (as_thread sys policy prio now) r
      → Leads sys x now (policy_part sys policy prio r)
  unfolding Leads process_after perform policy_part
  policy_part-process none prio r h s = h s
  policy_part-process (some p) prio r h s = ground arith

  affinity_part-process :
      (cores : List ℕ) (r : List Statement)
      → Leads sys x now r
      → Leads sys x now (affinity_part cores r)
  unfolding Leads process_after perform affinity_part
  affinity_part-process [] r h s = h s
  affinity_part-process (c ∷ cs) r h s = ground arith

body-process :
    (sys : System) (a : Attributes) (now : Process)
    → Leads sys (as_thread sys a.policy a.prio now) now (body sys a)
unfolding body
body-process sys a now = affinity_part-process sys _ now a.affinity _ (
    stack_part-process sys _ now a.stack_size _
      (policy_part-process sys _ now a.policy a.prio _ (name_part-process sys now _ a.name_size)))

process_after-destroy :
    (sys : System) (cs : List Call) (now : Process)
    → process_after sys now (cs ++ (attr_destroy ∷ [])) ≡ process_after sys now cs
unfolding process_after
process_after-destroy sys [] now = refl
process_after-destroy sys (attr_init ∷ cs) now = process_after-destroy sys cs _
process_after-destroy sys (attr_destroy ∷ cs) now = process_after-destroy sys cs _
process_after-destroy sys (setinheritsched ∷ cs) now = process_after-destroy sys cs _
process_after-destroy sys (create ∷ cs) now = process_after-destroy sys cs _
process_after-destroy sys (setaffinity l ∷ cs) now = process_after-destroy sys cs _
process_after-destroy sys (setstacksize n ∷ cs) now = process_after-destroy sys cs _
process_after-destroy sys (setschedpolicy p ∷ cs) now = process_after-destroy sys cs _
process_after-destroy sys (setscheduler p n ∷ cs) now = process_after-destroy sys cs _
process_after-destroy sys (setschedparam n ∷ cs) now = process_after-destroy sys cs _
process_after-destroy sys (setname ∷ cs) now = process_after-destroy sys cs _

-- Where the constructor returns, the process that called it has taken the policy and the priority of
-- the new thread, if there is a policy among the attributes.
pub process_after-thread_model :
    (sys : System) (a : Attributes) (now : Process)
    → (thread_model sys a).ok ≡ true
    → process_after sys now (thread_model sys a).calls ≡ as_thread sys a.policy a.prio now
unfolding thread_model process_after Leads
process_after-thread_model sys a now h =
    let cs = (perform sys (body sys a)).calls in
    ground (arith, body-process sys a now, process_after-destroy sys cs now)
