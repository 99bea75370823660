-- ===== src/Xpto/Thread/Effect.antt =====
-- thread.hpp: the attributes that a thread is created with, and how often they are destroyed.
use ucb_rtes.Base.{ℕ, suc, ◌≡◌, true, Option, none, some, List, [], ◌∷◌, ◌++◌, arith, if◌then◌else◌}
use ucb_rtes.Base.Int.{ℤ}
use ucb_rtes.Posix.{Policy, Attr, Created}
use ucb_rtes.Xpto.Thread.Lifecycle.{is_started-destroy}
use ucb_rtes.Xpto.Thread.{
  Attributes, Call, attr_init, attr_destroy, setinheritsched, create, setaffinity, setstacksize,
  setschedpolicy, setscheduler, setschedparam, setname, Statement, checked, System, succeeds,
  perform, affinity_part, stack_part, policy_part, name_part, prio_of, body, thread_model,
  is_started,
}

-- How often the attributes are destroyed.
pub destroys : List Call → ℕ
destroys [] = 0
destroys (attr_destroy ∷ r) = suc (destroys r)
destroys (_ ∷ r) = destroys r

-- The attributes that the thread is created with, after some calls: a call that fails changes nothing.
-- A set of cores other than one core is not expressed in an `Attr`.
abbrev pub only_core : List ℕ → Option ℕ
only_core (c ∷ []) = some c
only_core _ = none

unfoldable pub attr_at_create : System → Attr → List Call → Option Attr
attr_at_create sys d [] = none
attr_at_create sys d (create ∷ r) = some d
attr_at_create sys d (setinheritsched ∷ r) =
    let d' = if succeeds sys setinheritsched then record d { explicit_sched = true } else d in
    attr_at_create sys d' r
attr_at_create sys d (setschedpolicy p ∷ r) =
    attr_at_create sys (if succeeds sys (setschedpolicy p) then record d { policy = p } else d) r
attr_at_create sys d (setschedparam n ∷ r) =
    let d' = if succeeds sys (setschedparam n) then record d { sched_priority = n } else d in
    attr_at_create sys d' r
attr_at_create sys d (setaffinity [] ∷ r) = none
attr_at_create sys d (setaffinity (c ∷ []) ∷ r) =
    let d' = if succeeds sys (setaffinity (c ∷ [])) then record d { core = some c } else d in
    attr_at_create sys d' r
attr_at_create sys d (setaffinity (c ∷ c' ∷ cs) ∷ r) = none
attr_at_create sys d (attr_init ∷ r) = attr_at_create sys d r
attr_at_create sys d (attr_destroy ∷ r) = attr_at_create sys d r
attr_at_create sys d (setstacksize n ∷ r) = attr_at_create sys d r
attr_at_create sys d (setscheduler p n ∷ r) = attr_at_create sys d r
attr_at_create sys d (setname ∷ r) = attr_at_create sys d r

-- At most one core is named.
abbrev pub IsSingle : List ℕ → Type 0
IsSingle [] = Unit
IsSingle (c ∷ []) = Unit
IsSingle (c ∷ c' ∷ cs) = ⊥

-- The calls whose results the constructor does not look at succeed.
abbrev pub IsAccepted : System → Option Policy → Option ℤ → Type 0
IsAccepted sys none prio = Unit
IsAccepted sys (some p) prio =
    (succeeds sys setinheritsched ≡ true)
    × (succeeds sys (setschedpolicy p) ≡ true)
    × (succeeds sys (setschedparam (prio_of sys p prio)) ≡ true)

abbrev pub with_affinity : List ℕ → Attr → Attr
with_affinity [] d = d
with_affinity (c ∷ cs) d = record d { core = only_core (c ∷ cs) }

abbrev pub with_policy : System → Option Policy → Option ℤ → Attr → Attr
with_policy sys none prio d = d
with_policy sys (some p) prio d = record d {
  explicit_sched = true;
  policy = p;
  sched_priority = prio_of sys p prio;
}

-- What the object asks for, on top of what the system gives by default.
abbrev pub requested : System → Attributes → Attr → Attr
requested sys a d = with_policy sys a.policy a.prio (with_affinity a.affinity d)

name_part-attr :
    (sys : System) (n : ℕ) (d : Attr)
    → attr_at_create sys d (perform sys (checked create ∷ name_part n)).calls ≡ some d
unfolding attr_at_create perform
name_part-attr sys n d = ground arith

Leads : System → Attr → Attr → List Statement → Type 0
Leads sys x d r =
    is_started sys (perform sys r).calls ≡ true
    → attr_at_create sys d (perform sys r).calls ≡ some x

module _ (sys : System) (x d : Attr) where
  stack_part-attr :
      (size : Option ℕ) (r : List Statement) → Leads sys x d r → Leads sys x d (stack_part size r)
  unfolding Leads attr_at_create perform stack_part is_started
  stack_part-attr none r h s = h s
  stack_part-attr (some n) r h s = ground arith

  policy_part-attr :
      (policy : Option Policy) (prio : Option ℤ) (r : List Statement)
      → IsAccepted sys policy prio
      → Leads sys x (with_policy sys policy prio d) r
      → Leads sys x d (policy_part sys policy prio r)
  unfolding Leads attr_at_create perform policy_part is_started
  policy_part-attr none prio r acc h s = h s
  policy_part-attr (some p) prio r acc h s = ground arith

  affinity_part-attr :
      (cores : List ℕ) (r : List Statement)
      → IsSingle cores
      → Leads sys x (with_affinity cores d) r
      → Leads sys x d (affinity_part cores r)
  unfolding Leads attr_at_create perform affinity_part is_started
  affinity_part-attr [] r one h s = h s
  affinity_part-attr (c ∷ []) r one h s = ground arith
  affinity_part-attr (c ∷ c' ∷ cs) r one h s = absurd one

body-attr :
    (sys : System) (a : Attributes) (d : Attr)
    → IsSingle a.affinity
    → IsAccepted sys a.policy a.prio
    → Leads sys (requested sys a d) d (body sys a)
unfolding Leads body
body-attr sys a d one acc = affinity_part-attr sys _ d a.affinity _ one (
    stack_part-attr sys _ _ a.stack_size _
      (policy_part-attr sys _ _ a.policy a.prio _ acc (λ _. name_part-attr sys a.name_size _)))

attr_at_create-append :
    (sys : System) (cs : List Call) (d x : Attr)
    → attr_at_create sys d cs ≡ some x
    → attr_at_create sys d (cs ++ (attr_destroy ∷ [])) ≡ some x
unfolding attr_at_create
attr_at_create-append sys [] d x h = ground arith
attr_at_create-append sys (attr_init ∷ cs) d x h = attr_at_create-append sys cs _ x h
attr_at_create-append sys (attr_destroy ∷ cs) d x h = attr_at_create-append sys cs _ x h
attr_at_create-append sys (setinheritsched ∷ cs) d x h = attr_at_create-append sys cs _ x h
attr_at_create-append sys (create ∷ cs) d x h = h
attr_at_create-append sys (setaffinity [] ∷ cs) d x h = ground arith
attr_at_create-append sys (setaffinity (c ∷ []) ∷ cs) d x h = attr_at_create-append sys cs _ x h
attr_at_create-append sys (setaffinity (c ∷ c' ∷ l) ∷ cs) d x h = ground arith
attr_at_create-append sys (setstacksize n ∷ cs) d x h = attr_at_create-append sys cs _ x h
attr_at_create-append sys (setschedpolicy p ∷ cs) d x h = attr_at_create-append sys cs _ x h
attr_at_create-append sys (setscheduler p n ∷ cs) d x h = attr_at_create-append sys cs _ x h
attr_at_create-append sys (setschedparam n ∷ cs) d x h = attr_at_create-append sys cs _ x h
attr_at_create-append sys (setname ∷ cs) d x h = attr_at_create-append sys cs _ x h

pub attr_at_create-thread_model :
    (sys : System) (a : Attributes) (d : Attr)
    → IsSingle a.affinity
    → IsAccepted sys a.policy a.prio
    → is_started sys (thread_model sys a).calls ≡ true
    → attr_at_create sys d (thread_model sys a).calls ≡ some (requested sys a d)
unfolding thread_model attr_at_create is_started Leads
attr_at_create-thread_model sys a d one acc h =
    let cs = (perform sys (body sys a)).calls in
    ground (
      arith,
      body-attr sys a d one acc,
      attr_at_create-append sys cs d (requested sys a d),
      is_started-destroy sys cs,
    )

-- Indices and attributes of the threads that are made one after the other.
abbrev pub with_attr : System → Attr → List (ℕ × Attributes) → List (ℕ × Option Attr)
with_attr sys d [] = []
with_attr sys d (t ∷ ts) =
    (t.0, attr_at_create sys d (thread_model sys t.1).calls) ∷ with_attr sys d ts

abbrev pub with_created : List Created → List (ℕ × Option Attr)
with_created [] = []
with_created (c ∷ cs) = (c.thread, some c.attr) ∷ with_created cs
