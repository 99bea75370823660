-- ===== src/Xpto/Thread.antt =====
-- include/xpto/thread.hpp: the constructor of `xpto::thread`, as the calls that it makes, each with the
-- result that the system gives it. Where `or_lose` throws, and the exception is caught, `AUTO` still
-- destroys the attributes; the destructor of an object whose constructor throws does not run.
pub mod Lifecycle
pub mod Effect
pub mod Caller
use ucb_rtes.Base.{
  ℕ, zero, suc, ◌≡◌, ◌≢◌, refl, Bool, true, false, not, ◌&&◌, ◌||◌, Option, none, some, List, [],
  ◌∷◌, ◌++◌, arith, if◌then◌else◌, ◌==◌,
}
use ucb_rtes.Base.Int.{ℤ, pos, ==_ℤ}
use ucb_rtes.Posix.{Policy}

-- `thread::attributes`; of the name only its length is used.
pub record Attributes : Type 0 where
  pub affinity : List ℕ
  pub stack_size : Option ℕ
  pub name_size : ℕ
  pub policy : Option Policy
  pub prio : Option ℤ

pub data Call : Type 0 where
  attr_init attr_destroy setinheritsched create : Call
  setaffinity : List ℕ → Call
  setstacksize : ℕ → Call
  setschedpolicy : Policy → Call
  setscheduler : Policy → ℤ → Call
  setschedparam : ℤ → Call
  setname : Call

-- A call whose result is checked, or not.
pub data Statement : Type 0 where
  checked : Call → Statement
  unchecked : Call → Statement

-- What the system answers: the result of each call, and the highest priority of a policy.
pub record System : Type 0 where
  pub result : Call → ℤ
  pub priority_max : Policy → ℤ

abbrev pub succeeds : System → Call → Bool
succeeds sys c = ==_ℤ (sys.result c) (pos 0)

-- The calls that are made, and whether all checked ones succeed.
pub record Made : Type 0 where
  pub calls : List Call
  pub ok : Bool

abbrev pub after : Call → Made → Made
after c m = record { calls = c ∷ m.calls; ok = m.ok }

unfoldable pub perform : System → List Statement → Made
perform sys [] = record { calls = []; ok = true }
perform sys (checked c ∷ r) =
    let m = perform sys r in
    if succeeds sys c then after c m else record { calls = c ∷ []; ok = false }
perform sys (unchecked c ∷ r) = after c (perform sys r)

unfoldable pub affinity_part : List ℕ → List Statement → List Statement
affinity_part [] r = r
affinity_part (c ∷ cs) r = checked (setaffinity (c ∷ cs)) ∷ r

unfoldable pub stack_part : Option ℕ → List Statement → List Statement
stack_part none r = r
stack_part (some n) r = checked (setstacksize n) ∷ r

abbrev pub prio_of : System → Policy → Option ℤ → ℤ
prio_of sys p none = sys.priority_max p
prio_of sys p (some n) = n

unfoldable pub policy_part : System → Option Policy → Option ℤ → List Statement → List Statement
policy_part sys none prio r = r
policy_part sys (some p) prio r =
    unchecked setinheritsched
    ∷ unchecked (setschedpolicy p)
    ∷ checked (setscheduler p (prio_of sys p prio))
    ∷ unchecked (setschedparam (prio_of sys p prio))
    ∷ r

unfoldable pub name_part : ℕ → List Statement
name_part zero = []
name_part (suc n) = checked setname ∷ []

-- What stands between `AUTO(pthread_attr_destroy(&pattrs))` and the end of the scope.
unfoldable pub body : System → Attributes → List Statement
body sys a = affinity_part a.affinity (
    stack_part a.stack_size
      (policy_part sys a.policy a.prio (checked create ∷ name_part a.name_size)))

unfoldable pub thread_model : System → Attributes → Made
thread_model sys a =
    let m = perform sys (body sys a) in
    if succeeds sys attr_init
    then record { calls = attr_init ∷ (m.calls ++ (attr_destroy ∷ [])); ok = m.ok }
    else record { calls = attr_init ∷ []; ok = false }

-- Whether the new thread runs: it was created, by a call that succeeded.
unfoldable pub is_started : System → List Call → Bool
is_started sys [] = false
is_started sys (create ∷ r) = succeeds sys create || is_started sys r
is_started sys (_ ∷ r) = is_started sys r

-- The destructor: the thread that it joins, if there is one.
unfoldable pub destroy : ℕ → Option ℕ
destroy tid = if tid == 0 then none else some tid
