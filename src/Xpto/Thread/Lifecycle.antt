-- ===== src/Xpto/Thread/Lifecycle.antt =====
-- thread.hpp: how the constructor of `xpto::thread` can end, and what it leaves behind.
use ucb_rtes.Base.{
  ℕ, zero, suc, ◌≡◌, ◌≢◌, refl, true, false, Option, none, some, List, [], ◌∷◌, ◌++◌, arith, ◌⊎◌,
}
use ucb_rtes.Base.Int.{ℤ, pos}
use ucb_rtes.Posix.{Policy}
use ucb_rtes.Xpto.Thread.{
  Attributes, Call, attr_init, attr_destroy, setinheritsched, create, setaffinity, setstacksize,
  setschedpolicy, setscheduler, setschedparam, setname, Statement, checked, System, Made, perform,
  affinity_part, stack_part, policy_part, name_part, body, thread_model, is_started,
}

IsEnding : System → ℕ → Made → Type 0
IsEnding sys n m =
    ((m.ok ≡ true) × (is_started sys m.calls ≡ true))
    ⊎ ((m.ok ≡ false) × (is_started sys m.calls ≡ false))
    ⊎ ((m.ok ≡ false) × (is_started sys m.calls ≡ true) × (n ≢ 0) × (sys.result setname ≢ pos 0))

name_part-IsEnding :
    (sys : System) (n : ℕ) → IsEnding sys n (perform sys (checked create ∷ name_part n))
unfolding IsEnding perform name_part is_started
name_part-IsEnding sys zero = ground arith
name_part-IsEnding sys (suc n) = ground arith

stack_part-IsEnding :
    (sys : System) (n : ℕ) (size : Option ℕ) (r : List Statement)
    → IsEnding sys n (perform sys r)
    → IsEnding sys n (perform sys (stack_part size r))
unfolding IsEnding perform stack_part is_started
stack_part-IsEnding sys n none r h = h
stack_part-IsEnding sys n (some size) r h = ground arith

policy_part-IsEnding :
    (sys : System) (n : ℕ) (policy : Option Policy) (prio : Option ℤ) (r : List Statement)
    → IsEnding sys n (perform sys r)
    → IsEnding sys n (perform sys (policy_part sys policy prio r))
unfolding IsEnding perform policy_part is_started
policy_part-IsEnding sys n none prio r h = h
policy_part-IsEnding sys n (some p) prio r h = ground arith

affinity_part-IsEnding :
    (sys : System) (n : ℕ) (cores : List ℕ) (r : List Statement)
    → IsEnding sys n (perform sys r)
    → IsEnding sys n (perform sys (affinity_part cores r))
unfolding IsEnding perform affinity_part is_started
affinity_part-IsEnding sys n [] r h = h
affinity_part-IsEnding sys n (c ∷ cs) r h = ground arith

body-IsEnding :
    (sys : System) (a : Attributes) → IsEnding sys a.name_size (perform sys (body sys a))
unfolding body
body-IsEnding sys a = affinity_part-IsEnding sys _ a.affinity _ (
    stack_part-IsEnding sys _ a.stack_size _
      (policy_part-IsEnding sys _ a.policy a.prio _ (name_part-IsEnding sys a.name_size)))

pub is_started-destroy :
    (sys : System) (cs : List Call) → is_started sys (cs ++ (attr_destroy ∷ [])) ≡ is_started sys cs
unfolding is_started
is_started-destroy sys [] = refl
is_started-destroy sys (create ∷ cs) = rw (is_started-destroy sys cs) refl
is_started-destroy sys (attr_init ∷ cs) = is_started-destroy sys cs
is_started-destroy sys (attr_destroy ∷ cs) = is_started-destroy sys cs
is_started-destroy sys (setinheritsched ∷ cs) = is_started-destroy sys cs
is_started-destroy sys (setaffinity c ∷ cs) = is_started-destroy sys cs
is_started-destroy sys (setstacksize n ∷ cs) = is_started-destroy sys cs
is_started-destroy sys (setschedpolicy p ∷ cs) = is_started-destroy sys cs
is_started-destroy sys (setscheduler p n ∷ cs) = is_started-destroy sys cs
is_started-destroy sys (setschedparam n ∷ cs) = is_started-destroy sys cs
is_started-destroy sys (setname ∷ cs) = is_started-destroy sys cs

-- The constructor returns and the thread runs, or it throws and the thread does not run, or it throws
-- although the thread runs: then a name was asked for and the call that sets it failed.
pub thread_model-cases :
    (sys : System) (a : Attributes)
    → (((thread_model sys a).ok ≡ true) × (is_started sys (thread_model sys a).calls ≡ true))
      ⊎ (((thread_model sys a).ok ≡ false) × (is_started sys (thread_model sys a).calls ≡ false))
      ⊎ (((thread_model sys a).ok ≡ false)
          × (is_started sys (thread_model sys a).calls ≡ true)
          × (a.name_size ≢ 0)
          × (sys.result setname ≢ pos 0))
unfolding thread_model is_started IsEnding
thread_model-cases sys a =
    ground (arith, body-IsEnding sys a, is_started-destroy sys (perform sys (body sys a)).calls)
