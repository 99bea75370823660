-- ===== src/Xpto/Semaphore.antt =====
-- include/xpto/semaphore.hpp: `xpto::sem`, an owner of a named semaphore. The calls of the C library
-- are parameters, over whatever the system keeps of its semaphores; a handle is a number, and
-- SEM_FAILED is 0. The counter behind the automatic names stays below 2 ^ 31 - 1.
pub mod Names
pub mod Persistence
use ucb_rtes.Base.{
  ℕ, zero, suc, ◌+◌, ◌-◌, ◌*◌, ◌/◌, ◌%◌, Option, List, [], ◌∷◌, ◌++◌, ltb, ◌==◌, if◌then◌else◌,
}
use mathlib.Core.Option
use ucb_rtes.Base.Int.{ℤ, pos}
use ucb_rtes.Xpto.OrLose.{Outcome, or_lose}

-- A name is a list of characters; `sem_wait` may never return; the others return their result and
-- `errno`, and `sem_getvalue` the value too.
pub record SemCalls (K : Type 0) : Type 0 where
  pub sem_open : List ℕ → ℕ → ℕ → ℕ → K → ℕ × K
  pub sem_close : ℕ → K → K
  pub sem_wait : ℕ → K → Option (ℤ × ℤ × K)
  pub sem_post : ℕ → K → ℤ × ℤ × K
  pub sem_getvalue : ℕ → K → ℤ × ℤ × ℤ

abbrev pub sem_failed : ℕ
sem_failed = 0

abbrev pub o_creat : ℕ
o_creat = 64

-- The decimal digits of a number, with fuel for as many.
pub digits : ℕ → ℕ → List ℕ
digits zero n = []
digits (suc fuel) n =
    let rest = digits fuel (n / 10) ++ (48 + n % 10) ∷ [] in
    if ltb n 10 then (48 + n) ∷ [] else rest

-- `std::format("hmmm_{}", n)`
unfoldable pub auto_text : ℕ → List ℕ
unfolding digits
auto_text n = 104 ∷ 109 ∷ 109 ∷ 109 ∷ 95 ∷ digits (n + 1) n

-- `autoname`, with its counter: the name, and the counter behind it.
abbrev pub autoname : ℕ → List ℕ × ℕ
autoname counter = (auto_text (counter + 1), counter + 1)

module _ {K : Type 0} (calls : SemCalls K) where
  -- The constructor with a name, which `sem_open` takes as it is; whether it fails is not looked at.
  pub construct : List ℕ → ℕ → ℕ → ℕ → K → ℕ × K
  construct name oflag mode value k = calls.sem_open name oflag mode value k

  -- The default constructor: the payload, the counter, and the system behind it. The mode is 0700.
  unfoldable pub construct_default : ℕ → K → ℕ × ℕ × K
  unfolding construct
  construct_default counter k =
      let (name, counter') = autoname counter in
      let (payload, k') = construct name o_creat 448 0 k in (payload, counter', k')

  -- `~c_resource`, with `sem_close`.
  unfoldable pub destroy : ℕ → K → K
  destroy payload k = if payload == sem_failed then k else calls.sem_close payload k

  pub wait : ℕ → K → Option (Outcome × K)
  wait payload k =
      Option.map (λ (r : ℤ × ℤ × K). (or_lose (r.0) (r.1), r.2)) (calls.sem_wait payload k)

  pub post : ℕ → K → Outcome × K
  post payload k = let (result, errno, k') = calls.sem_post payload k in (or_lose result errno, k')

  -- `value`: the outcome of the call, and what `x` is behind it.
  pub value : ℕ → K → Outcome × ℤ
  value payload k =
      let (result, errno, x) = calls.sem_getvalue payload k in (or_lose result errno, x)
