-- ===== src/Xpto/Semaphore/Persistence.antt =====
-- semaphore.hpp: a named semaphore outlives the objects, and the process, that opened it.
use ucb_rtes.Base.{ℕ, ◌+◌, ◌≡◌, refl, ◌==◌, Option, some, List, Bool-cases, inl, inr}
use ucb_rtes.Xpto.Semaphore.{SemCalls, o_creat, construct_default, destroy, construct, auto_text}

-- What the manual pages say of `sem_open` with O_CREAT and of `sem_close`, with the value of a
-- semaphore as far as it exists: a semaphore that exists keeps its value, whatever is opened or
-- closed, and one that is made has the value that was asked for.
pub record IsPersistent {K : Type 0} (calls : SemCalls K) (tokens : List ℕ → K → Option ℕ)
    : Type 0 where
  pub kept_open :
      (name other : List ℕ) (mode value n : ℕ) (k : K)
      → tokens other k ≡ some n
      → tokens other ((calls.sem_open name o_creat mode value k).1) ≡ some n
  pub kept_close :
      (other : List ℕ) (payload : ℕ) (k : K)
      → tokens other (calls.sem_close payload k) ≡ tokens other k

module _ {K : Type 0} (calls : SemCalls K) (tokens : List ℕ → K → Option ℕ)
    (laws : IsPersistent calls tokens) where
  pub tokens-construct_default :
      (other : List ℕ) (counter n : ℕ) (k : K)
      → tokens other k ≡ some n
      → tokens other ((construct_default calls counter k).2) ≡ some n
  unfolding construct_default construct
  tokens-construct_default other counter n k e =
      laws.kept_open (auto_text (counter + 1)) other 448 0 n k e

  pub tokens-destroy :
      (other : List ℕ) (payload : ℕ) (k : K)
      → tokens other (destroy calls payload k) ≡ tokens other k
  unfolding destroy
  tokens-destroy other payload k = elim (Bool-cases (payload == 0)) [
    | inl e ↦ rw e refl
    | inr e ↦ rw e (laws.kept_close other payload k)
  ]
