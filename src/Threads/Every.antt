-- ===== src/Threads/Every.antt =====
-- `if ((seqCnt % rate) == 0) sem_post(&sem);`, the statement by which the sequencers release their
-- services, and the plans that are built of it.
use ucb_rtes.Base.{ℕ, ◌+◌, ◌%◌, ◌≡◌, true, ◌&&◌, List, ◌∷◌, arith, ◌==◌, if◌then◌else◌}
use ucb_rtes.Threads.Plan.{
  Action, sleep, post, posts, has_post, has_abort, is_armed, post_then_abort,
}

-- The statement for semaphore `k`, in front of what follows it.
unfoldable pub post_every : ℕ → ℕ → ℕ → List Action → List Action
post_every seq_cnt rate k rest = if seq_cnt % rate == 0 then post k ∷ rest else rest

pub posts-post_every :
    (k seq_cnt rate j : ℕ) (rest : List Action)
    → posts k (post_every seq_cnt rate j rest)
      ≡ (if (j == k) && (seq_cnt % rate == 0) then 1 else 0) + posts k rest
unfolding posts post_every
posts-post_every k seq_cnt rate j rest = ground arith

-- What a plan says of service `k` with flag `f`: its last post comes behind the last sleep, its flag
-- is set, and not before the last post.
pub record IsPlan (f k : ℕ) (plan : List Action) : Type 0 where
  pub armed : is_armed k plan ≡ true
  pub posted : has_post k plan ≡ true
  pub flagged : has_abort f plan ≡ true
  pub late : post_then_abort f k plan ≡ true

pub IsPlan-sleep : (f k : ℕ) (rest : List Action) → IsPlan f k rest → IsPlan f k (sleep ∷ rest)
unfolding is_armed has_post has_abort post_then_abort
IsPlan-sleep f k rest h = ground arith

pub IsPlan-post_every :
    (f k seq_cnt rate j : ℕ) (rest : List Action)
    → IsPlan f k rest
    → IsPlan f k (post_every seq_cnt rate j rest)
unfolding post_every is_armed has_post has_abort post_then_abort
IsPlan-post_every f k seq_cnt rate j rest h = ground arith
