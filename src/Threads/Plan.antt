-- ===== src/Threads/Plan.antt =====
-- The actions of a sequencer, and what can be read off a list of them.
use ucb_rtes.Base.{
  ℕ, ◌+◌, ◌≡◌, Bool, true, false, not, ◌||◌, List, [], ◌∷◌, ◌++◌, arith, ◌==◌, if◌then◌else◌,
}

-- A wait for time to pass, `sem_post` of a semaphore, an abort flag set to TRUE.
pub data Action : Type 0 where
  sleep : Action
  post : ℕ → Action
  abort : ℕ → Action

-- How often semaphore `k` is posted.
unfoldable pub posts : ℕ → List Action → ℕ
posts k [] = 0
posts k (post j ∷ r) = (if j == k then 1 else 0) + posts k r
posts k (_ ∷ r) = posts k r

unfoldable pub has_post : ℕ → List Action → Bool
has_post k [] = false
has_post k (post j ∷ r) = (j == k) || has_post k r
has_post k (_ ∷ r) = has_post k r

unfoldable pub has_abort : ℕ → List Action → Bool
has_abort f [] = false
has_abort f (abort g ∷ r) = (g == f) || has_abort f r
has_abort f (_ ∷ r) = has_abort f r

-- No sleep is left.
unfoldable pub is_quiet : List Action → Bool
is_quiet [] = true
is_quiet (sleep ∷ r) = false
is_quiet (_ ∷ r) = is_quiet r

-- If a sleep is left, semaphore `k` is posted behind the last one.
unfoldable pub is_armed : ℕ → List Action → Bool
unfolding is_quiet has_post
is_armed k [] = true
is_armed k (sleep ∷ r) = if is_quiet r then has_post k r else is_armed k r
is_armed k (_ ∷ r) = is_armed k r

-- Flag `f` is set, and semaphore `k` posted behind it.
unfoldable pub abort_then_post : ℕ → ℕ → List Action → Bool
unfolding has_post
abort_then_post f k [] = false
abort_then_post f k (abort g ∷ r) = if g == f then has_post k r else abort_then_post f k r
abort_then_post f k (_ ∷ r) = abort_then_post f k r

-- Flag `f` is set only when semaphore `k` will not be posted any more.
unfoldable pub post_then_abort : ℕ → ℕ → List Action → Bool
unfolding has_post
post_then_abort f k [] = true
post_then_abort f k (abort g ∷ r) = if g == f then not (has_post k r) else post_then_abort f k r
post_then_abort f k (_ ∷ r) = post_then_abort f k r

pub posts-append : (k : ℕ) (xs ys : List Action) → posts k (xs ++ ys) ≡ posts k xs + posts k ys
unfolding posts
posts-append k [] ys = omega arith
posts-append k (sleep ∷ r) ys = posts-append k r ys
posts-append k (post j ∷ r) ys = omega (arith, posts-append k r ys)
posts-append k (abort j ∷ r) ys = posts-append k r ys
