-- ===== src/Affinity.antt =====
-- 04-simplethread-affinity/main.c: a thread on one core starts 64 threads there, and each computes the
-- same sum over and over. The clock readings and the output are not modelled.
pub mod XptoThread
pub mod Program
mod Tests
use ucb_rtes.Base.{
  ℕ, zero, suc, ◌+◌, ◌*◌, ◌^◌, ◌<◌, ◌≤◌, ◌≡◌, refl, true, some, List, [], ◌∷◌, arith, ltb, lt→ltb,
  if◌then◌else◌, ◌==◌,
}
use ucb_rtes.Base.Int.{ℤ, pos, ◌+ℤ◌, ltb_ℤ}
use ucb_rtes.Base.Word.{to_int}
use ucb_rtes.Base.Run.{Run, done, running, ◌>>=◌}
use ucb_rtes.Posix.{fifo, Attr, Created, find_attr}
use ucb_rtes.Triangle.{triangle, triangle-one, triangle-suc, triangle-le, triangle_closed, add_int}

abbrev pub num_threads : ℕ
num_threads = 64

abbrev pub max_iterations : ℕ
max_iterations = 1_000_000

-- `for(i=1; i < (threadParams->threadIdx)+1; i++) sum=sum+i;`
pub sum_loop : ℕ → ℤ → ℤ → ℤ → Run ℤ
sum_loop zero thread_idx i sum = running
sum_loop (suc fuel) thread_idx i sum =
    let again = sum_loop fuel thread_idx (to_int (i +ℤ pos 1)) (to_int (sum +ℤ i)) in
    if ltb_ℤ i (to_int (thread_idx +ℤ pos 1)) then again else done sum

-- The outer loop, with fuel `rounds`; the inner one has `fuel`. `sum` starts afresh in each round.
pub iterate : ℕ → ℕ → ℤ → ℕ → ℤ → Run ℤ
iterate zero fuel thread_idx iterations sum = running
iterate (suc rounds) fuel thread_idx iterations sum =
    let again = sum_loop fuel thread_idx (pos 1) (pos 0) >>= λ s.
    iterate rounds fuel thread_idx (iterations + 1) s in
    if ltb iterations max_iterations then again else done sum

-- The sum that a thread prints.
pub counter_thread : ℕ → ℕ → ℤ → Run ℤ
unfolding iterate
counter_thread rounds fuel thread_idx = iterate rounds fuel thread_idx 0 (pos 0)

-- The attributes that `set_scheduler` makes, from the highest priority.
abbrev pub fifo_sched_attr : ℤ → Attr
fifo_sched_attr max_prio = record {
  explicit_sched = true;
  policy = fifo;
  sched_priority = max_prio;
  core = some 3;
}

-- The loop of `starterThread`, with `left` threads to go; all run `counterThread` (routine 1).
unfoldable pub starter_loop : ℤ → ℕ → ℕ → List Created
starter_loop max_prio zero i = []
starter_loop max_prio (suc left) i =
    record { thread = i; routine = 1; attr = fifo_sched_attr max_prio }
    ∷ starter_loop max_prio left (i + 1)

sum_loop-from :
    (n fuel t i : ℕ)
    → n < fuel
    → i + n ≡ t + 1
    → t + 1 ≤ 2 ^ 15
    → sum_loop fuel (pos t) (pos i) (pos (triangle i)) ≡ done (pos (triangle (t + 1)))
unfolding sum_loop
sum_loop-from n zero t i f e h = absurd (omega arith)
sum_loop-from zero (suc fuel) t i f e h =
    let e1 : i ≡ t + 1 = omega arith in rw e1 (rw (add_int t 1 (omega arith)) (ground arith))
sum_loop-from (suc n) (suc fuel) t i f e h =
    let b : triangle i ≤ i * 2 ^ 15 = triangle-le i (omega arith) in
    let c : ltb_ℤ (pos i) (pos (t + 1)) ≡ true = ground arith in
    rw (add_int t 1 (omega arith)) (
      rw c (
        rw (add_int i 1 (omega arith)) (
          rw (add_int (triangle i) i (omega (arith, b)))
            (rw (triangle-suc i) (sum_loop-from n fuel t (i + 1) (omega arith) (omega arith) h)))))

sum_loop-triangle :
    (fuel t : ℕ)
    → t < fuel
    → t + 1 ≤ 2 ^ 15
    → sum_loop fuel (pos t) (pos 1) (pos 0) ≡ done (pos (triangle (t + 1)))
sum_loop-triangle fuel t f h = rw triangle-one at (sum_loop-from t fuel t 1 f (omega arith) h)

-- With n + 1 rounds to go, whatever the sum is.
iterate-from :
    (n rounds fuel t i : ℕ) (sum : ℤ)
    → t < fuel
    → t + 1 ≤ 2 ^ 15
    → n + 1 < rounds
    → i + (n + 1) ≡ max_iterations
    → iterate rounds fuel (pos t) i sum ≡ done (pos (triangle (t + 1)))
unfolding iterate
iterate-from n zero fuel t i sum f h r e = absurd (omega arith)
iterate-from zero (suc zero) fuel t i sum f h r e = absurd (omega arith)
iterate-from zero (suc (suc rounds)) fuel t i sum f h r e =
    let c : i ≡ 999_999 = omega arith in rw c (rw (sum_loop-triangle fuel t f h) refl)
iterate-from (suc n) (suc rounds) fuel t i sum f h r e =
    let c : ltb i max_iterations ≡ true = lt→ltb _ _ (omega arith) in
    rw c (
      rw (sum_loop-triangle fuel t f h)
        (iterate-from n rounds fuel t (i + 1) _ f h (omega arith) (omega arith)))

-- The thread with index t, below 2 ^ 15, prints the sum of the numbers from 1 to t.
pub counter_thread-triangle :
    (rounds fuel t : ℕ)
    → t < 2 ^ 15
    → t < fuel
    → max_iterations < rounds
    → counter_thread rounds fuel (pos t) ≡ done (pos (triangle (t + 1)))
unfolding counter_thread
counter_thread-triangle rounds fuel t h f r =
    iterate-from 999_999 rounds fuel t 0 (pos 0) f (omega arith) (omega arith) (omega arith)
