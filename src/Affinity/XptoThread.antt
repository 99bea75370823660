-- ===== src/Affinity/XptoThread.antt =====
-- 04-simplethread-affinity/main.cpp: the same threads as in main.c, with `xpto::thread` and sums of type
-- `long`.
use ucb_rtes.Base.{
  ℕ, zero, suc, ◌+◌, ◌*◌, ◌^◌, ◌<◌, ◌≤◌, ◌≡◌, refl, true, false, not, none, some, List, [], ◌∷◌,
  arith, if◌then◌else◌, Bool, Bool-cases, inl, inr,
}
use ucb_rtes.Base.Int.{ℤ, pos, ◌+ℤ◌, ltb_ℤ}
use ucb_rtes.Base.Word.{to_int}
use ucb_rtes.Base.Long.{to_long, add_long}
use ucb_rtes.Base.Run.{Run, done, running, ◌>>=◌}
use ucb_rtes.Posix.{fifo, Attr}
use ucb_rtes.Triangle.{triangle, triangle-one, triangle-suc, triangle-le, triangle_closed, add_int}
use ucb_rtes.Xpto.Thread.{Attributes, System, thread_model, is_started}
use ucb_rtes.Xpto.Thread.Effect.{IsAccepted, attr_at_create-thread_model, with_attr, with_created}
use native.Mathlib.Decide.{dec_lt}
use ucb_rtes.Xpto.Thread.Lifecycle.{thread_model-cases}
use ucb_rtes.Xpto.ThreadObjects.{
  Ending, joins, terminates, then_join, emplace_all, emplace_all-joins, then_join-inv, from_to,
}
use ucb_rtes.Affinity.{
  num_threads, counter_thread, counter_thread-triangle, starter_loop, max_iterations,
}

-- `fifo_rt_max_prio_attrs`
abbrev pub fifo_rt_max_prio_attrs : Attributes
fifo_rt_max_prio_attrs = record {
  affinity = 3 ∷ [];
  stack_size = none;
  name_size = 0;
  policy = some fifo;
  prio = none;
}

-- `for (auto j = 1; j <= i; j++) sum += j;`
unfoldable pub long_loop : ℕ → ℤ → ℤ → ℤ → Run ℤ
long_loop zero i j sum = running
long_loop (suc fuel) i j sum =
    let again = long_loop fuel i (to_int (j +ℤ pos 1)) (to_long (sum +ℤ j)) in
    if not (ltb_ℤ i j) then again else done sum

-- The outer loop, with fuel `rounds`; the inner one has `fuel`.
unfoldable pub rounds_loop : ℕ → ℕ → ℤ → ℤ → ℤ → Run ℤ
rounds_loop zero fuel i iterations sum = running
rounds_loop (suc rounds) fuel i iterations sum =
    let again = long_loop fuel i (pos 1) (pos 0) >>= λ s.
    rounds_loop rounds fuel i (to_int (iterations +ℤ pos 1)) s in
    if ltb_ℤ iterations (pos 1_000_000) then again else done sum

-- The sum that the thread with index i prints.
unfoldable pub sum_thread : ℕ → ℕ → ℤ → Run ℤ
sum_thread rounds fuel i = rounds_loop rounds fuel i (pos 0) (pos 0)

-- What the starter thread constructs its threads with: their indices, with `left` to go.
unfoldable pub emplace_loop : ℕ → ℕ → List (ℕ × Attributes)
emplace_loop zero i = []
emplace_loop (suc left) i = (i, fifo_rt_max_prio_attrs) ∷ emplace_loop left (i + 1)

long_loop-from :
    (n fuel t i : ℕ)
    → n < fuel
    → i + n ≡ t + 1
    → t + 1 ≤ 2 ^ 15
    → long_loop fuel (pos t) (pos i) (pos (triangle i)) ≡ done (pos (triangle (t + 1)))
unfolding long_loop
long_loop-from n zero t i f e h = absurd (omega arith)
long_loop-from zero (suc fuel) t i f e h = let e1 : i ≡ t + 1 = omega arith in rw e1 (ground arith)
long_loop-from (suc n) (suc fuel) t i f e h =
    let b : triangle i ≤ i * 2 ^ 15 = triangle-le i (omega arith) in
    let c : ltb_ℤ (pos t) (pos i) ≡ false = ground arith in
    rw c (
      rw (add_int i 1 (omega arith)) (
        rw (add_long (triangle i) i (omega (arith, b)))
          (rw (triangle-suc i) (long_loop-from n fuel t (i + 1) (omega arith) (omega arith) h))))

long_loop-triangle :
    (fuel t : ℕ)
    → t < fuel
    → t + 1 ≤ 2 ^ 15
    → long_loop fuel (pos t) (pos 1) (pos 0) ≡ done (pos (triangle (t + 1)))
long_loop-triangle fuel t f h = rw triangle-one at (long_loop-from t fuel t 1 f (omega arith) h)

-- With n + 1 rounds to go, whatever the sum is.
rounds_loop-from :
    (n rounds fuel t i : ℕ) (sum : ℤ)
    → t < fuel
    → t + 1 ≤ 2 ^ 15
    → n + 1 < rounds
    → i + (n + 1) ≡ max_iterations
    → rounds_loop rounds fuel (pos t) (pos i) sum ≡ done (pos (triangle (t + 1)))
unfolding rounds_loop
rounds_loop-from n zero fuel t i sum f h r e = absurd (omega arith)
rounds_loop-from zero (suc zero) fuel t i sum f h r e = absurd (omega arith)
rounds_loop-from zero (suc (suc rounds)) fuel t i sum f h r e =
    let c : i ≡ 999_999 = omega arith in
    rw c (rw (long_loop-triangle fuel t f h) (rw (add_int 999_999 1 (omega arith)) refl))
rounds_loop-from (suc n) (suc rounds) fuel t i sum f h r e =
    let c : ltb_ℤ (pos i) (pos 1_000_000) ≡ true = ground arith in
    rw c (
      rw (long_loop-triangle fuel t f h) (
        rw (add_int i 1 (omega arith))
          (rounds_loop-from n rounds fuel t (i + 1) _ f h (omega arith) (omega arith))))

-- The threads with index t of main.c and of main.cpp end and print the same sum, that of the numbers
-- from 1 to t, with no overflow, for t below 2 ^ 15. The loops have fuel for 1000001 and t + 1 tests.
pub sum_thread-counter_thread :
    (rounds fuel t : ℕ)
    → t < 2 ^ 15
    → t < fuel
    → max_iterations < rounds
    → (sum : ℕ) × (counter_thread rounds fuel (pos t) ≡ done (pos sum))
      × (sum_thread rounds fuel (pos t) ≡ done (pos sum))
      × (2 * sum ≡ t * (t + 1))
unfolding sum_thread
sum_thread-counter_thread rounds fuel t h f r =
    let p : (t + 1) * (t + 1) ≡ t * (t + 1) + (t + 1) = ground arith in
    (
      triangle (t + 1),
      counter_thread-triangle rounds fuel t h f r,
      rounds_loop-from 999_999 rounds fuel t 0 (pos 0) f (omega arith) (omega arith) (omega arith),
      omega (arith, triangle_closed (t + 1), p),
    )

-- Where threads with the attributes of main.cpp can be started, its starter makes the same threads as
-- the one of main.c, in the same order, with the attributes that `set_scheduler` makes from the highest
-- priority of SCHED_FIFO, whatever the default ones are, and where the calls on the attributes that are
-- not checked succeed.
pub emplace_loop-starter_loop :
    (sys : System) (d : Attr) (left i : ℕ)
    → IsAccepted sys (some fifo) none
    → is_started sys (thread_model sys fifo_rt_max_prio_attrs).calls ≡ true
    → with_attr sys d (emplace_loop left i)
      ≡ with_created (starter_loop (sys.priority_max fifo) left i)
unfolding emplace_loop starter_loop
emplace_loop-starter_loop sys d zero i acc h = refl
emplace_loop-starter_loop sys d (suc left) i acc h =
    rw (attr_at_create-thread_model sys fifo_rt_max_prio_attrs d tt acc h)
      (rw (emplace_loop-starter_loop sys d left (i + 1) acc h) refl)

-- The starter, by a number that no counter thread has.
abbrev pub starter : ℕ
starter = num_threads

-- `main`, with the system as it is when each thread is constructed. The starter is joined first, and
-- has made the others by then; their vector is destroyed behind it.
unfoldable pub main : (ℕ → System) → Ending
main sys =
    let made = emplace_all (λ k. (thread_model (sys k) fifo_rt_max_prio_attrs).ok) num_threads 0 in
    if (thread_model (sys starter) fifo_rt_max_prio_attrs).ok
    then then_join starter made
    else terminates

started_of :
    (sys : System)
    → (thread_model sys fifo_rt_max_prio_attrs).ok ≡ true
    → is_started sys (thread_model sys fifo_rt_max_prio_attrs).calls ≡ true
started_of sys e = ground (arith, thread_model-cases sys fifo_rt_max_prio_attrs)

-- The C++ program never joins a thread that was not created: if it does not end by `std::terminate`, the
-- starter and all 64 counter threads were started, and they are joined in this order.
pub main-joins :
    (sys : ℕ → System) (ks : List ℕ) (k : ℕ)
    → k ≤ num_threads
    → main sys ≡ joins ks
    → (ks ≡ starter ∷ from_to 0 num_threads)
      × (is_started (sys k) (thread_model (sys k) fifo_rt_max_prio_attrs).calls ≡ true)
unfolding main
main-joins sys ks k h e = elim (Bool-cases (thread_model (sys starter) fifo_rt_max_prio_attrs).ok) [
  | inr bad ↦ absurd (ground (arith, bad))
  | inl good ↦
      let made : ℕ → Bool = λ j. (thread_model (sys j) fifo_rt_max_prio_attrs).ok in
      let (js, f, f') =
        then_join-inv starter (emplace_all made num_threads 0) ks (ground (arith, good)) in
      let (g, all) = emplace_all-joins made num_threads 0 js f in
      (
        cc,
        started_of (sys k) (elim (dec_lt k num_threads) [
          | yes below ↦ all k (omega arith) (omega arith)
          | no last ↦ let q : k ≡ starter = omega arith in rw q good
        ]),
      )
]
