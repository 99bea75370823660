-- ===== src/RtThread/Counter.antt =====
-- The compute section of `counterThread`, `print_scheduler` and `main` of 06-rt-simplethread/pthread.c.
use ucb_rtes.Base.{
  ℕ, zero, suc, ◌+◌, ◌-◌, ◌*◌, ◌^◌, ◌<◌, ◌≤◌, ◌≡◌, refl, true, none, some, List, [], ◌∷◌, arith,
  if◌then◌else◌,
}
use ucb_rtes.Base.Int.{ℤ, pos, ◌+ℤ◌, ◌-ℤ◌, ◌≤ℤ◌, int_laws, eq_of_parts, ltb_ℤ}
use ucb_rtes.Base.Word.{to_int}
use ucb_rtes.Base.Run.{Run, done, running, ◌>>=◌}
use ucb_rtes.Posix.{Policy, fifo, other, rr, unknown, Attr, Created, find_attr}
use ucb_rtes.Triangle.{triangle, triangle-le, triangle-suc, triangle-one, triangle_closed, add_int}
use ucb_rtes.RtThread.Fib.{Globals, globals, fib_test-returns, fib_test}

-- `for (i = 1; i < ((threadParams->threadIdx) + 1 * SUM_ITERATIONS); i++) sum = sum + i;`
unfoldable pub sum_loop : ℕ → ℤ → ℤ → ℤ → Run ℤ
sum_loop zero thread_idx i sum = running
sum_loop (suc fuel) thread_idx i sum =
    let again = sum_loop fuel thread_idx (to_int (i +ℤ pos 1)) (to_int (sum +ℤ i)) in
    if ltb_ℤ i (to_int (thread_idx +ℤ pos 1000)) then again else done sum

abbrev pub seq_iterations : ℕ
seq_iterations = 47

abbrev pub req_iterations : ℕ
req_iterations = 10_000_000

-- The compute section: the sum, then FIB_TEST.
pub compute : ℕ → ℕ → ℕ → ℤ → Globals → Run (ℤ × Globals)
compute fuel rounds inner thread_idx g = sum_loop fuel thread_idx (pos 1) (pos 0) >>= λ sum.
    fib_test rounds inner seq_iterations req_iterations g >>= λ r. done (sum, r.1)

-- From round i on, with n rounds to go.
sum_loop-from :
    (n fuel t i : ℕ)
    → n < fuel
    → i + n ≡ t + 1000
    → t + 1000 ≤ 2 ^ 15
    → sum_loop fuel (pos t) (pos i) (pos (triangle i)) ≡ done (pos (triangle (t + 1000)))
unfolding sum_loop
sum_loop-from n zero t i f e h = absurd (omega arith)
sum_loop-from zero (suc fuel) t i f e h =
    let e1 : i ≡ t + 1000 = omega arith in rw e1 (rw (add_int t 1000 (omega arith)) (ground arith))
sum_loop-from (suc n) (suc fuel) t i f e h =
    let b : triangle i ≤ i * 2 ^ 15 = triangle-le i (omega arith) in
    let c : ltb_ℤ (pos i) (pos (t + 1000)) ≡ true = ground arith in
    rw (add_int t 1000 (omega arith)) (
      rw c (
        rw (add_int i 1 (omega arith)) (
          rw (add_int (triangle i) i (omega (arith, b)))
            (rw (triangle-suc i) (sum_loop-from n fuel t (i + 1) (omega arith) (omega arith) h)))))

-- The sum of the numbers below t + 1000, up to t + 1000 = 2 ^ 15.
pub sum_loop-triangle :
    (fuel t : ℕ)
    → t + 1000 ≤ fuel
    → t + 1000 ≤ 2 ^ 15
    → sum_loop fuel (pos t) (pos 1) (pos 0) ≡ done (pos (triangle (t + 1000)))
sum_loop-triangle fuel t f h =
    rw triangle-one at (sum_loop-from (t + 999) fuel t 1 (omega arith) (omega arith) h)

-- The compute section of the thread with index t ends, on the variables as they are initialised, and
-- its sum is that of the numbers below t + 1000, with no overflow, up to t + 1000 = 2 ^ 15. The loops
-- have fuel for t + 1000, reqIterations + 1 and seqIterations + 1 tests.
pub compute-result :
    (fuel rounds inner t : ℕ)
    → t + 1000 ≤ 2 ^ 15
    → t + 1000 ≤ fuel
    → req_iterations < rounds
    → seq_iterations < inner
    → (sum : ℕ) × (h : Globals) × (compute fuel rounds inner (pos t) globals ≡ done (pos sum, h))
      × (2 * sum ≡ (t + 1000) * (t + 999))
unfolding compute
compute-result fuel rounds inner t h f r i =
    let (g, e, _, _, _) =
      fib_test-returns rounds inner seq_iterations req_iterations (omega arith) (omega arith)
        (omega arith) (omega arith) i r in
    let q = sum_loop-triangle fuel t f h in
    let p : (t + 1000) * (t + 1000) ≡ (t + 1000) * (t + 999) + (t + 1000) = ground arith in
    (triangle (t + 1000), g, rw q (rw e refl), omega (arith, triangle_closed (t + 1000), p))

-- The text that `print_scheduler` prints for each policy.
pub data Text : Type 0 where
  sched_fifo sched_other sched_unknown : Text

pub print_scheduler : Policy → Text
print_scheduler fifo = sched_fifo
print_scheduler other = sched_other
print_scheduler rr = sched_other
print_scheduler unknown = sched_unknown

-- What it prints of the scope of the threads.
pub data Scope : Type 0 where
  system process : Scope
  other_scope : Scope

pub data ScopeText : Type 0 where
  scope_system scope_process scope_unknown : ScopeText

pub print_scope : Scope → ScopeText
print_scope system = scope_system
print_scope process = scope_process
print_scope other_scope = scope_unknown

-- The `for` loop of `main`, with `left` threads to go; each is created as soon as its attributes are
-- set, and runs `counterThread` (routine 1).
unfoldable pub create_loop : ℤ → ℕ → ℕ → List Created
create_loop rt_max_prio zero idx = []
create_loop rt_max_prio (suc left) idx =
    record {
      thread = idx;
      routine = 1;
      attr = record {
        explicit_sched = true;
        policy = fifo;
        sched_priority = rt_max_prio -ℤ pos idx -ℤ pos 1;
        core = none;
      };
    }
    ∷ create_loop rt_max_prio left (idx + 1)

unfoldable pub main : ℤ → List Created
unfolding create_loop
main rt_max_prio = create_loop rt_max_prio 4 0

abbrev pub thread_attr : ℤ → ℕ → Attr
thread_attr m k = record {
  explicit_sched = true;
  policy = fifo;
  sched_priority = m -ℤ pos k -ℤ pos 1;
  core = none;
}

find_attr-main : (m : ℤ) (k : ℕ) → k < 4 → find_attr k (main m) ≡ some (thread_attr m k)
unfolding main find_attr
find_attr-main m k h = ground arith

-- `main` creates threads 0 to 3 under SCHED_FIFO by their own attributes, and none of them has the
-- priority of another: thread j is above thread k by k - j, and below the highest priority.
pub main-priorities :
    (rt_max_prio : ℤ) (j k : ℕ)
    → j < k
    → k < 4
    → (a : Attr) × (b : Attr) × (find_attr j (main rt_max_prio) ≡ some a)
      × (find_attr k (main rt_max_prio) ≡ some b)
      × (a.policy ≡ fifo)
      × (b.policy ≡ fifo)
      × (a.sched_priority +ℤ pos 1 ≤ℤ rt_max_prio)
      × (b.sched_priority +ℤ pos (k - j) ≡ a.sched_priority)
main-priorities m j k h l =
    let d : j + (k - j) ≡ k = omega arith in
    (
      thread_attr m j,
      thread_attr m k,
      find_attr-main m j (omega arith),
      find_attr-main m k l,
      refl,
      refl,
      omega int_laws,
      eq_of_parts _ _ (omega int_laws),
    )
