-- ===== src/RtThread/XptoThread.antt =====
-- 06-rt-simplethread/pthread.cpp: the same sums and priorities as in pthread.c, with `xpto::thread` and
-- sums of type `size_t`. Its FIB_TEST is the one of ucbrtes.hpp, but for volatile; the clock readings
-- and the output are not modelled.
pub mod Program
use ucb_rtes.Base.{
  ℕ, zero, suc, ◌+◌, ◌*◌, ◌%◌, ◌^◌, ◌<◌, ◌≤◌, ◌≡◌, refl, true, none, some, List, [], ◌∷◌, arith,
  ltb, if◌then◌else◌,
}
use ucb_rtes.Base.Int.{ℤ, pos, ◌+ℤ◌, ◌-ℤ◌}
use ucb_rtes.Base.Word.{to_int}
use ucb_rtes.Base.Long.{to_size}
use ucb_rtes.Base.Run.{Run, done, running}
use ucb_rtes.Posix.{fifo, Attr, u64}
use ucb_rtes.Triangle.{triangle, triangle-one, triangle-suc, triangle-le, triangle_closed, add_int}
use ucb_rtes.Xpto.Thread.{Attributes, System, thread_model, is_started}
use ucb_rtes.Xpto.Thread.Effect.{IsAccepted, attr_at_create-thread_model, with_attr, with_created}
use ucb_rtes.RtThread.Counter.{sum_loop, sum_loop-triangle, create_loop, main}

abbrev pub k_num_threads : ℕ
k_num_threads = 4

abbrev pub k_sum_iterations : ℕ
k_sum_iterations = 1000

-- `for (auto i = 1; i < (idx + 1 * k_sum_iterations); i++) sum = sum + i;`, where `i` and `idx` are
-- `int` and the comparison is one of `size_t`.
unfoldable pub size_loop : ℕ → ℤ → ℤ → ℕ → Run ℕ
size_loop zero idx i sum = running
size_loop (suc fuel) idx i sum =
    let again = size_loop fuel idx (to_int (i +ℤ pos 1)) (u64 (sum + to_size i)) in
    if ltb (to_size i) (u64 (to_size idx + k_sum_iterations)) then again else done sum

-- The attributes of thread i, and the loop of `main` with `left` threads to go.
abbrev pub attributes_of : ℤ → ℕ → Attributes
attributes_of rt_max_prio i = record {
  affinity = [];
  stack_size = none;
  name_size = 0;
  policy = some fifo;
  prio = some (rt_max_prio -ℤ pos i -ℤ pos 1);
}

unfoldable pub emplace_loop : ℤ → ℕ → ℕ → List (ℕ × Attributes)
emplace_loop rt_max_prio zero i = []
emplace_loop rt_max_prio (suc left) i =
    (i, attributes_of rt_max_prio i) ∷ emplace_loop rt_max_prio left (i + 1)

size_loop-from :
    (n fuel t i : ℕ)
    → n < fuel
    → i + n ≡ t + 1000
    → t + 1000 ≤ 2 ^ 15
    → size_loop fuel (pos t) (pos i) (triangle i) ≡ done (triangle (t + 1000))
unfolding size_loop
size_loop-from n zero t i f e h = absurd (omega arith)
size_loop-from zero (suc fuel) t i f e h =
    let e1 : i ≡ t + 1000 = omega arith in rw e1 (ground arith)
size_loop-from (suc n) (suc fuel) t i f e h =
    let b : triangle i ≤ i * 2 ^ 15 = triangle-le i (omega arith) in
    let d : i % 2 ^ 64 ≡ i = omega arith in
    let k : (t % 2 ^ 64 + 1000) % 2 ^ 64 ≡ t + 1000 = omega arith in
    let c : ltb i (t + 1000) ≡ true = ground arith in
    let w : (triangle i + i) % 2 ^ 64 ≡ triangle i + i = omega (arith, b) in
    rw d (
      rw k (
        rw c (
          rw (add_int i 1 (omega arith)) (
            rw w (
              rw (triangle-suc i)
                (size_loop-from n fuel t (i + 1) (omega arith) (omega arith) h))))))

-- The threads with index t of pthread.c and of pthread.cpp come to the same sum, that of the numbers
-- below t + 1000, with no overflow, up to t + 1000 = 2 ^ 15, and with fuel for that many tests.
pub size_loop-sum_loop :
    (fuel t : ℕ)
    → t + 1000 ≤ fuel
    → t + 1000 ≤ 2 ^ 15
    → (sum : ℕ) × (sum_loop fuel (pos t) (pos 1) (pos 0) ≡ done (pos sum))
      × (size_loop fuel (pos t) (pos 1) 0 ≡ done sum)
      × (2 * sum ≡ (t + 1000) * (t + 999))
size_loop-sum_loop fuel t f h =
    let p : (t + 1000) * (t + 1000) ≡ (t + 1000) * (t + 999) + (t + 1000) = ground arith in
    (
      triangle (t + 1000),
      sum_loop-triangle fuel t f h,
      rw triangle-one at (size_loop-from (t + 999) fuel t 1 (omega arith) (omega arith) h),
      omega (arith, triangle_closed (t + 1000), p),
    )

emplace_loop-create_loop :
    (sys : System) (d : Attr) (m : ℤ) (left i : ℕ)
    → d.core ≡ none
    → ((j : ℕ) → IsAccepted sys (some fifo) (some (m -ℤ pos j -ℤ pos 1)))
    → ((j : ℕ)
        → i ≤ j
        → j < i + left
        → is_started sys (thread_model sys (attributes_of m j)).calls ≡ true)
    → with_attr sys d (emplace_loop m left i) ≡ with_created (create_loop m left i)
unfolding emplace_loop create_loop
emplace_loop-create_loop sys d m zero i n acc h = refl
emplace_loop-create_loop sys d m (suc left) i n acc h =
    rw
      (attr_at_create-thread_model sys (attributes_of m i) d tt (acc i)
        (h i (omega arith) (omega arith)))
      (rw n (
        rw
          (emplace_loop-create_loop sys d m left (i + 1) n acc
            (λ j a b. h j (omega arith) (omega arith)))
          refl))

-- Where all its threads can be started, and the calls on their attributes that are not checked succeed, `main` of pthread.cpp makes the same threads as `main` of
-- pthread.c, in the same order, under SCHED_FIFO by their own attributes and at the same priorities; by
-- default, a thread is bound to no core.
pub emplace_loop-main :
    (sys : System) (d : Attr) (rt_max_prio : ℤ)
    → d.core ≡ none
    → ((j : ℕ) → IsAccepted sys (some fifo) (some (rt_max_prio -ℤ pos j -ℤ pos 1)))
    → ((j : ℕ)
        → j < k_num_threads
        → is_started sys (thread_model sys (attributes_of rt_max_prio j)).calls ≡ true)
    → with_attr sys d (emplace_loop rt_max_prio k_num_threads 0) ≡ with_created (main rt_max_prio)
unfolding main
emplace_loop-main sys d m n acc h = emplace_loop-create_loop sys d m 4 0 n acc (λ j a b. h j b)
