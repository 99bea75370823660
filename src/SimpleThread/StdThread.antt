-- ===== src/SimpleThread/StdThread.antt =====
-- 01-simplethread/main.cpp: the same sums as in main.c, with `std::thread` and a sum of type `size_t`.
use ucb_rtes.Base.{
  ℕ, zero, suc, ◌+◌, ◌*◌, ◌%◌, ◌^◌, ◌<◌, ◌≤◌, ◌≡◌, Bool, false, not, arith, if◌then◌else◌,
}
use ucb_rtes.Base.Int.{ℤ, pos, ◌+ℤ◌, ltb_ℤ}
use ucb_rtes.Base.Word.{to_int}
use ucb_rtes.Base.Long.{to_size}
use ucb_rtes.Base.Run.{Run, done, running}
use ucb_rtes.Posix.{u64}
use ucb_rtes.Triangle.{triangle, triangle-one, triangle-suc, triangle-le, triangle_closed, add_int}
use ucb_rtes.SimpleThread as C
use ucb_rtes.SimpleThread.{count_locally, sum_loop-triangle}
use ucb_rtes.Xpto.ThreadObjects.{Ending, emplace_all}

-- `for (int i = 1; i <= tid; ++i) sum += i;`
unfoldable pub size_loop : ℕ → ℤ → ℤ → ℕ → Run ℕ
size_loop zero tid i sum = running
size_loop (suc fuel) tid i sum =
    let again = size_loop fuel tid (to_int (i +ℤ pos 1)) (u64 (sum + to_size i)) in
    if not (ltb_ℤ tid i) then again else done sum

-- The sum that the thread prints.
unfoldable pub std_thread : ℕ → ℤ → Run ℕ
std_thread fuel tid = size_loop fuel tid (pos 1) 0

size_loop-from :
    (n fuel t i : ℕ)
    → n < fuel
    → i + n ≡ t + 1
    → t + 1 ≤ 2 ^ 15
    → size_loop fuel (pos t) (pos i) (triangle i) ≡ done (triangle (t + 1))
unfolding size_loop
size_loop-from n zero t i f e h = absurd (omega arith)
size_loop-from zero (suc fuel) t i f e h = let e1 : i ≡ t + 1 = omega arith in rw e1 (ground arith)
size_loop-from (suc n) (suc fuel) t i f e h =
    let b : triangle i ≤ i * 2 ^ 15 = triangle-le i (omega arith) in
    let c : ltb_ℤ (pos t) (pos i) ≡ false = ground arith in
    let d : i % 2 ^ 64 ≡ i = omega arith in
    let w : (triangle i + i) % 2 ^ 64 ≡ triangle i + i = omega (arith, b) in
    rw c (
      rw (add_int i 1 (omega arith)) (
        rw d (
          rw w
            (rw (triangle-suc i) (size_loop-from n fuel t (i + 1) (omega arith) (omega arith) h)))))

-- For tid below 2 ^ 15, and with fuel for tid + 1 tests, the threads of main.c and of main.cpp end and
-- print the same sum, that of the numbers from 1 to tid, with no overflow.
pub std_thread-count_locally :
    (fuel tid : ℕ)
    → tid < 2 ^ 15
    → tid < fuel
    → (sum : ℕ) × (count_locally fuel (pos tid) ≡ done (pos sum))
      × (std_thread fuel (pos tid) ≡ done sum)
      × (2 * sum ≡ tid * (tid + 1))
unfolding std_thread
std_thread-count_locally fuel t h f =
    let p : (t + 1) * (t + 1) ≡ t * (t + 1) + (t + 1) = ground arith in
    (
      triangle (t + 1),
      sum_loop-triangle fuel t h f,
      rw triangle-one at (size_loop-from t fuel t 1 f (omega arith) (omega arith)),
      omega (arith, triangle_closed (t + 1), p),
    )

-- `num_threads` of main.cpp.
abbrev pub num_threads : ℕ
num_threads = 64

-- `main`, where the constructor of thread i returns if `ok i`; its second loop joins the threads.
unfoldable pub main : (ℕ → Bool) → Ending
main ok = emplace_all ok num_threads 0
