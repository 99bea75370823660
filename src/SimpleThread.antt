-- ===== src/SimpleThread.antt =====
-- 01-simplethread/main.c: 64 threads, each of which adds up the numbers from 1 to its index.
pub mod StdThread
mod Tests
use native.Mathlib.Decide.{dec_lt}
use ucb_rtes.Base.{
  ℕ, zero, suc, ◌+◌, ◌-◌, ◌*◌, ◌^◌, ◌<◌, ◌≤◌, ◌≡◌, ◌⊎◌, inl, inr, refl, Bool, true, false, not,
  List, [], ◌∷◌, arith, if◌then◌else◌, ap, Bool-cases, update,
}
use ucb_rtes.Base.Int.{ℤ, pos, ◌+ℤ◌, ltb_ℤ}
use ucb_rtes.Base.Word.{to_int}
use ucb_rtes.Base.Run.{Run, done, exited, running, ◌>>=◌}
use ucb_rtes.Xpto.ThreadObjects.{from_to}
use ucb_rtes.Triangle.{triangle, triangle-one, triangle-suc, triangle-le, triangle_closed, add_int}

abbrev pub num_threads : ℕ
num_threads = 64

-- `for (int i = 1; i<=tid; ++i) sum += i;`
unfoldable pub sum_loop : ℕ → ℤ → ℤ → ℤ → Run ℤ
sum_loop zero tid i sum = running
sum_loop (suc fuel) tid i sum =
    let again = sum_loop fuel tid (to_int (i +ℤ pos 1)) (to_int (sum +ℤ i)) in
    if not (ltb_ℤ tid i) then again else done sum

-- The sum that the thread prints.
unfoldable pub count_locally : ℕ → ℤ → Run ℤ
count_locally fuel tid = sum_loop fuel tid (pos 1) (pos 0)

-- The first loop of `main`, with `left` threads to go, and `threads`, which holds the handle of thread
-- i where its creation wrote it, by the number i. `fails i` tells whether `pthread_create` fails for
-- thread i.
unfoldable pub create_loop : (ℕ → Bool) → ℕ → ℕ → (ℕ → ℕ) → Run (ℕ → ℕ)
create_loop fails zero i threads = done threads
create_loop fails (suc left) i threads =
    let rest = create_loop fails left (i + 1) (update threads i i) in
    if fails i then exited else rest

-- The second loop: the handles that `pthread_join` is called with.
unfoldable pub join_loop : ℕ → ℕ → (ℕ → ℕ) → List ℕ
join_loop zero i threads = []
join_loop (suc left) i threads = threads i ∷ join_loop left (i + 1) threads

-- The threads that are joined, from what `threads` holds at first.
unfoldable pub main : (ℕ → Bool) → (ℕ → ℕ) → Run (List ℕ)
main fails threads =
    create_loop fails num_threads 0 threads >>= λ threads'. done (join_loop num_threads 0 threads')

sum_loop-from :
    (n fuel t i : ℕ)
    → n < fuel
    → i + n ≡ t + 1
    → t + 1 ≤ 2 ^ 15
    → sum_loop fuel (pos t) (pos i) (pos (triangle i)) ≡ done (pos (triangle (t + 1)))
unfolding sum_loop
sum_loop-from n zero t i f e h = absurd (omega arith)
sum_loop-from zero (suc fuel) t i f e h = let e1 : i ≡ t + 1 = omega arith in rw e1 (ground arith)
sum_loop-from (suc n) (suc fuel) t i f e h =
    let b : triangle i ≤ i * 2 ^ 15 = triangle-le i (omega arith) in
    let c : ltb_ℤ (pos t) (pos i) ≡ false = ground arith in
    rw c (
      rw (add_int i 1 (omega arith)) (
        rw (add_int (triangle i) i (omega (arith, b)))
          (rw (triangle-suc i) (sum_loop-from n fuel t (i + 1) (omega arith) (omega arith) h))))

-- For tid below 2 ^ 15 the sum is that of the numbers from 1 to tid.
pub sum_loop-triangle :
    (fuel tid : ℕ)
    → tid < 2 ^ 15
    → tid < fuel
    → count_locally fuel (pos tid) ≡ done (pos (triangle (tid + 1)))
unfolding count_locally
sum_loop-triangle fuel t h f =
    rw triangle-one at (sum_loop-from t fuel t 1 (omega arith) (omega arith) (omega arith))

-- The handles of threads i to i + left - 1 are their own.
abbrev Holds : ℕ → ℕ → (ℕ → ℕ) → Type 0
Holds left i threads = (j : ℕ) → i ≤ j → j < i + left → threads j ≡ j

-- The handles below are left as they are.
abbrev Keeps : ℕ → (ℕ → ℕ) → (ℕ → ℕ) → Type 0
Keeps i threads threads' = (j : ℕ) → j < i → threads' j ≡ threads j

-- A loop from i on that ends is a loop from i + 1 on behind one creation.
Holds-update :
    (left i : ℕ) (threads threads' : ℕ → ℕ)
    → Holds left (i + 1) threads'
    → Keeps (i + 1) (update threads i i) threads'
    → Holds (suc left) i threads' × Keeps i threads threads'
Holds-update left i threads threads' h k = (
  λ j p q. elim (dec_lt i j) [
    | yes above ↦ h j (omega arith) (omega arith)
    | no same ↦ ground (arith, k j (omega arith))
  ],
  λ j p. ground (arith, k j (omega arith)),
)

create_loop-cases :
    (fails : ℕ → Bool) (left i : ℕ) (threads : ℕ → ℕ)
    → ((threads' : ℕ → ℕ) × (create_loop fails left i threads ≡ done threads')
        × Holds left i threads'
        × Keeps i threads threads'
        × ((j : ℕ) → i ≤ j → j < i + left → fails j ≡ false))
      ⊎ ((create_loop fails left i threads ≡ exited)
          × (j : ℕ) × (i ≤ j)
          × (j < i + left)
          × (fails j ≡ true))
unfolding create_loop
create_loop-cases fails zero i threads =
    inl (threads, refl, λ j p q. absurd (omega arith), λ j p. refl, λ j p q. absurd (omega arith))
create_loop-cases fails (suc left) i threads = elim (Bool-cases (fails i)) [
  | inl bad ↦ inr (rw bad refl, i, omega arith, omega arith, bad)
  | inr good ↦ elim (create_loop-cases fails left (i + 1) (update threads i i)) [
    | inl (threads', ok, holds, keeps, all) ↦
        let (h, k) = Holds-update left i threads threads' holds keeps in
        inl (
          threads',
          rw good ok,
          h,
          k,
          λ j p q. elim (dec_lt i j) [
            | yes above ↦ all j (omega arith) (omega arith)
            | no same ↦ let e : j ≡ i = omega arith in rw e good
          ],
        )
    | inr (bad, j, p, q, f) ↦ inr (rw good bad, j, omega arith, omega arith, f)
  ]
]

join_loop-from_to :
    (left i : ℕ) (threads : ℕ → ℕ)
    → Holds left i threads
    → join_loop left i threads ≡ from_to i left
unfolding join_loop
join_loop-from_to zero i threads h = refl
join_loop-from_to (suc left) i threads h =
    rw (h i (omega arith) (omega arith))
      (rw (join_loop-from_to left (i + 1) threads (λ j p q. h j (omega arith) (omega arith))) refl)

-- `main` creates one thread for each index from 0 to 63 and joins them in this order, exactly when no
-- call of `pthread_create` fails; otherwise it exits.
pub main-created :
    (fails : ℕ → Bool) (threads : ℕ → ℕ)
    → ((main fails threads ≡ done (from_to 0 num_threads))
        × ((j : ℕ) → j < num_threads → fails j ≡ false))
      ⊎ ((main fails threads ≡ exited) × (j : ℕ) × (j < num_threads) × (fails j ≡ true))
unfolding main
main-created fails threads = elim (create_loop-cases fails 64 0 threads) [
  | inl (threads', ok, holds, _, all) ↦
      inl (rw ok (ap done (join_loop-from_to 64 0 threads' holds)), λ j p. all j (omega arith) p)
  | inr (bad, j, p, q, f) ↦ inr (rw bad refl, j, q, f)
]
