-- ===== src/Lab1/Fib.antt =====
-- FIB_TEST and the computation of a service.
use ucb_rtes.Base.{
  ℕ, zero, suc, ◌+◌, ◌-◌, ◌^◌, ◌<◌, ◌≤◌, ◌≡◌, refl, true, arith, ltb, if◌then◌else◌, lt→ltb, ap,
  ◌∙◌,
}
use ucb_rtes.Base.Run.{Run, done, running, ◌>>=◌}
use ucb_rtes.Fibonacci.{
  fibonacci, fibonacci-zero, fibonacci-one, fibonacci-two, fibonacci-add, fibonacci-lt,
  fibonacci_48, u32,
}

abbrev pub fib_test_cycles : ℕ
fib_test_cycles = 100

abbrev pub fib_limit : ℕ
fib_limit = 10

abbrev pub fib_limit_for_32_bit : ℕ
fib_limit_for_32_bit = 47

-- The global variables of the macro, `unsigned int`.
pub record Globals : Type 0 where
  pub idx : ℕ
  pub jdx : ℕ
  pub fib : ℕ
  pub fib0 : ℕ
  pub fib1 : ℕ

-- The inner `while`.
unfoldable pub fib_while : ℕ → ℕ → Globals → Run Globals
fib_while zero seq_cnt g = running
fib_while (suc fuel) seq_cnt g =
    let again = fib_while fuel seq_cnt (record g {
      fib0 = g.fib1;
      fib1 = g.fib;
      fib = u32 (g.fib1 + g.fib);
      jdx = u32 (g.jdx + 1);
    }) in
    if ltb g.jdx seq_cnt then again else done g

-- The body of the `for`, up to the `while`.
abbrev pub fib_start : Globals → Globals
fib_start g = record g { fib0 = 0; fib1 = 1; jdx = 1; fib = u32 (0 + 1) }

-- The `for` has the fuel `rounds`, the `while` in it has `fuel`.
unfoldable pub fib_for : ℕ → ℕ → ℕ → ℕ → Globals → Run Globals
fib_for zero fuel seq_cnt iter_cnt g = running
fib_for (suc rounds) fuel seq_cnt iter_cnt g =
    let again = fib_while fuel seq_cnt (fib_start g) >>= λ h.
    fib_for rounds fuel seq_cnt iter_cnt (record h { idx = u32 (h.idx + 1) }) in
    if ltb g.idx iter_cnt then again else done g

unfoldable pub fib_test : ℕ → ℕ → ℕ → ℕ → Globals → Run Globals
fib_test rounds fuel seq_cnt iter_cnt g =
    fib_for rounds fuel seq_cnt iter_cnt (record g { idx = 0 })

-- The globals k rounds into the `while`.
abbrev at : ℕ → ℕ → Globals
at i k = record {
  idx = i;
  jdx = k + 1;
  fib = u32 (fibonacci (k + 2));
  fib0 = u32 (fibonacci k);
  fib1 = u32 (fibonacci (k + 1));
}

round :
    (i k : ℕ)
    → k + 2 < 2 ^ 32
    → ◌≡◌ {A = Globals}
        (record {
          idx = i;
          jdx = u32 (k + 1 + 1);
          fib = u32 (u32 (fibonacci (k + 1)) + u32 (fibonacci (k + 2)));
          fib0 = u32 (fibonacci (k + 1));
          fib1 = u32 (fibonacci (k + 2));
        })
        (at i (k + 1))
round i k h = ground (arith, fibonacci-add (k + 1), e)
  where
    e : k + 1 + 1 ≡ k + 2
    e = omega arith

fib_while-at :
    (n fuel seq_cnt i k : ℕ)
    → n < fuel
    → k + 1 + n ≡ seq_cnt
    → seq_cnt < 2 ^ 32
    → fib_while fuel seq_cnt (at i k) ≡ done (at i (k + n))
unfolding fib_while
fib_while-at n zero seq_cnt i k f e h = absurd (omega arith)
fib_while-at zero (suc fuel) seq_cnt i k f e h =
    let e1 : k + 0 ≡ k = omega arith in rw e1 (ground arith)
fib_while-at (suc n) (suc fuel) seq_cnt i k f e h =
    let t : ltb (k + 1) seq_cnt ≡ true = lt→ltb _ _ (omega arith) in
    let e1 : k + suc n ≡ k + 1 + n = omega arith in
    rw t (
      rw (round i k (omega arith))
        (rw e1 (fib_while-at n fuel seq_cnt i (k + 1) (omega arith) (omega arith) h)))

-- What a whole inner computation leaves.
abbrev pub result : ℕ → ℕ → Globals
result i s = record {
  idx = i;
  jdx = s;
  fib = u32 (fibonacci (s + 1));
  fib0 = u32 (fibonacci (s - 1));
  fib1 = u32 (fibonacci s);
}

fib_start-at : (g : Globals) → fib_start g ≡ at g.idx 0
fib_start-at g = rw fibonacci-zero (rw fibonacci-one (rw fibonacci-two refl))

at-result : (i s : ℕ) → 1 ≤ s → at i (0 + (s - 1)) ≡ result i s
at-result i s lo =
    let e1 : 0 + (s - 1) ≡ s - 1 = omega arith in
    let e2 : s - 1 + 1 ≡ s = omega arith in
    let e3 : s - 1 + 2 ≡ s + 1 = omega arith in rw e1 (rw e2 (rw e3 refl))

fib_while-start :
    (fuel s : ℕ)
    → (g : Globals) → 1 ≤ s
    → s < 2 ^ 32
    → s ≤ fuel
    → fib_while fuel s (fib_start g) ≡ done (result g.idx s)
fib_while-start fuel s g lo hi f = rw (fib_start-at g) (
    fib_while-at (s - 1) fuel s g.idx 0 (omega arith) (omega arith) hi
    ∙ ap done (at-result g.idx s lo))

-- The state in front of round i: what the rounds before it left, or anything.
fib_for-result :
    (n rounds fuel s i : ℕ)
    → (g : Globals) → 1 ≤ s
    → s < 2 ^ 32
    → s ≤ fuel
    → n + 1 < rounds
    → g.idx ≡ i
    → i + n + 1 < 2 ^ 32
    → fib_for rounds fuel s (i + n + 1) g ≡ done (result (i + n + 1) s)
unfolding fib_for
fib_for-result n zero fuel s i g lo hi f r e h = absurd (omega arith)
fib_for-result zero (suc zero) fuel s i g lo hi f r e h = absurd (omega arith)
fib_for-result zero (suc (suc rounds)) fuel s i g lo hi f r e h =
    rw (fib_while-start fuel s g lo hi f) (ground arith)
fib_for-result (suc n) (suc rounds) fuel s i g lo hi f r e h =
    let t : i + suc n + 1 ≡ (i + 1) + n + 1 = omega arith in
    let u : u32 (i + 1) ≡ i + 1 = omega arith in
    let c : ltb g.idx (i + suc n + 1) ≡ true = lt→ltb _ _ (omega arith) in
    rw c (
      rw (fib_while-start fuel s g lo hi f) (
        rw t
          (fib_for-result n rounds fuel s (i + 1) _ lo hi f (omega arith) (rw e u) (omega arith))))

-- FIB_TEST ends, whatever the variables held before, and leaves the Fibonacci number that follows
-- place seqCnt in `fib`, modulo 2 ^ 32, and its two predecessors in `fib1` and `fib0`. Both counts are
-- at least 1 and below 2 ^ 32; the loops have fuel for iterCnt + 1 tests and for seqCnt.
pub fib_test-result :
    (rounds fuel s iter_cnt : ℕ) (g : Globals)
    → 1 ≤ s
    → s < 2 ^ 32
    → 1 ≤ iter_cnt
    → iter_cnt < 2 ^ 32
    → iter_cnt < rounds
    → s ≤ fuel
    → fib_test rounds fuel s iter_cnt g ≡ done (result iter_cnt s)
unfolding fib_test
fib_test-result rounds fuel s iter_cnt g lo hi il ih r f =
    let e : 0 + (iter_cnt - 1) + 1 ≡ iter_cnt = omega arith in
    rw e at (
      fib_for-result (iter_cnt - 1) rounds fuel s 0 (record g { idx = 0 }) lo hi f (omega arith)
        refl (omega arith))

-- No addition of FIB_TEST wraps, for seqCnt up to 46: what is in `fib` is the Fibonacci number itself.
pub fib_test-exact :
    (rounds fuel s iter_cnt : ℕ) (g : Globals)
    → 1 ≤ s
    → s ≤ 46
    → 1 ≤ iter_cnt
    → iter_cnt < 2 ^ 32
    → iter_cnt < rounds
    → s ≤ fuel
    → (h : Globals) × (fib_test rounds fuel s iter_cnt g ≡ done h)
      × (h.fib ≡ fibonacci (s + 1))
      × (h.fib1 ≡ fibonacci s)
      × (h.fib0 ≡ fibonacci (s - 1))
fib_test-exact rounds fuel s iter_cnt g lo hi il ih r f = (
  _,
  fib_test-result rounds fuel s iter_cnt g lo (omega arith) il ih r f,
  omega (arith, fibonacci-lt (s + 1) (omega arith)),
  omega (arith, fibonacci-lt s (omega arith)),
  omega (arith, fibonacci-lt (s - 1) (omega arith)),
)

-- For seqCnt 47, which FIB_LIMIT_FOR_32_BIT names as the limit, and iterCnt from 1 on, FIB_TEST
-- leaves in `fib` less than the Fibonacci number at the place after it: the last addition wraps. The
-- loops have fuel for iterCnt + 1 tests and for 47.
pub fib_limit-wraps :
    (rounds fuel iter_cnt : ℕ) (g : Globals)
    → 1 ≤ iter_cnt
    → iter_cnt < 2 ^ 32
    → iter_cnt < rounds
    → fib_limit_for_32_bit ≤ fuel
    → (h : Globals) × (fib_test rounds fuel fib_limit_for_32_bit iter_cnt g ≡ done h)
      × (h.fib < fibonacci (fib_limit_for_32_bit + 1))
fib_limit-wraps rounds fuel iter_cnt g il ih r f = (
  _,
  fib_test-result rounds fuel 47 iter_cnt g (omega arith) (omega arith) il ih r f,
  omega (arith, fibonacci_48),
)
