-- ===== src/RtThread/Fib.antt =====
-- FIB_TEST of 06-rt-simplethread/pthread.c, which does not reset its variables: each round of the
-- outer loop goes on from the numbers that the round before left.
use ucb_rtes.Base.{
  ℕ, zero, suc, ◌+◌, ◌-◌, ◌*◌, ◌^◌, ◌<◌, ◌≤◌, ◌≡◌, refl, true, arith, ltb, if◌then◌else◌, lt→ltb,
  ap, sym,
}
use ucb_rtes.Base.Int.{ℤ, pos, ◌-ℤ◌}
use ucb_rtes.Base.Word.{to_int}
use ucb_rtes.Base.Run.{Run, done, running, ◌>>=◌}
use ucb_rtes.Fibonacci.{fibonacci, fibonacci-zero, fibonacci-one, fibonacci-two, fibonacci-add, u32}

-- The global variables, `unsigned int`.
pub record Globals : Type 0 where
  pub idx : ℕ
  pub jdx : ℕ
  pub fib : ℕ
  pub fib0 : ℕ
  pub fib1 : ℕ

-- The values that they are initialised with.
abbrev pub globals : Globals
globals = record { idx = 0; jdx = 1; fib = 0; fib0 = 0; fib1 = 1 }

-- The inner `while`.
unfoldable pub fib_while : ℕ → ℕ → Globals → Run Globals
fib_while zero seq_cnt g = running
fib_while (suc fuel) seq_cnt g =
    let again = fib_while fuel seq_cnt (record g {
      fib0 = g.fib1;
      fib1 = g.fib;
      fib = u32 (g.fib1 + g.fib);
      jdx = u32 (g.jdx + 1);
    }) in
    if ltb g.jdx seq_cnt then again else done g

-- The `for`, with fuel `rounds`; the `while` in it has `fuel`.
unfoldable pub fib_for : ℕ → ℕ → ℕ → ℕ → Globals → Run Globals
fib_for zero fuel seq_cnt iter_cnt g = running
fib_for (suc rounds) fuel seq_cnt iter_cnt g =
    let again = fib_while fuel seq_cnt (record g { fib = u32 (g.fib0 + g.fib1) }) >>= λ h.
    fib_for rounds fuel seq_cnt iter_cnt (record h { jdx = 0; idx = u32 (h.idx + 1) }) in
    if ltb g.idx iter_cnt then again else done g

-- The function: its result, which is `idx` as an `int`, and the variables behind it.
unfoldable pub fib_test : ℕ → ℕ → ℕ → ℕ → Globals → Run (ℤ × Globals)
fib_test rounds fuel seq_cnt iter_cnt g =
    fib_for rounds fuel seq_cnt iter_cnt (record g { idx = 0 }) >>= λ h.
    done (to_int (pos h.idx), h)

-- In the `while`: the numbers stand at place k, with `jdx` at j.
abbrev at : ℕ → ℕ → ℕ → Globals
at i j k = record {
  idx = i;
  jdx = j;
  fib = u32 (fibonacci (k + 2));
  fib0 = u32 (fibonacci k);
  fib1 = u32 (fibonacci (k + 1));
}

round :
    (i j k : ℕ)
    → j + 1 < 2 ^ 32
    → ◌≡◌ {A = Globals}
        (record {
          idx = i;
          jdx = u32 (j + 1);
          fib = u32 (u32 (fibonacci (k + 1)) + u32 (fibonacci (k + 2)));
          fib0 = u32 (fibonacci (k + 1));
          fib1 = u32 (fibonacci (k + 2));
        })
        (at i (j + 1) (k + 1))
round i j k h = ground (arith, fibonacci-add (k + 1), e)
  where
    e : k + 1 + 1 ≡ k + 2
    e = omega arith

fib_while-at :
    (n fuel seq_cnt i j k : ℕ)
    → n < fuel
    → j + n ≡ seq_cnt
    → seq_cnt < 2 ^ 32
    → fib_while fuel seq_cnt (at i j k) ≡ done (at i (j + n) (k + n))
unfolding fib_while
fib_while-at n zero seq_cnt i j k f e h = absurd (omega arith)
fib_while-at zero (suc fuel) seq_cnt i j k f e h =
    let e1 : k + 0 ≡ k = omega arith in
    let e2 : j + 0 ≡ j = omega arith in rw e1 (rw e2 (ground arith))
fib_while-at (suc n) (suc fuel) seq_cnt i j k f e h =
    let t : ltb j seq_cnt ≡ true = lt→ltb _ _ (omega arith) in
    let e1 : k + suc n ≡ k + 1 + n = omega arith in
    let e2 : j + suc n ≡ j + 1 + n = omega arith in
    rw t (
      rw (round i j k (omega arith)) (
        rw e1
          (rw e2 (fib_while-at n fuel seq_cnt i (j + 1) (k + 1) (omega arith) (omega arith) h))))

-- Between two rounds of the `for`: the numbers stand at place k, and `jdx` is 0.
abbrev pub between : ℕ → ℕ → Globals
between i k = record {
  idx = i;
  jdx = 0;
  fib = u32 (fibonacci (k + 2));
  fib0 = u32 (fibonacci k);
  fib1 = u32 (fibonacci (k + 1));
}

start :
    (i j k f : ℕ)
    → ◌≡◌ {A = Globals}
        (record {
          idx = i;
          jdx = j;
          fib = u32 (u32 (fibonacci k) + u32 (fibonacci (k + 1)));
          fib0 = u32 (fibonacci k);
          fib1 = u32 (fibonacci (k + 1));
        })
        (at i j k)
start i j k f = ground (arith, fibonacci-add k)

fib_for-between :
    (n rounds fuel s i k : ℕ)
    → s < 2 ^ 32
    → s < fuel
    → n < rounds
    → i + n < 2 ^ 32
    → fib_for rounds fuel s (i + n) (between i k) ≡ done (between (i + n) (k + n * s))
unfolding fib_for
fib_for-between n zero fuel s i k hi f r h = absurd (omega arith)
fib_for-between zero (suc rounds) fuel s i k hi f r h =
    let e1 : k + 0 * s ≡ k = omega arith in
    let e2 : i + 0 ≡ i = omega arith in rw e1 (rw e2 (ground arith))
fib_for-between (suc n) (suc rounds) fuel s i k hi f r h =
    let t : ltb i (i + suc n) ≡ true = lt→ltb _ _ (omega arith) in
    let e1 : i + suc n ≡ i + 1 + n = omega arith in
    let e2 : k + suc n * s ≡ k + s + n * s = ground arith in
    let e3 : u32 (i + 1) ≡ i + 1 = omega arith in
    let z : 0 + s ≡ s = omega arith in
    rw t (
      rw (start i 0 k) (
        rw (fib_while-at s fuel s i 0 k f z hi) (
          rw e1 (
            rw e2 (
              rw e3 (
                fib_for-between n rounds fuel s (i + 1) (k + s) hi f (omega arith)
                  (omega arith)))))))

globals-at :
    (g : Globals)
    → g ≡ globals
    → ◌≡◌ {A = Globals} (record g { idx = 0; fib = u32 (g.fib0 + g.fib1) }) (at 0 1 0)
globals-at g e = rw e (rw fibonacci-zero (rw fibonacci-one (rw fibonacci-two refl)))

fib_for-globals :
    (n rounds fuel s : ℕ)
    → 1 ≤ s
    → s < 2 ^ 32
    → s < fuel
    → n + 1 < rounds
    → n + 1 < 2 ^ 32
    → fib_for rounds fuel s (1 + n) globals ≡ done (between (1 + n) (s - 1 + n * s))
unfolding fib_for
fib_for-globals n zero fuel s lo hi f r h = absurd (omega arith)
fib_for-globals n (suc rounds) fuel s lo hi f r h =
    let t : ltb 0 (1 + n) ≡ true = lt→ltb _ _ (omega arith) in
    let e : 1 + (s - 1) ≡ s = omega arith in
    let w : fib_while fuel s (at 0 1 0) ≡ done (at 0 (1 + (s - 1)) (0 + (s - 1))) =
      fib_while-at (s - 1) fuel s 0 1 0 (omega arith) e hi in
    let z : 0 + (s - 1) ≡ s - 1 = omega arith in
    rw t (
      rw (globals-at globals refl)
        (rw w (rw z (fib_for-between n rounds fuel s 1 (s - 1) hi f (omega arith) (omega arith)))))

-- An `unsigned int` as an `int`: itself below 2 ^ 31, and less by 2 ^ 32 from there on.
abbrev pub as_int : ℕ → ℤ
as_int n = if ltb n (2 ^ 31) then pos n else pos n -ℤ pos (2 ^ 32)

to_int-as_int : (n : ℕ) → n < 2 ^ 32 → to_int (pos n) ≡ as_int n
unfolding to_int ◌-ℤ◌
to_int-as_int n hi = ground arith

-- The first call of FIB_TEST, on the variables as they are initialised, ends and returns iterCnt as an `int`, which is iterCnt itself
-- below 2 ^ 31, and iterCnt - 2 ^ 32, a negative number, from there on. It
-- leaves in `fib1` the Fibonacci number at place iterCnt * seqCnt, modulo 2 ^ 32, with its neighbours
-- in `fib0` and `fib`: the rounds of the outer loop do not start afresh. Both counts are at least 1
-- and below 2 ^ 32, and the loops have fuel for iterCnt + 1 and seqCnt + 1 tests.
pub fib_test-returns :
    (rounds fuel s iter_cnt : ℕ)
    → 1 ≤ s
    → s < 2 ^ 32
    → 1 ≤ iter_cnt
    → iter_cnt < 2 ^ 32
    → s < fuel
    → iter_cnt < rounds
    → (h : Globals) × (fib_test rounds fuel s iter_cnt globals ≡ done (as_int iter_cnt, h))
      × (h.fib0 ≡ u32 (fibonacci (iter_cnt * s - 1)))
      × (h.fib1 ≡ u32 (fibonacci (iter_cnt * s)))
      × (h.fib ≡ u32 (fibonacci (iter_cnt * s + 1)))
unfolding fib_test
fib_test-returns rounds fuel s zero lo hi il ih f r = absurd (omega arith)
fib_test-returns rounds fuel s (suc n) lo hi il ih f r =
    let q : suc n * s ≡ s + n * s = ground arith in
    let a : suc n * s - 1 ≡ s - 1 + n * s = omega (arith, q) in
    let b : suc n * s ≡ s - 1 + n * s + 1 = omega (arith, q) in
    let c : suc n * s + 1 ≡ s - 1 + n * s + 2 = omega (arith, q) in
    let d : suc n ≡ 1 + n = omega arith in
    (
      between (1 + n) (s - 1 + n * s),
      rw d (
          rw (fib_for-globals n rounds fuel s lo hi f (omega arith) (omega arith)) (
            ap (λ z. done (z, between (1 + n) (s - 1 + n * s)))
              (to_int-as_int (1 + n) (omega arith)))),
      ap (λ x. u32 (fibonacci x)) (sym a),
      ap (λ x. u32 (fibonacci x)) (sym b),
      ap (λ x. u32 (fibonacci x)) (sym c),
    )
