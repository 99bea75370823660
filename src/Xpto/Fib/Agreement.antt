-- ===== src/Xpto/Fib/Agreement.antt =====
-- FIB_TEST of the C++ programs against FIB_TEST of 06-rt-simplethread/pthread.c, whose variables are
-- global.
use ucb_rtes.Base.{
  ℕ, zero, suc, ◌+◌, ◌^◌, ◌<◌, ◌≤◌, ◌%◌, ◌≡◌, refl, Bool-cases, inl, inr, arith, ltb,
}
use ucb_rtes.Base.Int.{ℤ, pos, ◌+ℤ◌}
use ucb_rtes.Base.Word.{to_int, to_int-eq}
use ucb_rtes.Base.Run.{Run, done, exited, running, ◌>>=◌}
use ucb_rtes.Triangle.{add_int}
use ucb_rtes.Fibonacci.{u32}
use ucb_rtes.RtThread.Fib as C
use ucb_rtes.RtThread.Fib.{Globals, globals}
use ucb_rtes.Xpto.Fib.{Locals, fib_while, fib_for, fib_test}

-- The same values.
abbrev pub as_locals : Globals → Locals
as_locals g = record { idx = pos g.idx; jdx = pos g.jdx; fib = g.fib; fib0 = g.fib0; fib1 = g.fib1 }

abbrev pub as_locals_run : Run Globals → Run Locals
as_locals_run (done g) = done (as_locals g)
as_locals_run exited = exited
as_locals_run running = running

fib_while-as_locals :
    (fuel s : ℕ) (g : Globals)
    → s < 2 ^ 31
    → g.jdx < 2 ^ 31
    → fib_while fuel s (as_locals g) ≡ as_locals_run (C.fib_while fuel s g)
unfolding fib_while C.fib_while
fib_while-as_locals zero s g hi j = refl
fib_while-as_locals (suc fuel) s g hi j =
    let e : g.jdx % 2 ^ 32 ≡ g.jdx = omega arith in
    elim (Bool-cases (ltb g.jdx s)) [
      | inl t ↦
          let q : u32 (g.jdx + 1) ≡ g.jdx + 1 = ground arith in
          rw e (
            rw t (
              rw (add_int g.jdx 1 (ground arith)) (
                rw q (
                  fib_while-as_locals fuel s
                    (record g {
                      fib0 = g.fib1;
                      fib1 = g.fib;
                      fib = u32 (g.fib1 + g.fib);
                      jdx = g.jdx + 1;
                    })
                    hi (ground arith)))))
      | inr t ↦ rw e (rw t refl)
    ]

fib_while-idx : (fuel s : ℕ) (g h : Globals) → C.fib_while fuel s g ≡ done h → h.idx ≡ g.idx
unfolding C.fib_while
fib_while-idx zero s g h e = ground arith
fib_while-idx (suc fuel) s g h e = elim (Bool-cases (ltb g.jdx s)) [
  | inl t ↦ fib_while-idx fuel s _ h (rw t at e)
  | inr t ↦ ground arith
]

-- Between two rounds, where the `while` came to `r`.
bind-as_locals :
    (rounds fuel s n i : ℕ) (r : Run Globals)
    → i + 1 < 2 ^ 31
    → ((h : Globals) → r ≡ done h → h.idx ≡ i)
    → ((h : Globals)
        → h.idx ≡ i + 1
        → h.jdx ≡ 0
        → fib_for rounds fuel s n (as_locals h) ≡ as_locals_run (C.fib_for rounds fuel s n h))
    → (as_locals_run r >>= λ h.
        fib_for rounds fuel s n (record h { jdx = pos 0; idx = to_int (h.idx +ℤ pos 1) }))
      ≡ as_locals_run
          (r >>= λ h. C.fib_for rounds fuel s n (record h { jdx = 0; idx = u32 (h.idx + 1) }))
bind-as_locals rounds fuel s n i (done h) b same again =
    let e : h.idx ≡ i = same h refl in
    let q : u32 (h.idx + 1) ≡ h.idx + 1 = ground arith in
    rw (add_int h.idx 1 (omega (arith, e)))
      (rw q (again (record h { jdx = 0; idx = h.idx + 1 }) (omega (arith, e)) refl))
bind-as_locals rounds fuel s n i exited b same again = refl
bind-as_locals rounds fuel s n i running b same again = refl

fib_for-as_locals :
    (rounds fuel s n : ℕ) (g : Globals)
    → s < 2 ^ 31
    → n < 2 ^ 31
    → g.jdx < 2 ^ 31
    → g.idx ≤ n
    → fib_for rounds fuel s n (as_locals g) ≡ as_locals_run (C.fib_for rounds fuel s n g)
unfolding fib_for C.fib_for
fib_for-as_locals zero fuel s n g hi hn j i = refl
fib_for-as_locals (suc rounds) fuel s n g hi hn j i =
    let e : g.idx % 2 ^ 32 ≡ g.idx = omega arith in
    elim (Bool-cases (ltb g.idx n)) [
      | inl t ↦
          let g' : Globals = record g { fib = u32 (g.fib0 + g.fib1) } in
          rw e (
            rw t (
              rw (fib_while-as_locals fuel s g' hi j) (
                bind-as_locals rounds fuel s n g.idx (C.fib_while fuel s g') (ground arith)
                  (λ h. fib_while-idx fuel s g' h)
                  (λ h a b.
                    fib_for-as_locals rounds fuel s n h hi hn (ground arith) (ground arith)))))
      | inr t ↦ rw e (rw t refl)
    ]

-- What the call comes to, with its result.
abbrev pub as_result : Run (ℤ × Globals) → Run (ℤ × Locals)
as_result (done (z, g)) = done (z, as_locals g)
as_result exited = exited
as_result running = running

-- Where `idx` is not above n.
abbrev UpTo : ℕ → Run Globals → Type 0
UpTo n (done h) = h.idx ≤ n
UpTo n exited = Unit
UpTo n running = Unit

bind-UpTo :
    (rounds fuel s n i : ℕ) (r : Run Globals)
    → i < n
    → n < 2 ^ 31
    → ((h : Globals) → r ≡ done h → h.idx ≡ i)
    → ((h : Globals) → h.idx ≤ n → UpTo n (C.fib_for rounds fuel s n h))
    → UpTo n (r >>= λ h. C.fib_for rounds fuel s n (record h { jdx = 0; idx = u32 (h.idx + 1) }))
bind-UpTo rounds fuel s n i (done h) lt hi same again =
    let e : h.idx ≡ i = same h refl in
    let q : u32 (h.idx + 1) ≡ h.idx + 1 = ground arith in
    rw q (again (record h { jdx = 0; idx = h.idx + 1 }) (omega (arith, e)))
bind-UpTo rounds fuel s n i exited lt hi same again = tt
bind-UpTo rounds fuel s n i running lt hi same again = tt

fib_for-UpTo :
    (rounds fuel s n : ℕ) (g : Globals)
    → n < 2 ^ 31
    → g.idx ≤ n
    → UpTo n (C.fib_for rounds fuel s n g)
unfolding C.fib_for
fib_for-UpTo zero fuel s n g hi h = tt
fib_for-UpTo (suc rounds) fuel s n g hi h = elim (Bool-cases (ltb g.idx n)) [
  | inl t ↦ rw t (
      bind-UpTo rounds fuel s n g.idx _ (ground arith) hi (λ h'. fib_while-idx fuel s _ h')
        (λ h'. fib_for-UpTo rounds fuel s n h' hi))
  | inr t ↦ rw t h
]

result_of :
    (n : ℕ) (r : Run Globals)
    → n < 2 ^ 31
    → UpTo n r
    → (as_locals_run r >>= λ h. done (h.idx, h))
      ≡ as_result (r >>= λ h. done (to_int (pos h.idx), h))
result_of n (done g) hi h = rw (to_int-eq (pos g.idx) (omega arith, omega arith)) refl
result_of n exited hi h = refl
result_of n running hi h = refl

-- With local variables, every call does what the first call of FIB_TEST of pthread.c does, with the
-- same fuel: both counts are below 2 ^ 31.
pub fib_test-first_call :
    (rounds fuel s n : ℕ)
    → s < 2 ^ 31
    → n < 2 ^ 31
    → fib_test rounds fuel s n ≡ as_result (C.fib_test rounds fuel s n globals)
unfolding fib_test C.fib_test
fib_test-first_call rounds fuel s n hi hn =
    rw (fib_for-as_locals rounds fuel s n globals hi hn (omega arith) (omega arith))
      (result_of n _ hn (fib_for-UpTo rounds fuel s n globals hn (omega arith)))
