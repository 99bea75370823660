-- ===== src/Lab1/Preemption.antt =====
-- lab1.c: fib10 and fib20 run FIB_TEST on the same global variables, and fib10 can preempt fib20. What
-- fib20 computes goes on with what fib10 left. Each assignment is taken as one step.
use ucb_rtes.Base.{
  ℕ, zero, suc, ◌+◌, ◌-◌, ◌^◌, ◌<◌, ◌≤◌, ◌≡◌, ◌≢◌, refl, true, false, arith, ltb, Bool-cases, inl,
  inr,
}
use ucb_rtes.Base.Run.{Run, done, ◌>>=◌}
use ucb_rtes.Fibonacci.{u32}
use ucb_rtes.Lab1.Fib.{
  Globals, fib_while, fib_for, fib_start, fib_test, fib_test_cycles, result, fib_test-result,
}
use ucb_rtes.Lab1.Services.{burn, burn-result}

-- Where a call of FIB_TEST stands: in front of `idx=0`, of the test of the `for`, of an assignment of
-- its body, of the test of the `while`, of an assignment of its body, or of `idx++`.
pub data Place : Type 0 where
  at_init at_for : Place
  at_fib0 at_fib1 at_jdx at_fib : Place
  at_while while_fib0 while_fib1 while_fib while_jdx : Place
  at_next : Place

-- The variables when the call comes to the test of its `while` from a place inside a round.
abbrev pub entered : Place → Globals → Globals
entered at_fib0 g = fib_start g
entered at_fib1 g = record g { fib1 = 1; jdx = 1; fib = u32 (g.fib0 + 1) }
entered at_jdx g = record g { jdx = 1; fib = u32 (g.fib0 + g.fib1) }
entered at_fib g = record g { fib = u32 (g.fib0 + g.fib1) }
entered while_fib0 g = record g {
  fib0 = g.fib1;
  fib1 = g.fib;
  fib = u32 (g.fib1 + g.fib);
  jdx = u32 (g.jdx + 1);
}
entered while_fib1 g = record g { fib1 = g.fib; fib = u32 (g.fib0 + g.fib); jdx = u32 (g.jdx + 1) }
entered while_fib g = record g { fib = u32 (g.fib0 + g.fib1); jdx = u32 (g.jdx + 1) }
entered while_jdx g = record g { jdx = u32 (g.jdx + 1) }
entered at_init g = g
entered at_for g = g
entered at_while g = g
entered at_next g = g

-- What the call does from `idx++` on, and from the test of the `while` on.
abbrev pub next_round : ℕ → ℕ → ℕ → ℕ → Globals → Run Globals
next_round rounds fuel seq_cnt iter_cnt h =
    fib_for rounds fuel seq_cnt iter_cnt (record h { idx = u32 (h.idx + 1) })

abbrev pub end_round : ℕ → ℕ → ℕ → ℕ → Globals → Run Globals
end_round rounds fuel seq_cnt iter_cnt g =
    fib_while fuel seq_cnt g >>= next_round rounds fuel seq_cnt iter_cnt

-- What the call does from a place on.
unfoldable pub rest_of : Place → ℕ → ℕ → ℕ → ℕ → Globals → Run Globals
rest_of at_init rounds fuel seq_cnt iter_cnt g = fib_test rounds fuel seq_cnt iter_cnt g
rest_of at_for rounds fuel seq_cnt iter_cnt g = fib_for rounds fuel seq_cnt iter_cnt g
rest_of at_next rounds fuel seq_cnt iter_cnt g = next_round rounds fuel seq_cnt iter_cnt g
rest_of place rounds fuel seq_cnt iter_cnt g =
    end_round rounds fuel seq_cnt iter_cnt (entered place g)

-- There, fib10 does the work of a whole release, with `required` calls of FIB_TEST, and then the call
-- goes on.
unfoldable pub preempted : ℕ → ℕ → ℕ → Place → ℕ → ℕ → ℕ → Globals → Run Globals
preempted burns inner required place rounds fuel seq_cnt g =
    burn burns inner seq_cnt required 0 g >>= λ r.
    rest_of place rounds fuel seq_cnt fib_test_cycles r.1

-- The `while` ends from any values, and leaves `idx`.
fib_while-ends :
    (n fuel s : ℕ) (g : Globals)
    → s < 2 ^ 32
    → n < fuel
    → s ≤ g.jdx + n
    → (h : Globals) × (fib_while fuel s g ≡ done h) × (h.idx ≡ g.idx)
unfolding fib_while
fib_while-ends n zero s g hi f b = absurd (omega arith)
fib_while-ends n (suc fuel) s g hi f b = elim (Bool-cases (ltb g.jdx s)) [
  | inr over ↦ (g, rw over refl, refl)
  | inl again ↦ rw again (fib_while-more n fuel s g hi f b again (fib_while-ends (n - 1) fuel s))
]
  where
    fib_while-more :
        (n fuel s : ℕ) (g : Globals)
        → s < 2 ^ 32
        → n < suc fuel
        → s ≤ g.jdx + n
        → ltb g.jdx s ≡ true
        → ((g' : Globals)
            → s < 2 ^ 32
            → n - 1 < fuel
            → s ≤ g'.jdx + (n - 1)
            → (h : Globals) × (fib_while fuel s g' ≡ done h) × (h.idx ≡ g'.idx))
        → (h : Globals) × (fib_while fuel s (record g {
          fib0 = g.fib1;
          fib1 = g.fib;
          fib = u32 (g.fib1 + g.fib);
          jdx = u32 (g.jdx + 1);
        })
            ≡ done h)
          × (h.idx ≡ g.idx)
    fib_while-more n fuel s g hi f b again ih = ih _ hi (ground arith) (ground arith)

-- The end of the last round, from the test of the `while` on: `idx` is not below its limit.
end_round-ends :
    (s : ℕ) (g : Globals)
    → s < 2 ^ 32
    → 1 ≤ g.jdx
    → 1 ≤ s
    → g.idx ≡ fib_test_cycles
    → (h : Globals) × (end_round 1 s s fib_test_cycles g ≡ done h) × (fib_test_cycles ≤ h.idx)
unfolding fib_for
end_round-ends s g hi j lo i =
    let (h, e, same) = fib_while-ends (s - 1) s s g hi (omega arith) (omega arith) in
    let k : h.idx ≡ 100 = omega (arith, same, i) in
    let c : ltb (u32 (h.idx + 1)) 100 ≡ false = ground (arith, k) in
    (record h { idx = u32 (h.idx + 1) }, rw e (rw c refl), ground (arith, k))

rest_of-result :
    (place : Place) (s : ℕ)
    → place ≢ at_init
    → 1 ≤ s
    → s < 2 ^ 31
    → (h : Globals) × (rest_of place 1 s s fib_test_cycles (result fib_test_cycles s) ≡ done h)
      × (fib_test_cycles ≤ h.idx)
unfolding rest_of fib_for
rest_of-result at_init s p lo hi = absurd (p refl)
rest_of-result at_for s p lo hi = (_, refl, omega arith)
rest_of-result at_next s p lo hi = (_, refl, omega arith)
rest_of-result at_fib0 s p lo hi =
    end_round-ends s (entered at_fib0 (result fib_test_cycles s)) (omega arith) (omega arith) lo
      refl
rest_of-result at_fib1 s p lo hi =
    end_round-ends s (entered at_fib1 (result fib_test_cycles s)) (omega arith) (omega arith) lo
      refl
rest_of-result at_jdx s p lo hi =
    end_round-ends s (entered at_jdx (result fib_test_cycles s)) (omega arith) (omega arith) lo refl
rest_of-result at_fib s p lo hi =
    end_round-ends s (entered at_fib (result fib_test_cycles s)) (omega arith) (omega arith) lo refl
rest_of-result at_while s p lo hi =
    end_round-ends s (entered at_while (result fib_test_cycles s)) (omega arith) (omega arith) lo
      refl
rest_of-result while_fib0 s p lo hi =
    end_round-ends s (entered while_fib0 (result fib_test_cycles s)) (omega arith) (omega arith) lo
      refl
rest_of-result while_fib1 s p lo hi =
    end_round-ends s (entered while_fib1 (result fib_test_cycles s)) (omega arith) (omega arith) lo
      refl
rest_of-result while_fib s p lo hi =
    end_round-ends s (entered while_fib (result fib_test_cycles s)) (omega arith) (omega arith) lo
      refl
rest_of-result while_jdx s p lo hi =
    end_round-ends s (entered while_jdx (result fib_test_cycles s)) (omega arith) (omega arith) lo
      refl

-- Wherever a call of FIB_TEST of fib20 stands, but in front of its first assignment, idx=0, and however
-- many rounds it has still to make: if fib10 does the work of a release there, the call ends with at
-- most the round that it is in and one test of the `for`, and makes no further round. Each assignment
-- is taken as one step. The count seqIterations is at least 1 and below 2 ^ 31, and the work of fib10
-- has the fuel that it takes.
pub preempted-ends :
    (burns inner required : ℕ) (place : Place) (s : ℕ) (g : Globals)
    → place ≢ at_init
    → 1 ≤ s
    → s < 2 ^ 31
    → s ≤ inner
    → required < burns
    → (h : Globals) × (preempted burns inner required place 1 s s g ≡ done h)
      × (fib_test_cycles ≤ h.idx)
unfolding preempted
preempted-ends burns inner required place s g p lo hi f b =
    let (h, e, l) = rest_of-result place s p lo hi in
    (h, rw (burn-result burns inner s required g lo (omega arith) f b) e, l)

-- In front of idx=0 the call still makes all its rounds, with fuel for them, and leaves the result of
-- FIB_TEST.
pub preempted-init :
    (burns inner required rounds fuel s : ℕ) (g : Globals)
    → 1 ≤ s
    → s < 2 ^ 31
    → s ≤ inner
    → required < burns
    → fib_test_cycles < rounds
    → s ≤ fuel
    → preempted burns inner required at_init rounds fuel s g ≡ done (result fib_test_cycles s)
unfolding preempted rest_of
preempted-init burns inner required rounds fuel s g lo hi f b r u =
    rw (burn-result burns inner s required g lo (omega arith) f b) (
      fib_test-result rounds fuel s fib_test_cycles _ lo (omega arith) (omega arith) (omega arith) r
        u)
