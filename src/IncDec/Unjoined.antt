-- ===== src/IncDec/Unjoined.antt =====
-- 02-incdecthread/main.cpp: the same two loops, with COUNT at 10000, in threads that are joined by their
-- destructors, at the end of `main`: the sums are printed before that. Both are taken to be read at
-- once.
use ucb_rtes.Base.{ℕ, zero, suc, ◌+◌, ◌^◌, ◌<◌, ◌≤◌, ◌≡◌, refl, arith}
use ucb_rtes.Base.Int.{ℤ, pos}
use ucb_rtes.Triangle.{add_int}
use ucb_rtes.IncDec.{load, store, fetch, State, init, inc_thread, inc_step, Reach, here, next}

abbrev pub count : ℕ
count = 10_000

-- What `main` can print, with `gsum` and `agsum`: it does not wait for the threads.
pub data IsPrinted (n : ℕ) (gsum agsum : ℤ) : Type 0 where
  println : {s : State} → Reach n init s → s.gsum ≡ gsum → s.agsum ≡ agsum → IsPrinted n gsum agsum

-- The increment thread alone, for `left` rounds.
inc_alone :
    (n left i : ℕ) (s : State)
    → n < 2 ^ 31
    → i + left ≤ n
    → s.inc ≡ record { i = i; pc = load }
    → s.gsum ≡ pos i
    → s.agsum ≡ pos i
    → (t : State) × Reach n s t × (t.gsum ≡ pos (i + left)) × (t.agsum ≡ pos (i + left))
unfolding inc_thread
inc_alone n zero i s h e p q r = (s, here, ground (arith, q), ground (arith, r))
inc_alone n (suc left) i s h e p q r =
    let s₁ : State = record s { inc = record { i = i; pc = store s.gsum } } in
    let s₂ : State = record s₁ { gsum = pos (i + 1); inc = record { i = i; pc = fetch } } in
    let s₃ : State = record s₂ { agsum = pos (i + 1); inc = record { i = i + 1; pc = load } } in
    let (t, steps, a, b) = inc_alone n left (i + 1) s₃ h (omega arith) refl refl refl in
    let w : i + suc left ≡ i + 1 + left = omega arith in
    (
      t,
      next (inc_step {t = s₁} (ground arith)) (
          next (inc_step {t = s₂} (ground (arith, q, add_int i 1)))
            (next (inc_step {t = s₃} (ground (arith, r, add_int i 1))) steps)),
      rw w a,
      rw w b,
    )

-- `main` can print any number up to COUNT for the atomic sum too, with the plain one equal to it, where
-- a `main` that joined its threads first would print 0: COUNT is below 2 ^ 31.
pub prints_early : (n i : ℕ) → n < 2 ^ 31 → i ≤ n → IsPrinted n (pos i) (pos i)
prints_early n i h k =
    let (t, r, a, b) = inc_alone n i 0 init h (omega arith) refl refl refl in
    let z : 0 + i ≡ i = omega arith in println r (rw z at a) (rw z at b)
