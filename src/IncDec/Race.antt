-- ===== src/IncDec/Race.antt =====
-- The race on `gsum`: both ends of its range are reached by whole runs.
use ucb_rtes.Base.{ℕ, zero, suc, ◌+◌, ◌^◌, ◌<◌, ◌≡◌, refl, ◌∙◌, some, arith}
use ucb_rtes.Base.Int.{ℤ, pos, ◌+ℤ◌, ◌-ℤ◌}
use ucb_rtes.Base.Word.{to_int, to_int-eq}
use ucb_rtes.IncDec.{
  load, store, fetch, State, init, inc_thread, dec_thread, inc_step, dec_step, Reach, here, next,
  IsDone, incdec_amount,
}

Reach-trans : {n : ℕ} {s t u : State} → Reach n s t → Reach n t u → Reach n s u
Reach-trans here q = q
Reach-trans (next st r) q = next st (Reach-trans r q)

plus : (i n : ℕ) → i < n → n < 2 ^ 31 → to_int (pos i +ℤ incdec_amount) ≡ pos (i + 1)
unfolding ◌+ℤ◌
plus i n h k = ground (arith, to_int-eq (pos i +ℤ incdec_amount))

-- -i
minus : ℕ → ℤ
minus i = pos 0 -ℤ pos i

minus-zero : pos 0 ≡ minus 0
unfolding minus ◌-ℤ◌
minus-zero = refl

minus-suc : (i n : ℕ) → i < n → n < 2 ^ 31 → to_int (minus i -ℤ incdec_amount) ≡ minus (i + 1)
unfolding minus ◌-ℤ◌
minus-suc i n h k = ground (arith, to_int-eq (minus i -ℤ incdec_amount))

-- The increment thread alone, from a sum that it has made itself.
inc_rounds :
    (n left i : ℕ) (s : State)
    → n < 2 ^ 31
    → i + left ≡ n
    → s.inc ≡ record { i = i; pc = load }
    → s.gsum ≡ pos i
    → (t : State) × Reach n s t
      × (t.inc ≡ record { i = n; pc = load })
      × (t.dec ≡ s.dec)
      × (t.gsum ≡ pos n)
unfolding inc_thread
inc_rounds n zero i s h e p q = (s, here, ground (arith, p), refl, ground (arith, q))
inc_rounds n (suc left) i s h e p q =
    let s₁ : State = record s { inc = record { i = i; pc = store s.gsum } } in
    let s₂ : State = record s₁ { gsum = pos (i + 1); inc = record { i = i; pc = fetch } } in
    let s₃ : State = record s₂ {
      agsum = to_int (s.agsum +ℤ incdec_amount);
      inc = record { i = i + 1; pc = load };
    } in
    let (t, r, a, b, c) = inc_rounds n left (i + 1) s₃ h (omega arith) refl refl in
    (
      t,
      next (inc_step {t = s₁} (ground arith)) (
          next (inc_step {t = s₂} (ground (arith, q, plus i n))) (next (inc_step {t = s₃} refl) r)),
      a,
      b,
      c,
    )

-- The decrement thread alone, likewise.
dec_rounds :
    (n left i : ℕ) (s : State)
    → n < 2 ^ 31
    → i + left ≡ n
    → s.dec ≡ record { i = i; pc = load }
    → s.gsum ≡ minus i
    → (t : State) × Reach n s t
      × (t.dec ≡ record { i = n; pc = load })
      × (t.inc ≡ s.inc)
      × (t.gsum ≡ minus n)
unfolding dec_thread
dec_rounds n zero i s h e p q =
    let e' : i ≡ n = omega arith in (s, here, ground (arith, p), refl, rw (← e') q)
dec_rounds n (suc left) i s h e p q =
    let s₁ : State = record s { dec = record { i = i; pc = store s.gsum } } in
    let s₂ : State = record s₁ { gsum = minus (i + 1); dec = record { i = i; pc = fetch } } in
    let s₃ : State = record s₂ {
      agsum = to_int (s.agsum -ℤ incdec_amount);
      dec = record { i = i + 1; pc = load };
    } in
    let (t, r, a, b, c) = dec_rounds n left (i + 1) s₃ h (omega arith) refl refl in
    (
      t,
      next (dec_step {t = s₁} (ground arith)) (
          next (dec_step {t = s₂} (ground (arith, q, minus-suc i n)))
            (next (dec_step {t = s₃} refl) r)),
      a,
      b,
      c,
    )

-- The increment thread loaded 0 before all that the decrement thread did, and now goes on.
resume_inc :
    (m : ℕ) (s : State)
    → suc m < 2 ^ 31
    → s.inc ≡ record { i = 0; pc = store (pos 0) }
    → (t : State) × Reach (suc m) s t
      × (t.inc ≡ record { i = suc m; pc = load })
      × (t.dec ≡ s.dec)
      × (t.gsum ≡ pos (suc m))
unfolding inc_thread
resume_inc m s k p =
    let s₁ : State = record s { gsum = pos 1; inc = record { i = 0; pc = fetch } } in
    let s₂ : State = record s₁ {
      agsum = to_int (s.agsum +ℤ incdec_amount);
      inc = record { i = 1; pc = load };
    } in
    let (t, r, a, b, c) = inc_rounds (suc m) m 1 s₂ k (omega arith) refl refl in
    (
      t,
      next (inc_step {t = s₁} (ground (arith, p, plus 0 (suc m))))
          (next (inc_step {t = s₂} (ground arith)) r),
      a,
      b,
      c,
    )

resume_dec :
    (m : ℕ) (s : State)
    → suc m < 2 ^ 31
    → s.dec ≡ record { i = 0; pc = store (pos 0) }
    → (t : State) × Reach (suc m) s t
      × (t.dec ≡ record { i = suc m; pc = load })
      × (t.inc ≡ s.inc)
      × (t.gsum ≡ minus (suc m))
unfolding dec_thread
resume_dec m s k p =
    let s₁ : State = record s { gsum = minus 1; dec = record { i = 0; pc = fetch } } in
    let s₂ : State = record s₁ {
      agsum = to_int (s.agsum -ℤ incdec_amount);
      dec = record { i = 1; pc = load };
    } in
    let (t, r, a, b, c) = dec_rounds (suc m) m 1 s₂ k (omega arith) refl refl in
    (
      t,
      next (dec_step {t = s₁} (ground (arith, p, minus-zero, minus-suc 0 (suc m))))
          (next (dec_step {t = s₂} (ground arith)) r),
      a,
      b,
      c,
    )

first_load :
    (n : ℕ)
    → 0 < n
    → inc_thread n init ≡ some (record init { inc = record { i = 0; pc = store (pos 0) } })
unfolding inc_thread
first_load n h = ground arith

first_load_dec :
    (n : ℕ)
    → 0 < n
    → dec_thread n init ≡ some (record init { dec = record { i = 0; pc = store (pos 0) } })
unfolding dec_thread
first_load_dec n h = ground arith

-- For every COUNT of at least 1, and below 2 ^ 31, one run of both threads to their ends leaves `gsum`
-- at COUNT, with all decrements lost, and another leaves it at -COUNT, with all increments lost.
pub race_extremes :
    (n : ℕ)
    → 0 < n
    → n < 2 ^ 31
    → ((s : State) × Reach n init s × IsDone n s × (s.gsum ≡ pos n))
      × ((s : State) × Reach n init s × IsDone n s × (s.gsum ≡ pos 0 -ℤ pos n))
unfolding minus
race_extremes zero h k = absurd (omega arith)
race_extremes (suc m) h k =
    let (u, ru, au, bu, _) =
      dec_rounds (suc m) (suc m) 0 (record init { inc = record { i = 0; pc = store (pos 0) } }) k
        (omega arith) refl minus-zero in
    let (v, rv, av, bv, cv) = resume_inc m u k bu in
    let (x, rx, ax, bx, _) =
      inc_rounds (suc m) (suc m) 0 (record init { dec = record { i = 0; pc = store (pos 0) } }) k
        (omega arith) refl refl in
    let (y, ry, ay, by, cy) = resume_dec m x k bx in
    (
      (
        v,
        next (inc_step (first_load (suc m) h)) (Reach-trans ru rv),
        record { inc_over = av; dec_over = bv ∙ au },
        cv,
      ),
      (
        y,
        next (dec_step (first_load_dec (suc m) h)) (Reach-trans rx ry),
        record { inc_over = by ∙ ax; dec_over = ay },
        cy,
      ),
    )
