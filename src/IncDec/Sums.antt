-- ===== src/IncDec/Sums.antt =====
-- The sums under any interleaving.
use ucb_rtes.Base.{ℕ, ◌+◌, ◌^◌, ◌<◌, ◌≤◌, ◌≡◌, some, arith}
use ucb_rtes.Base.Int.{ℤ, pos, pos_part, neg_part, ◌+ℤ◌, ◌-ℤ◌, ◌≤ℤ◌, +ℤ_parts, -ℤ_parts}
use ucb_rtes.Base.Word.{to_int-eq}
use ucb_rtes.IncDec.{
  Pc, load, store, fetch, Thread, State, init, inc_thread, dec_thread, inc_step, dec_step, Reach,
  here, next, IsDone, incdec_amount,
}

-- How often a thread has stored to `gsum`.
abbrev stores : Thread → ℕ
stores t = elim t.pc [ load ↦ t.i | store r ↦ t.i | fetch ↦ t.i + 1 ]

-- A value that `gsum` may have had: not above the increments stored, nor below the decrements.
abbrev InRange : ℤ → State → Type 0
InRange z s = (pos_part z ≤ neg_part z + stores s.inc) × (neg_part z ≤ pos_part z + stores s.dec)

abbrev IsHeld : Pc → State → Type 0
IsHeld load s = Unit
IsHeld (store r) s = InRange r s
IsHeld fetch s = Unit

-- A thread within its loop has a round to go.
abbrev IsBusy : ℕ → Thread → Type 0
IsBusy n t = elim t.pc [ load ↦ t.i ≤ n | store r ↦ t.i < n | fetch ↦ t.i < n ]

record Inv (n : ℕ) (s : State) : Type 0 where
  small : n < 2 ^ 31
  inc_busy : IsBusy n s.inc
  dec_busy : IsBusy n s.dec
  exact : pos_part s.agsum + s.dec.i ≡ neg_part s.agsum + s.inc.i
  ranged : InRange s.gsum s
  inc_held : IsHeld s.inc.pc s
  dec_held : IsHeld s.dec.pc s

-- The value that a thread has loaded.
abbrev held : Pc → ℤ
held load = pos 0
held (store r) = r
held fetch = pos 0

inc_thread-Inv : (n : ℕ) (s t : State) → inc_thread n s ≡ some t → Inv n s → Inv n t
unfolding inc_thread
inc_thread-Inv n s t e h = ground (
  arith,
  +ℤ_parts s.agsum incdec_amount,
  to_int-eq (s.agsum +ℤ incdec_amount),
  +ℤ_parts (held s.inc.pc) incdec_amount,
  to_int-eq (held s.inc.pc +ℤ incdec_amount),
)

dec_thread-Inv : (n : ℕ) (s t : State) → dec_thread n s ≡ some t → Inv n s → Inv n t
unfolding dec_thread
dec_thread-Inv n s t e h = ground (
  arith,
  -ℤ_parts s.agsum incdec_amount,
  to_int-eq (s.agsum -ℤ incdec_amount),
  -ℤ_parts (held s.dec.pc) incdec_amount,
  to_int-eq (held s.dec.pc -ℤ incdec_amount),
)

Reach-Inv : {n : ℕ} {s t : State} → Reach n s t → Inv n s → Inv n t
Reach-Inv here h = h
Reach-Inv {n} {s} (next (inc_step {t} e) r) h = Reach-Inv r (inc_thread-Inv n s t e h)
Reach-Inv {n} {s} (next (dec_step {t} e) r) h = Reach-Inv r (dec_thread-Inv n s t e h)

Inv-init : (n : ℕ) → n < 2 ^ 31 → Inv n init
Inv-init n h = ground arith

-- Under any interleaving, with COUNT below 2 ^ 31, neither sum ever leaves [-COUNT, COUNT], so that no
-- update overflows an `int`.
pub sums_bounds :
    (n : ℕ) (s : State)
    → n < 2 ^ 31
    → Reach n init s
    → (pos 0 -ℤ pos n ≤ℤ s.gsum)
      × (s.gsum ≤ℤ pos n)
      × (pos 0 -ℤ pos n ≤ℤ s.agsum)
      × (s.agsum ≤ℤ pos n)
sums_bounds n s h r = ground (arith, Reach-Inv r (Inv-init n h), -ℤ_parts (pos 0) (pos n))

-- The atomic sum is exact: when both threads have ended, under any interleaving, it is 0, for COUNT
-- below 2 ^ 31.
pub agsum-eq-zero : (n : ℕ) (s : State) → n < 2 ^ 31 → Reach n init s → IsDone n s → s.agsum ≡ pos 0
agsum-eq-zero n s h r d = ground (arith, Reach-Inv r (Inv-init n h), d.inc_over, d.dec_over)
