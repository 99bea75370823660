-- ===== src/SeqGenEx0/Drift.antt =====
-- The drift control of seqgenex0.c: each cycle measures its period, and makes the next delay shorter by
-- what the period was too long. Times are in nanoseconds. The computation is in floating point and its
-- result is a `long`: it is taken to be off by at most `rounding` from the exact value.
use ucb_rtes.Base.{ℕ, ◌+◌, ◌-◌, ◌*◌, ◌≤◌, ◌≡◌, sym, List, [], ◌∷◌, arith}
use ucb_rtes.Base.Int.{
  ℤ, pos, negsuc, pos_part, neg_part, ◌+ℤ◌, ◌-ℤ◌, ◌*ℤ◌, ◌≤ℤ◌, +ℤ_parts, -ℤ_parts,
}

abbrev pub rtseq_delay_nsec : ℕ
rtseq_delay_nsec = 10_000_000

abbrev pub clock_bias_nanosec : ℕ
clock_bias_nanosec = 100_000

-- 2000 times the delay that `std_delay_time.tv_nsec - (scale_dt * (NANOSEC_PER_SEC +
-- DT_SCALING_UNCERTAINTY_NANOSEC)) - CLOCK_BIAS_NANOSEC` stands for, where the period was `excess` too
-- long: a nanosecond of it counts 1000500000 / 1000000000, which is 2001 / 2000.
unfoldable pub scaled_delay : ℤ → ℤ
scaled_delay excess =
    pos (2000 * rtseq_delay_nsec) -ℤ pos 2001 *ℤ excess -ℤ pos (2000 * clock_bias_nanosec)

-- |a - b| ≤ bound
abbrev pub Near : ℕ → ℤ → ℤ → Type 0
Near bound a b = (a ≤ℤ b +ℤ pos bound) × (b ≤ℤ a +ℤ pos bound)

-- A cycle with a delay that is not negative: from what its period was too long to the same of the next
-- one, which lasts as long as the delay and `overhead`, the time between the measurement and the
-- reading of the clock, the late wake-up, and the work of the cycle.
pub record Cycle (rounding overhead : ℕ) (excess next : ℤ) : Type 0 where
  pub delay : ℕ
  pub rounded : Near (2000 * rounding) (pos (2000 * delay)) (scaled_delay excess)
  pub measured : next ≡ pos (delay + overhead) -ℤ pos rtseq_delay_nsec

scale_parts :
    (k : ℕ) (a : ℤ)
    → pos_part (pos k *ℤ a) + k * neg_part a ≡ neg_part (pos k *ℤ a) + k * pos_part a
unfolding ◌*ℤ◌
scale_parts k (pos n) = ground arith
scale_parts k (negsuc n) = ground arith

-- What a cycle says in the parts of its two numbers.
record IsLinear (rounding overhead delay : ℕ) (excess next : ℤ) : Type 0 where
  upper :
      2001 * pos_part excess + 2000 * delay
      ≤ 19_800_000_000 + 2001 * neg_part excess + 2000 * rounding
  lower :
      19_800_000_000 + 2001 * neg_part excess
      ≤ 2001 * pos_part excess + 2000 * delay + 2000 * rounding
  period : pos_part next + 10_000_000 ≡ neg_part next + delay + overhead

scaled_parts :
    (e : ℤ)
    → pos_part (scaled_delay e) + 2001 * pos_part e
      ≡ neg_part (scaled_delay e) + 2001 * neg_part e + 19_800_000_000
unfolding scaled_delay
scaled_parts e =
    let big = pos 20_000_000_000 -ℤ pos 2001 *ℤ e in
    omega (
      arith,
      scale_parts 2001 e,
      -ℤ_parts (pos 20_000_000_000) (pos 2001 *ℤ e),
      -ℤ_parts big (pos 200_000_000),
    )

module _ {rounding overhead : ℕ} {excess next : ℤ} (c : Cycle rounding overhead excess next) where
  Cycle-IsLinear : IsLinear rounding overhead c.delay excess next
  Cycle-IsLinear = record {
    upper = omega (
      arith,
      scaled_parts excess,
      c.rounded.0,
      +ℤ_parts (scaled_delay excess) (pos (2000 * rounding)),
    );
    lower = omega (
      arith,
      scaled_parts excess,
      c.rounded.1,
      +ℤ_parts (pos (2000 * c.delay)) (pos (2000 * rounding)),
    );
    period = rw c.measured (omega (arith, -ℤ_parts (pos (c.delay + overhead)) (pos 10_000_000)));
  }

-- A nanosecond of overhead beyond the bias shows in two periods together: a period and 2001 / 2000 of
-- the one before it are together too long by the overhead less 100 microseconds, up to the rounding.
-- What one period is too long comes back, with the other sign, in the next.
pub two_periods :
    {rounding overhead : ℕ} {excess next : ℤ}
    → Cycle rounding overhead excess next
    → Near
        (2000 * rounding)
        (pos 2000 *ℤ next +ℤ pos 2001 *ℤ excess)
        (pos (2000 * overhead) -ℤ pos (2000 * clock_bias_nanosec))
two_periods {rounding} {overhead} {excess} {next} c =
    let l = Cycle-IsLinear c in
    let sum = pos 2000 *ℤ next +ℤ pos 2001 *ℤ excess in
    let goal = pos (2000 * overhead) -ℤ pos 200_000_000 in
    let a = +ℤ_parts (pos 2000 *ℤ next) (pos 2001 *ℤ excess) in
    let b = -ℤ_parts (pos (2000 * overhead)) (pos 200_000_000) in
    let p = scale_parts 2000 next in
    let q = scale_parts 2001 excess in
    (
      omega (arith, l.upper, l.lower, l.period, a, b, p, q, +ℤ_parts goal (pos (2000 * rounding))),
      omega (arith, l.upper, l.lower, l.period, a, b, p, q, +ℤ_parts sum (pos (2000 * rounding))),
    )

-- |a - b|
abbrev pub distance : ℤ → ℤ → ℕ
distance a b = let x = pos_part a + neg_part b in let y = pos_part b + neg_part a in x - y + (y - x)

distance-Cycle :
    {rounding overhead : ℕ} {a a' b b' : ℤ}
    → Cycle rounding overhead a a'
    → Cycle rounding overhead b b'
    → 4000 * rounding ≤ distance a b
    → distance a b ≤ distance a' b'
distance-Cycle c d far =
    let l = Cycle-IsLinear c in
    let m = Cycle-IsLinear d in
    omega (arith, l.upper, l.lower, l.period, m.upper, m.lower, m.period)

-- Cycles with the overheads given, one behind the other.
abbrev pub Cycles : ℕ → List ℕ → ℤ → ℤ → Type 0
Cycles rounding [] excess last = excess ≡ last
Cycles rounding (o ∷ os) excess last =
    (next : ℤ) × Cycle rounding o excess next × Cycles rounding os next last

-- The control does not damp: where two runs have the same overheads, and their first periods differ
-- by 4000 times the rounding or more, say by a late wake-up in one of them, then their periods differ
-- by at least as much after any number of cycles in which no delay is negative.
pub undamped :
    (overheads : List ℕ) (rounding : ℕ) (a a' b b' : ℤ)
    → Cycles rounding overheads a a'
    → Cycles rounding overheads b b'
    → 4000 * rounding ≤ distance a b
    → distance a b ≤ distance a' b'
undamped [] rounding a a' b b' p q far = rw (sym p) (rw (sym q) (omega arith))
undamped (o ∷ os) rounding a a' b b' (m, c, p) (n, d, q) far =
    let grows = distance-Cycle c d far in
    omega (arith, grows, undamped os rounding m a' n b' p q (omega (arith, grows, far)))
