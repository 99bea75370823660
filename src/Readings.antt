-- ===== src/Readings.antt =====
-- Readings of the clock as numbers of type `double`: `getTimeMsec` of lab1.c, seqgen.c and seqgen2.c, which
-- is the same function on another clock, that of seqgenex0.c, `realtime` of seqgen2.c, and the
-- calibration of lab1.c. `double` is a parameter: an abstract type with the operations that the code
-- uses, and what IEEE 754 says of them where numbers are not negative.
pub mod Order
mod Tests
use native.Mathlib.Decide.{dec_lt}
use ucb_rtes.Base.{ℕ, ◌+◌, ◌*◌, ◌^◌, ◌<◌, ◌≤◌, ◌≡◌, ◌⊎◌, inl, inr, refl, sym, arith}
use ucb_rtes.Base.Int.{ℤ}
use ucb_rtes.Posix.{Timespec, nanosec_per_sec}

pub record Double (W : Type 0) : Type 1 where
  pub of_nat : ℕ → W
  pub add : W → W → W
  pub sub : W → W → W
  pub mul : W → W → W
  pub div : W → W → W
  pub to_int : W → ℤ
  pub le : W → W → Type 0

-- From 0 to 2 ^ 53: no infinity, and not NaN.
abbrev pub IsSmall : {W : Type 0} → Double W → W → Type 0
IsSmall d x = d.le (d.of_nat 0) x × d.le x (d.of_nat (2 ^ 53))

-- What IEEE 754 says of numbers from 0 to 2 ^ 53: conversions and operations are exact where the result
-- is a whole number below 2 ^ 53, and monotone.
pub record IsRounded {W : Type 0} (d : Double W) : Type 0 where
  pub le_trans : (x y z : W) → d.le x y → d.le y z → d.le x z
  pub of_nat_mono : (a b : ℕ) → a ≤ b → b ≤ 2 ^ 53 → d.le (d.of_nat a) (d.of_nat b)
  pub add_mono :
      (x y z w : W)
      → IsSmall d x
      → IsSmall d y
      → IsSmall d z
      → IsSmall d w
      → d.le x y
      → d.le z w
      → d.le (d.add x z) (d.add y w)
  pub sub_mono :
      (x y z : W)
      → IsSmall d x
      → IsSmall d y
      → IsSmall d z
      → d.le x y
      → d.le (d.sub x z) (d.sub y z)
  pub sub_self : (x : W) → IsSmall d x → d.sub x x ≡ d.of_nat 0
  pub div_mono :
      (x y : W) (k : ℕ)
      → IsSmall d x
      → IsSmall d y
      → 0 < k
      → k < 2 ^ 53
      → d.le x y
      → d.le (d.div x (d.of_nat k)) (d.div y (d.of_nat k))
  pub add_exact : (a b : ℕ) → a + b < 2 ^ 53 → d.add (d.of_nat a) (d.of_nat b) ≡ d.of_nat (a + b)
  pub mul_exact : (a b : ℕ) → a * b < 2 ^ 53 → d.mul (d.of_nat a) (d.of_nat b) ≡ d.of_nat (a * b)
  pub div_exact :
      (a b : ℕ)
      → 0 < b
      → b < 2 ^ 53
      → a * b < 2 ^ 53
      → d.div (d.of_nat (a * b)) (d.of_nat b) ≡ d.of_nat a

module _ {W : Type 0} (d : Double W) where
  -- `getTimeMsec` of lab1.c, seqgen.c and seqgen2.c.
  unfoldable pub get_time_msec : Timespec → W
  get_time_msec t =
      d.add (d.mul (d.of_nat t.tv_sec) (d.of_nat 1000))
        (d.div (d.of_nat t.tv_nsec) (d.of_nat 1_000_000))

  -- `realtime` of seqgen2.c
  unfoldable pub realtime : Timespec → W
  realtime t = d.add (d.of_nat t.tv_sec) (d.div (d.of_nat t.tv_nsec) (d.of_nat nanosec_per_sec))

  -- `getTimeMsec` of seqgenex0.c, from `start_time`; it counts seconds.
  unfoldable pub since_start : W → Timespec → W
  unfolding realtime
  since_start start_time t = d.sub (realtime t) start_time

  -- The calibration of fib10 and fib20, for 10 or 20 milliseconds: run_time from two readings, and
  -- required_test_cycles.
  unfoldable pub run_time : Timespec → Timespec → W
  unfolding get_time_msec
  run_time before after = d.sub (get_time_msec after) (get_time_msec before)

  unfoldable pub required_test_cycles : ℕ → Timespec → Timespec → ℤ
  unfolding run_time
  required_test_cycles msec before after = d.to_int (d.div (d.of_nat msec) (run_time before after))

-- A value of a clock, at the latest the other one.
abbrev pub NotLater : Timespec → Timespec → Type 0
NotLater t u = (t.tv_sec < u.tv_sec) ⊎ ((t.tv_sec ≡ u.tv_sec) × (t.tv_nsec ≤ u.tv_nsec))
