-- ===== src/ClockOverhead.antt =====
-- 08-sequencer-generic/clock-overhead.cpp: `fast_monotonic_clock`, and the loops that measure what a
-- call of a clock costs. Time points and durations are nanoseconds, of type `long`.
mod Tests
use ucb_rtes.Base.{
  ℕ, zero, suc, ◌+◌, ◌-◌, ◌*◌, ◌<◌, ◌≤◌, ◌≡◌, ◌↔◌, ◌⊎◌, inl, inr, refl, Bool, true, false, Option,
  none, some, arith, ltb, if◌then◌else◌,
}
use ucb_rtes.Base.Int.{ℤ, pos, ◌+ℤ◌, ==_ℤ}
use ucb_rtes.Base.Long.{to_long, add_long}
use ucb_rtes.Posix.{Timespec, nanoseconds, nanosec_per_sec}

pub data ClockId : Type 0 where
  monotonic_coarse monotonic : ClockId

-- `convert`
unfoldable pub convert : Timespec → ℤ
convert t = to_long (to_long (pos (t.tv_sec * nanosec_per_sec)) +ℤ pos t.tv_nsec)

-- `test_coarse_clock`, from what `clock_gettime` returns for the coarse clock.
abbrev pub test_coarse_clock : ℤ → ClockId
test_coarse_clock result = if ==_ℤ result (pos 0) then monotonic_coarse else monotonic

-- `clock_id`, whose static variable is initialised by the first call: the clock, and the variable
-- behind the call.
abbrev pub clock_id : ℤ → Option ClockId → ClockId × Option ClockId
clock_id result none = let c = test_coarse_clock result in (c, some c)
clock_id result (some c) = (c, some c)

-- `now` and `get_resolution`, with what the call for the chosen clock left in `t`; whether it failed is
-- not looked at.
unfoldable pub now : (ClockId → Timespec) → ℤ → Option ClockId → ℤ × Option ClockId
unfolding convert
now t result chosen = let (c, chosen') = clock_id result chosen in (convert (t c), chosen')

-- A loop over n calls of a clock, the i-th of which takes `cost i`, from a time on.
pub calls : (ℕ → ℕ) → ℕ → ℕ → ℕ → ℕ
calls cost zero i time = time
calls cost (suc left) i time = calls cost left (i + 1) (time + cost i)

abbrev pub rounds : ℕ
rounds = 1_000_000

-- What is printed: from the time that the first call of `hrc.now` reads to that which the last one
-- reads, `read` after it was called.
unfoldable pub measured : (ℕ → ℕ) → ℕ → ℕ → ℕ → ℕ
unfolding calls
measured cost read left t1 = calls cost left 0 t1 + read - t1

convert_exact :
    (t : Timespec)
    → t.tv_sec ≤ 9_223_372_035
    → t.tv_nsec < nanosec_per_sec
    → convert t ≡ pos (nanoseconds t)
unfolding convert to_long ◌+ℤ◌
convert_exact t s n = ground arith

-- Up to the year 2262 no conversion overflows: it gives the nanoseconds of the time, and keeps the order
-- of two times.
pub convert_mono :
    (t u : Timespec)
    → t.tv_sec ≤ 9_223_372_035
    → u.tv_sec ≤ 9_223_372_035
    → t.tv_nsec < nanosec_per_sec
    → u.tv_nsec < nanosec_per_sec
    → (a : ℕ) × (b : ℕ) × (convert t ≡ pos a)
      × (convert u ≡ pos b)
      × ((a ≤ b) ↔ ((t.tv_sec < u.tv_sec) ⊎ ((t.tv_sec ≡ u.tv_sec) × (t.tv_nsec ≤ u.tv_nsec))))
convert_mono t u s s' n n' =
    (nanoseconds t, nanoseconds u, convert_exact t s n, convert_exact u s' n', ground arith)

-- The clock is chosen once: whatever the test of the coarse clock would say later, the second reading
-- is of the same clock as the first.
pub now_again :
    (t u : ClockId → Timespec) (first second : ℤ)
    → (now u second (now t first none).1).0 ≡ convert (u (test_coarse_clock first))
unfolding now
now_again t u first second = refl

calls-between :
    (cost : ℕ → ℕ) (lo hi left i time : ℕ)
    → ((j : ℕ) → (lo ≤ cost j) × (cost j ≤ hi))
    → (time + left * lo ≤ calls cost left i time) × (calls cost left i time ≤ time + left * hi)
unfolding calls
calls-between cost lo hi zero i time h = (omega arith, omega arith)
calls-between cost lo hi (suc left) i time h =
    let (a, b) = calls-between cost lo hi left (i + 1) (time + cost i) h in
    let (c, d) = h i in (grind arith, grind arith)

-- The number printed for a clock divided by the rounds lies between the shortest and the longest call,
-- but for the one reading of the clock that ends the measurement.
pub measured-between :
    (cost : ℕ → ℕ) (lo hi read left t1 : ℕ)
    → ((j : ℕ) → (lo ≤ cost j) × (cost j ≤ hi))
    → (left * lo + read ≤ measured cost read left t1)
      × (measured cost read left t1 ≤ left * hi + read)
unfolding measured
measured-between cost lo hi read left t1 h =
    let (a, b) = calls-between cost lo hi left 0 t1 h in (omega arith, omega arith)
