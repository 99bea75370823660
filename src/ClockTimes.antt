-- ===== src/ClockTimes.antt =====
-- 08-sequencer-generic/sam-sequencer/clock_times.c: what `displayClock` prints of a clock.
pub mod Loops
mod Tests
use ucb_rtes.Base.{
  ℕ, ◌+◌, ◌*◌, ◌/◌, ◌%◌, ◌<◌, ◌≤◌, ◌≡◌, refl, Bool, true, false, Option, none, some, arith, ltb,
  if◌then◌else◌,
}
use ucb_rtes.Base.Run.{Run, done, exited}
use ucb_rtes.Posix.{Timespec, nanoseconds}

abbrev pub secs_in_day : ℕ
secs_in_day = 24 * 60 * 60

-- The numbers printed: seconds and milliseconds, the days if there are any, hours, minutes and
-- seconds, and the resolution if it is asked for.
pub record Display : Type 0 where
  pub total : ℕ
  pub msec : ℕ
  pub days : Option ℕ
  pub hours : ℕ
  pub minutes : ℕ
  pub seconds : ℕ
  pub resolution : Option Timespec

-- The text for a clock's value.
pub show : Timespec → Option Timespec → Display
show ts res = record {
  total = ts.tv_sec;
  msec = ts.tv_nsec / 1_000_000;
  days = let days = ts.tv_sec / secs_in_day in if ltb 0 days then some days else none;
  hours = (ts.tv_sec % secs_in_day) / 3600;
  minutes = (ts.tv_sec % 3600) / 60;
  seconds = ts.tv_sec % 60;
  resolution = res;
}

-- With the results of `clock_gettime` and `clock_getres`, `none` where they fail.
pub display_clock : Option Timespec → Option Timespec → Bool → Run Display
unfolding show
display_clock none res show_res = exited
display_clock (some ts) none show_res = exited
display_clock (some ts) (some r) show_res = done (show ts (if show_res then some r else none))

-- The days printed, 0 if none are.
abbrev pub days_of : Display → ℕ
days_of d = elim d.days [ none ↦ 0 | some n ↦ n ]

-- Where both clock calls succeed, what displayClock prints gives the time back: the days, hours,
-- minutes and seconds add up to the seconds of the clock, with hours below 24 and minutes and seconds
-- below 60; and for less than 10^9 nanoseconds, seconds and milliseconds are the clock's value to the
-- millisecond, with less than 1000 milliseconds.
pub display_round_trip :
    (ts r : Timespec) (show_res : Bool)
    → ts.tv_nsec < 1_000_000_000
    → (d : Display) × (display_clock (some ts) (some r) show_res ≡ done d)
      × (days_of d * 86_400 + d.hours * 3600 + d.minutes * 60 + d.seconds ≡ ts.tv_sec)
      × (d.hours < 24)
      × (d.minutes < 60)
      × (d.seconds < 60)
      × (d.total * 1000 + d.msec ≡ nanoseconds ts / 1_000_000)
      × (d.msec < 1000)
unfolding display_clock
display_round_trip ts r b h =
    (_, refl, ground arith, omega arith, omega arith, omega arith, omega arith, omega arith)
