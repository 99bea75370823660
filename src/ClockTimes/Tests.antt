-- ===== src/ClockTimes/Tests.antt =====
-- The theorem on clock_times.c at a concrete input.
use ucb_rtes.Base.{◌+◌, ◌*◌, ◌/◌, ◌<◌, ◌≡◌, some, true, arith}
use ucb_rtes.Base.Run.{done}
use ucb_rtes.Posix.{Timespec, nanoseconds}
use ucb_rtes.ClockTimes.{Display, display_clock, days_of, display_round_trip}

abbrev now : Timespec
now = record { tv_sec = 1_600_000_123; tv_nsec = 987_654_321 }

abbrev tick : Timespec
tick = record { tv_sec = 0; tv_nsec = 1 }

-- A day, an hour, a minute and a second, and 123 milliseconds.
abbrev uptime : Timespec
uptime = record { tv_sec = 90_061; tv_nsec = 123_456_789 }

display_round_trip_example :
    (d : Display) × (display_clock (some uptime) (some uptime) true ≡ done d)
    × (days_of d * 86_400 + d.hours * 3600 + d.minutes * 60 + d.seconds ≡ 90_061)
    × (d.hours < 24)
    × (d.minutes < 60)
    × (d.seconds < 60)
    × (d.total * 1000 + d.msec ≡ nanoseconds uptime / 1_000_000)
    × (d.msec < 1000)
display_round_trip_example = display_round_trip uptime uptime true (omega arith)
