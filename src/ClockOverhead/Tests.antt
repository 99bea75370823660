-- ===== src/ClockOverhead/Tests.antt =====
-- Runs of the model of clock-overhead.cpp.
use ucb_rtes.Base.{◌≡◌, refl, none, some}
use ucb_rtes.Base.Int.{pos, ◌+ℤ◌}
use ucb_rtes.Base.Long.{to_long}
use ucb_rtes.ClockOverhead.{now, monotonic}

-- No coarse clock.
first_now :
    now (λ c. record { tv_sec = 3; tv_nsec = 5 }) (pos 22) none
    ≡ (pos 3_000_000_005, some monotonic)
unfolding now to_long ◌+ℤ◌
first_now = refl
