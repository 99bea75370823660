-- ===== src/IncDec/Tests.antt =====
-- The theorems on the two threads at the source's COUNT.
use ucb_rtes.Base.{◌≡◌, arith}
use ucb_rtes.Base.Int.{pos, ◌-ℤ◌}
use ucb_rtes.IncDec.{State, Reach, IsDone, init, count}
use ucb_rtes.IncDec.Sums.{agsum-eq-zero}
use ucb_rtes.IncDec.Race.{race_extremes}

race_extremes_example :
    ((s : State) × Reach count init s × IsDone count s × (s.gsum ≡ pos count))
    × ((s : State) × Reach count init s × IsDone count s × (s.gsum ≡ pos 0 -ℤ pos count))
race_extremes_example = race_extremes count (omega arith) (omega arith)

-- A run of a million rounds in which all decrements are lost.
lossy : (s : State) × Reach count init s × IsDone count s × (s.gsum ≡ pos count)
lossy = (race_extremes count (omega arith) (omega arith)).0

agsum-eq-zero_example : lossy.0.agsum ≡ pos 0
agsum-eq-zero_example = agsum-eq-zero count lossy.0 (omega arith) lossy.1 lossy.2
