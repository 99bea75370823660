-- ===== src/SeqGen/Delay.antt =====
-- The delay loop. `nanosleep` returns 0 or -1, as its manual page says, so the loop makes one call;
-- its branch for an interrupted sleep is never taken.
use ucb_rtes.Base.{ℕ, zero, suc, ◌+◌, ◌≡◌, ◌⊎◌, Bool, true, false, arith, if◌then◌else◌}
use ucb_rtes.Base.Int.{ℤ, pos, negsuc}
use ucb_rtes.Base.Run.{done, exited}
use ucb_rtes.Posix.{Sleep}
use ucb_rtes.SeqGen.{delay_loop}

-- What the manual page of `nanosleep` says of its result.
abbrev pub IsResult : ℤ → Type 0
IsResult rc = (rc ≡ pos 0) ⊎ (rc ≡ negsuc 0)

abbrev is_ok : ℤ → Bool
is_ok (pos zero) = true
is_ok _ = false

-- When `nanosleep` returns 0 or -1, the delay is one call: it is over, with no interruption counted,
-- if the call returned 0, and the process exits if it returned -1, an interrupted sleep included.
pub delay_once :
    (fuel : ℕ) (nanosleep : ℕ → Sleep) (i : ℕ)
    → IsResult (nanosleep i).rc
    → delay_loop (suc fuel) nanosleep i 0 0
      ≡ (if is_ok (nanosleep i).rc then done (record { calls = i + 1; delay_cnt = 0 }) else exited)
unfolding delay_loop
delay_once fuel nanosleep i h = ground arith
