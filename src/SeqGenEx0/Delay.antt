-- ===== src/SeqGenEx0/Delay.antt =====
-- The delay of one cycle of seqgenex0.c.
use native.Mathlib.Decide.{dec_lt}
use ucb_rtes.Base.{◌-◌, ℕ, zero, suc, ◌+◌, ◌*◌, ◌<◌, ◌≤◌, ◌≡◌, ◌≢◌, ◌↔◌, arith, if◌then◌else◌}
use ucb_rtes.Base.Int.{ℤ, pos, ◌+ℤ◌, ◌-ℤ◌, ltb_ℤ}
use ucb_rtes.Base.Run.{done, exited}
use ucb_rtes.Posix.{eintr}
use ucb_rtes.SeqGenEx0.{Timespec, wake_time, delay_loop}

abbrev pub clock : ℕ → ℕ → Timespec
clock s n = record { tv_sec = pos s; tv_nsec = pos n }

-- The sleep is to the clock's value plus the delay, for a delay of 0 to one second; and its
-- nanoseconds are below 10^9, as `clock_nanosleep` asks, in every case but one: a sum of exactly one
-- second is not carried over.
pub wake_time-sum :
    (s n delay : ℕ)
    → n < 1_000_000_000
    → delay ≤ 1_000_000_000
    → (s' : ℕ) × (n' : ℕ) × (wake_time (clock s n) (pos delay) ≡ clock s' n')
      × (s' * 1_000_000_000 + n' ≡ s * 1_000_000_000 + n + delay)
      × ((n' < 1_000_000_000) ↔ (n + delay ≢ 1_000_000_000))
unfolding wake_time ◌+ℤ◌ ◌-ℤ◌
wake_time-sum s n delay h d = elim (dec_lt 1_000_000_000 (n + delay)) [
  | yes p ↦ (
    s + 1,
    n + delay - 1_000_000_000,
    ground arith,
    omega arith,
    (λ q e. omega arith, λ e. omega arith),
  )
  | no p ↦ (s, n + delay, ground arith, omega arith, (λ q e. omega arith, λ e. omega arith))
]

-- n calls that a signal interrupts, and one that returns something else.
pub record IsWait (rc : ℕ → ℤ) (i n : ℕ) : Type 0 where
  pub interrupted : (x : ℕ) → i ≤ x → x < i + n → rc x ≡ eintr
  pub ends : rc (i + n) ≢ eintr

-- With fuel for n + 1 calls, of which a signal interrupts the first n and not the last, the delay
-- loop sleeps again after each signal and counts the signals. It ends at the first result other than
-- EINTR, with the process if that is negative, and as a complete sleep otherwise, be it 0 or another
-- of the error numbers that `clock_nanosleep` returns.
pub delay_loop-result :
    (n fuel : ℕ) (rc : ℕ → ℤ) (i cnt : ℕ)
    → IsWait rc i n
    → n < fuel
    → delay_loop fuel rc i cnt ≡ (
        if ltb_ℤ (rc (i + n)) (pos 0)
        then exited
        else done (record { calls = i + n + 1; delay_cnt = cnt + n }))
unfolding delay_loop
delay_loop-result n zero rc i cnt w f = absurd (omega arith)
delay_loop-result zero (suc fuel) rc i cnt w f =
    let e : i + 0 ≡ i = omega arith in
    let c : cnt + 0 ≡ cnt = omega arith in
    let x : rc i ≢ eintr = rw e at w.ends in rw e (rw c (ground arith))
delay_loop-result (suc n) (suc fuel) rc i cnt w f =
    let e : i + suc n ≡ i + 1 + n = omega arith in
    let c : cnt + suc n ≡ cnt + 1 + n = omega arith in
    let x : rc (i + 1 + n) ≢ eintr = rw e at w.ends in
    let w' : IsWait rc (i + 1) n = record {
      interrupted = λ y p q. w.interrupted y (omega arith) (omega arith);
      ends = x;
    } in
    rw (w.interrupted i (omega arith) (omega arith))
      (rw e (rw c (delay_loop-result n fuel rc (i + 1) (cnt + 1) w' (omega arith))))
