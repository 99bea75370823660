-- ===== src/ClockTimes/Loops.antt =====
-- clock_times.c: `main` of the version in sam-sequencer, and of the one above it, which has one more
-- loop. What a clock shows is left out; whether it can be read is asked for each clock.
use ucb_rtes.Base.{
  ℕ, zero, suc, ◌+◌, ◌≡◌, refl, ◌⊎◌, inl, inr, Bool, Bool-cases, false, List, [], ◌∷◌, arith,
  if◌then◌else◌,
}
use ucb_rtes.Base.Int.{ℤ, pos, ==_ℤ}
use ucb_rtes.Base.Run.{Run, done, exited, running, ◌>>=◌}

pub data Clock : Type 0 where
  realtime tai monotonic boottime monotonic_raw monotonic_coarse : Clock

-- Whether `clock_gettime` and `clock_getres` succeed for a clock, and what each `nanosleep` returns.
pub record Env : Type 0 where
  pub readable : Clock → Bool
  pub nanosleep : ℕ → ℤ

pub data Event : Type 0 where
  display : Clock → Event
  sleep : Event

abbrev pub delay_loops : ℕ
delay_loops = 10

-- `displayClock` and what follows it: it exits where the clock cannot be read.
unfoldable pub display_then : Env → Clock → Run (List Event) → Run (List Event)
display_then env c rest = if env.readable c then (rest >>= λ r. done (display c ∷ r)) else exited

-- The `nanosleep` number k and what follows it: all results but 0 end the process.
unfoldable pub sleep_then : Env → ℕ → Run (List Event) → Run (List Event)
sleep_then env k rest =
    if ==_ℤ (env.nanosleep k) (pos 0) then (rest >>= λ r. done (sleep ∷ r)) else exited

-- One of the loops, with `left` rounds to go; k sleeps have been made before.
unfoldable pub delay_loop : Env → Clock → ℕ → ℕ → Run (List Event) → Run (List Event)
unfolding display_then sleep_then
delay_loop env c zero k rest = rest
delay_loop env c (suc left) k rest =
    display_then env c (sleep_then env k (display_then env c (delay_loop env c left (k + 1) rest)))

-- The clocks that are shown first.
unfoldable pub display_all : Env → Run (List Event) → Run (List Event)
display_all env rest =
    display_then env realtime
      (display_then env tai (display_then env monotonic (display_then env boottime rest)))

-- `main` of sam-sequencer/clock_times.c, where the clocks TAI and BOOTTIME are defined.
unfoldable pub main : Env → Run (List Event)
main env = display_all env (
    delay_loop env realtime delay_loops 0 (
      delay_loop env monotonic delay_loops 10
        (delay_loop env monotonic_raw delay_loops 20 (done []))))

-- `main` of clock_times.c one folder up.
unfoldable pub main_coarse : Env → Run (List Event)
main_coarse env = display_all env (
    delay_loop env realtime delay_loops 0 (
      delay_loop env monotonic delay_loops 10 (
        delay_loop env monotonic_raw delay_loops 20
          (delay_loop env monotonic_coarse delay_loops 30 (done [])))))

-- How often the process sleeps in a run.
abbrev pub sleeps : List Event → ℕ
sleeps [] = 0
sleeps (sleep ∷ r) = suc (sleeps r)
sleeps (display c ∷ r) = sleeps r

-- A run comes to its end with n sleeps, or the process exits for a reason.
abbrev pub Ends : Env → ℕ → Run (List Event) → Type 0
Ends env n (done plan) = sleeps plan ≡ n
Ends env n exited =
    ((c : Clock) × (env.readable c ≡ false)) ⊎ ((k : ℕ) × (==_ℤ (env.nanosleep k) (pos 0) ≡ false))
Ends env n running = ⊥

module _ (env : Env) (n : ℕ) where
  after_display :
      (c : Clock) (rest : Run (List Event))
      → Ends env n rest
      → Ends env n (rest >>= λ r. done (display c ∷ r))
  after_display c (done r) h = h
  after_display c exited h = h
  after_display c running h = elim h [ ]

  display_then-Ends :
      (c : Clock) (rest : Run (List Event)) → Ends env n rest → Ends env n (display_then env c rest)
  unfolding display_then
  display_then-Ends c rest h = elim (Bool-cases (env.readable c)) [
    | inl e ↦ rw e (after_display c rest h)
    | inr e ↦ rw e (inl (c, e))
  ]

  after_sleep :
      (rest : Run (List Event))
      → Ends env n rest
      → Ends env (suc n) (rest >>= λ r. done (sleep ∷ r))
  after_sleep (done r) h = omega (arith, h)
  after_sleep exited h = h
  after_sleep running h = elim h [ ]

  sleep_then-Ends :
      (k : ℕ) (rest : Run (List Event)) → Ends env n rest → Ends env (suc n) (sleep_then env k rest)
  unfolding sleep_then
  sleep_then-Ends k rest h = elim (Bool-cases (==_ℤ (env.nanosleep k) (pos 0))) [
    | inl e ↦ rw e (after_sleep rest h)
    | inr e ↦ rw e (inr (k, e))
  ]

delay_loop-Ends :
    (env : Env) (c : Clock) (left k n m : ℕ) (rest : Run (List Event))
    → m ≡ left + n
    → Ends env n rest
    → Ends env m (delay_loop env c left k rest)
unfolding delay_loop
delay_loop-Ends env c zero k n m rest e h = rw e (rw z h)
  where
    z : 0 + n ≡ n
    z = omega arith
delay_loop-Ends env c (suc left) k n zero rest e h = absurd (omega arith)
delay_loop-Ends env c (suc left) k n (suc m) rest e h = display_then-Ends env (suc m) c _ (
    sleep_then-Ends env m k _
      (display_then-Ends env m c _ (delay_loop-Ends env c left (k + 1) n m rest (omega arith) h)))

display_all-Ends :
    (env : Env) (n : ℕ) (rest : Run (List Event))
    → Ends env n rest
    → Ends env n (display_all env rest)
unfolding display_all
display_all-Ends env n rest h = display_then-Ends env n realtime _ (
    display_then-Ends env n tai _
      (display_then-Ends env n monotonic _ (display_then-Ends env n boottime rest h)))

raw_loop-Ends :
    (env : Env) (n : ℕ) (rest : Run (List Event))
    → Ends env n rest
    → Ends env (30 + n) (
        display_all env (
          delay_loop env realtime delay_loops 0 (
            delay_loop env monotonic delay_loops 10
              (delay_loop env monotonic_raw delay_loops 20 rest))))
raw_loop-Ends env n rest h = display_all-Ends env (30 + n) _ (
    delay_loop-Ends env realtime 10 0 (20 + n) (30 + n) _ (omega arith) (
      delay_loop-Ends env monotonic 10 10 (10 + n) (20 + n) _ (omega arith)
        (delay_loop-Ends env monotonic_raw 10 20 n (10 + n) rest (omega arith) h)))

-- Both programs come to their ends, with 30 sleeps and with 40, or exit, and then some clock cannot be
-- read or some `nanosleep` returned another result than 0.
pub main-Ends : (env : Env) → Ends env 30 (main env) × Ends env 40 (main_coarse env)
unfolding main main_coarse
main-Ends env = (
  raw_loop-Ends env 0 (done []) refl,
  raw_loop-Ends env 10 _
      (delay_loop-Ends env monotonic_coarse 10 30 0 10 (done []) (omega arith) refl),
)
