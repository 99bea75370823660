-- ===== src/RtThread/Report.antt =====
-- The whole of `counterThread` of 06-rt-simplethread/pthread.c: the compute section between two readings
-- of the clock, and what is printed of their difference.
use ucb_rtes.Base.{ℕ, suc, ◌+◌, ◌/◌, ◌^◌, ◌<◌, ◌≤◌, ◌≡◌, refl}
use ucb_rtes.Base.Int.{ℤ, pos, negsuc, sub_ℕ}
use ucb_rtes.Base.Run.{Run, done, ◌>>=◌}
use ucb_rtes.RtThread.Fib.{Globals, globals}
use ucb_rtes.RtThread.DeltaT.{Timespec, delta_t, clock, instant, delta_t-later}
use ucb_rtes.RtThread.Counter.{compute, compute-result, req_iterations, seq_iterations}

-- `n / k` for a `long` and a positive constant, which rounds towards 0.
abbrev pub quotient : ℤ → ℕ → ℤ
quotient (pos n) k = pos (n / k)
quotient (negsuc n) k = sub_ℕ 0 (suc n / k)

-- The numbers of the line that a thread prints, but for its core.
pub record Report : Type 0 where
  pub idx : ℤ
  pub sec : ℤ
  pub msec : ℤ
  pub microsec : ℤ
  pub nsec : ℤ

-- The text for `thread_dt`.
abbrev pub report_of : ℤ → Timespec → Report
report_of thread_idx thread_dt = record {
  idx = thread_idx;
  sec = thread_dt.tv_sec;
  msec = quotient thread_dt.tv_nsec 1_000_000;
  microsec = quotient thread_dt.tv_nsec 1000;
  nsec = thread_dt.tv_nsec;
}

-- `counterThread`, with the two readings of the clock; what `delta_t` returns is not looked at.
unfoldable pub counter_thread :
    ℕ → ℕ → ℕ → Timespec → Timespec → ℤ → Globals → Run (Report × Globals)
counter_thread fuel rounds inner start finish thread_idx g =
    let zero_dt : Timespec = clock 0 0 in
    compute fuel rounds inner thread_idx g >>= λ r.
    done (report_of thread_idx (delta_t finish start zero_dt).delta, r.1)

-- The thread with index t ends, on the variables as they are initialised, and where the clock did not
-- go back, the seconds and nanoseconds that it prints are the time between its two readings, with less
-- than 10^9 nanoseconds; the milliseconds and microseconds are those of the nanoseconds alone. It holds
-- up to t + 1000 = 2 ^ 15 and for seconds of the clock below 2 ^ 31, with fuel as for the compute
-- section.
pub counter_thread-reports :
    (fuel rounds inner t a b x y : ℕ)
    → t + 1000 ≤ 2 ^ 15
    → t + 1000 ≤ fuel
    → req_iterations < rounds
    → seq_iterations < inner
    → a < 2 ^ 31
    → b < 2 ^ 31
    → x < 1_000_000_000
    → y < 1_000_000_000
    → instant b y ≤ instant a x
    → (s : ℕ) × (k : ℕ) × (h : Globals) × (counter_thread fuel rounds inner
          (clock b y)
          (clock a x)
          (pos t)
          globals
        ≡ done (
          record {
            idx = pos t;
            sec = pos s;
            msec = pos (k / 1_000_000);
            microsec = pos (k / 1000);
            nsec = pos k;
          },
          h,
        ))
      × (instant s k + instant b y ≡ instant a x)
      × (k < 1_000_000_000)
unfolding counter_thread
counter_thread-reports fuel rounds inner t a b x y small f r i al bl xl yl later =
    let (sum, h, e, _) = compute-result fuel rounds inner t small f r i in
    let (s, k, d, below, split) = delta_t-later a b x y (clock 0 0) al bl xl yl later in
    (s, k, h, rw e (rw d refl), split, below)
