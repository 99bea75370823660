-- ===== src/RtThread/DeltaT.antt =====
-- `delta_t` of 06-rt-simplethread/pthread.c, the difference of two points in time. The fields of
-- `struct timespec` are `long`, and the differences are narrowed to `int`.
use native.Mathlib.Decide.{dec_lt, dec_le}
use ucb_rtes.Base.{
  leb, ℕ, ◌+◌, ◌*◌, ◌^◌, ◌-◌, ◌<◌, ◌≤◌, ◌≡◌, Bool, not, ◌&&◌, ◌==◌, arith, if◌then◌else◌,
}
use ucb_rtes.Base.Int.{ℤ, pos, negsuc, ◌+ℤ◌, ◌-ℤ◌, ltb_ℤ, ==_ℤ, int_laws}
use ucb_rtes.Base.Word.{to_int, to_int-eq}

abbrev pub nsec_per_sec : ℤ
nsec_per_sec = pos 1_000_000_000

-- `struct timespec`
pub record Timespec : Type 0 where
  pub tv_sec : ℤ
  pub tv_nsec : ℤ

-- OK (0) or ERROR (-1), and what `*delta_t` holds behind the call.
pub record Result : Type 0 where
  pub rc : ℤ
  pub delta : Timespec

abbrev pub ok : Timespec → Result
ok d = record { rc = pos 0; delta = d }

abbrev pub error : Timespec → Result
error d = record { rc = negsuc 0; delta = d }

-- `0 <= n && n < NSEC_PER_SEC`
abbrev in_second : ℤ → Bool
in_second n = not (ltb_ℤ n (pos 0)) && ltb_ℤ n nsec_per_sec

-- The `if` on dt_sec.
pub delta_by : ℤ → ℤ → Timespec → Result
delta_by dt_sec dt_nsec d =
    if ==_ℤ dt_sec (pos 0)
    then if in_second dt_nsec
      then ok (record { tv_sec = pos 0; tv_nsec = dt_nsec })
      else if ltb_ℤ nsec_per_sec dt_nsec
      then ok (record { tv_sec = pos 1; tv_nsec = dt_nsec -ℤ nsec_per_sec })
      else error d
    else if ltb_ℤ (pos 0) dt_sec
    then if in_second dt_nsec
      then ok (record { tv_sec = dt_sec; tv_nsec = dt_nsec })
      else if ltb_ℤ nsec_per_sec dt_nsec
      then ok (record { tv_sec = d.tv_sec +ℤ pos 1; tv_nsec = dt_nsec -ℤ nsec_per_sec })
      else ok (record { tv_sec = dt_sec -ℤ pos 1; tv_nsec = nsec_per_sec +ℤ dt_nsec })
    else ok d

-- `delta_t(stop, start, delta)`.
unfoldable pub delta_t : Timespec → Timespec → Timespec → Result
unfolding delta_by
delta_t stop start d =
    delta_by (to_int (stop.tv_sec -ℤ start.tv_sec)) (to_int (stop.tv_nsec -ℤ start.tv_nsec)) d

-- A clock's value, and what it is in nanoseconds.
abbrev pub clock : ℕ → ℕ → Timespec
clock a x = record { tv_sec = pos a; tv_nsec = pos x }

abbrev pub instant : ℕ → ℕ → ℕ
instant a x = a * 1_000_000_000 + x

-- The difference of two numbers below 2 ^ 31 is an `int`.
diff-eq : (a b : ℕ) → a < 2 ^ 31 → b < 2 ^ 31 → to_int (pos a -ℤ pos b) ≡ pos a -ℤ pos b
diff-eq a b ah bh = to_int-eq (pos a -ℤ pos b) (omega int_laws, omega int_laws)

sub-pos : (a b : ℕ) → b ≤ a → pos a -ℤ pos b ≡ pos (a - b)
unfolding ◌-ℤ◌
sub-pos a b h = ground arith

sub-negsuc : (a b : ℕ) → a < b → pos a -ℤ pos b ≡ negsuc (b - a - 1)
unfolding ◌-ℤ◌
sub-negsuc a b h = ground arith

-- The branches, by the signs of the two differences.
same_sign :
    (m k : ℕ) (d : Timespec)
    → k < 1_000_000_000
    → delta_by (pos m) (pos k) d ≡ ok (record { tv_sec = pos m; tv_nsec = pos k })
unfolding delta_by
same_sign m k d h = ground arith

roll_over :
    (m k : ℕ) (d : Timespec)
    → 0 < m
    → k < 1_000_000_000
    → delta_by (pos m) (negsuc k) d
      ≡ ok (record { tv_sec = pos (m - 1); tv_nsec = pos (999_999_999 - k) })
unfolding delta_by ◌-ℤ◌ ◌+ℤ◌
roll_over m k d p h = ground arith

just_earlier : (k : ℕ) (d : Timespec) → delta_by (pos 0) (negsuc k) d ≡ error d
unfolding delta_by
just_earlier k d = ground arith

seconds_earlier : (m : ℕ) (n : ℤ) (d : Timespec) → delta_by (negsuc m) n d ≡ ok d
unfolding delta_by
seconds_earlier m n d = ground arith

-- The difference of two clock values, the first not below the second.
abbrev pub difference : ℕ → ℕ → ℕ → ℕ → Timespec
difference a b x y =
    if leb y x
    then record { tv_sec = pos (a - b); tv_nsec = pos (x - y) }
    else record { tv_sec = pos (a - b - 1); tv_nsec = pos (1_000_000_000 + x - y) }

difference_parts :
    (a b x y : ℕ)
    → x < 1_000_000_000
    → y < 1_000_000_000
    → instant b y ≤ instant a x
    → (h : ℕ) × (k : ℕ) × (ok (difference a b x y) ≡ ok (clock h k))
      × (k < 1_000_000_000)
      × (instant h k + instant b y ≡ instant a x)
difference_parts a b x y xl yl h = elim (dec_le y x) [
  | yes p ↦ (a - b, x - y, ground arith, omega arith, omega arith)
  | no p ↦ (a - b - 1, 1_000_000_000 + x - y, ground arith, omega arith, omega arith)
]

delta_by-later :
    (a b x y : ℕ) (d : Timespec)
    → x < 1_000_000_000
    → y < 1_000_000_000
    → b * 1_000_000_000 + y ≤ a * 1_000_000_000 + x
    → delta_by (pos a -ℤ pos b) (pos x -ℤ pos y) d ≡ ok (difference a b x y)
delta_by-later a b x y d xl yl h = elim (dec_le y x) [
  | yes p ↦
      rw (sub-pos a b (omega arith))
        (rw (sub-pos x y p) (ground (arith, same_sign (a - b) (x - y) d (omega arith))))
  | no p ↦ rw (sub-pos a b (omega arith)) (
      rw (sub-negsuc x y (omega arith))
        (ground (arith, roll_over (a - b) (y - x - 1) d (omega arith) (omega arith))))
]

delta_by-earlier :
    (a b x y : ℕ) (d : Timespec)
    → x < 1_000_000_000
    → y < 1_000_000_000
    → a * 1_000_000_000 + x < b * 1_000_000_000 + y
    → delta_by (pos a -ℤ pos b) (pos x -ℤ pos y) d ≡ (if a == b then error d else ok d)
delta_by-earlier a b x y d xl yl h = elim (dec_lt a b) [
  | yes p ↦ rw (sub-negsuc a b p) (ground (arith, seconds_earlier (b - a - 1) (pos x -ℤ pos y) d))
  | no p ↦
      let e : a - b ≡ 0 = omega arith in
      rw (sub-pos a b (omega arith))
        (rw e (rw (sub-negsuc x y (omega arith)) (ground (arith, just_earlier (y - x - 1) d))))
]

-- For two clock values with seconds below 2 ^ 31, the first not before the second, delta_t returns OK,
-- and what it stores is their difference: a clock value with less than 10^9 nanoseconds that gives
-- the first when it is added to the second.
pub delta_t-later :
    (a b x y : ℕ) (d : Timespec)
    → a < 2 ^ 31
    → b < 2 ^ 31
    → x < 1_000_000_000
    → y < 1_000_000_000
    → instant b y ≤ instant a x
    → (h : ℕ) × (k : ℕ) × (delta_t (clock a x) (clock b y) d ≡ ok (clock h k))
      × (k < 1_000_000_000)
      × (instant h k + instant b y ≡ instant a x)
unfolding delta_t
delta_t-later a b x y d al bl xl yl h = rw (diff-eq a b al bl) (
    rw (diff-eq x y (omega arith) (omega arith))
      (rw (delta_by-later a b x y d xl yl h) (difference_parts a b x y xl yl h)))

-- When the first of two clock values, with seconds below 2 ^ 31 and nanoseconds below 10^9, is
-- before the second, delta_t stores nothing. It returns ERROR if their seconds are the same; if the
-- seconds are lower too, it returns OK all the same.
pub delta_t-earlier :
    (a b x y : ℕ) (d : Timespec)
    → a < 2 ^ 31
    → b < 2 ^ 31
    → x < 1_000_000_000
    → y < 1_000_000_000
    → instant a x < instant b y
    → delta_t (clock a x) (clock b y) d ≡ (if a == b then error d else ok d)
unfolding delta_t
delta_t-earlier a b x y d al bl xl yl h =
    rw (diff-eq a b al bl)
      (rw (diff-eq x y (omega arith) (omega arith)) (delta_by-earlier a b x y d xl yl h))
