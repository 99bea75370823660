-- ===== src/Readings/Tests.antt =====
-- Readings of the clock in whole milliseconds, where division drops what is below one: a type of numbers
-- that meets what is asked of `double`.
use ucb_rtes.Base.{ℕ, ◌+◌, ◌-◌, ◌*◌, ◌/◌, ◌<◌, ◌≤◌, ◌≡◌, refl, inl, arith}
use ucb_rtes.Base.Int.{pos}
use native.Mathlib.Nat.{le-div_iff_mul-le, div-mul-le_self, mul-div_cancel, le_trans}
use ucb_rtes.Posix.{Timespec}
use ucb_rtes.Readings.{
  Double, IsRounded, get_time_msec, realtime, since_start, run_time, required_test_cycles,
}
use ucb_rtes.Readings.Order.{readings_in_order}

abbrev whole : Double ℕ
whole = record {
  of_nat = λ n. n;
  add = λ a b. a + b;
  sub = λ a b. a - b;
  mul = λ a b. a * b;
  div = λ a b. a / b;
  to_int = λ a. pos a;
  le = λ a b. a ≤ b;
}

div_mono : (a b k : ℕ) → 0 < k → a ≤ b → a / k ≤ b / k
div_mono a b k p h = (le-div_iff_mul-le p).1 (le_trans (div-mul-le_self a k) h)

whole-IsRounded : IsRounded whole
whole-IsRounded = record {
  le_trans = λ x y z p q. omega arith;
  of_nat_mono = λ a b h p. h;
  add_mono = λ x y z w a b c e p q. omega arith;
  sub_mono = λ x y z a b c p. omega arith;
  sub_self = λ x a. omega arith;
  div_mono = λ x y k a b p q h. div_mono x y k p h;
  add_exact = λ a b h. refl;
  mul_exact = λ a b h. refl;
  div_exact = λ a b p q h. mul-div_cancel a p;
}

abbrev first : Timespec
first = record { tv_sec = 7; tv_nsec = 999_000_000 }

abbrev second : Timespec
second = record { tv_sec = 8; tv_nsec = 1_000_000 }

-- 2 ms for the test cycles, so 5 of them make 10 ms.
five_cycles : required_test_cycles whole 10 first second ≡ pos 5
unfolding required_test_cycles
five_cycles = refl

readings_in_order_example :
    (get_time_msec whole first ≤ get_time_msec whole second)
    × (realtime whole first ≤ realtime whole second)
    × (since_start whole 3 first ≤ since_start whole 3 second)
    × (0 ≤ run_time whole first second)
readings_in_order_example =
    readings_in_order whole whole-IsRounded first second 3 (omega arith) (omega arith) (omega arith)
      (omega arith, omega arith) (inl (omega arith))
