-- ===== src/Readings/Order.antt =====
-- Readings of a clock that does not go back are in order, however their computation is rounded.
use ucb_rtes.Base.{ℕ, ◌+◌, ◌*◌, ◌^◌, ◌<◌, ◌≤◌, ◌≡◌, inl, inr, refl, sym, ap, arith}
use ucb_rtes.Posix.{Timespec, nanosec_per_sec}
use ucb_rtes.Readings.{
  Double, IsRounded, IsSmall, get_time_msec, realtime, since_start, run_time, NotLater,
}

-- A second more than the value of the clock, in units, is below 2 ^ 53.
abbrev Fits : ℕ → Timespec → Type 0
Fits per t = t.tv_sec * per + per < 2 ^ 53

earlier-Fits : (per : ℕ) (t u : Timespec) → NotLater t u → Fits per u → Fits per t
earlier-Fits per t u (inl later) b =
    let l : t.tv_sec * per ≤ u.tv_sec * per = grind arith in omega (arith, l, b)
earlier-Fits per t u (inr (same, l)) b = rw same b

module _ {W : Type 0} (d : Double W) (r : IsRounded d) where
  of_nat-IsSmall : (n : ℕ) → n ≤ 2 ^ 53 → IsSmall d (d.of_nat n)
  of_nat-IsSmall n h = (r.of_nat_mono 0 n (omega arith) h, r.of_nat_mono n (2 ^ 53) h (omega arith))

  -- The nanoseconds in units, and a number of units per second with them; `nsec` nanoseconds make a
  -- unit.
  abbrev part : ℕ → Timespec → W
  part nsec t = d.div (d.of_nat t.tv_nsec) (d.of_nat nsec)

  abbrev units : ℕ → ℕ → Timespec → W
  units per nsec t = d.add (d.of_nat (t.tv_sec * per)) (part nsec t)

  module _ (per nsec : ℕ) (e : per * nsec ≡ nanosec_per_sec) (n : 0 < nsec)
      (n' : nsec < 2 ^ 53) where
    part_mono :
        (t u : Timespec)
        → u.tv_nsec < nanosec_per_sec
        → t.tv_nsec ≤ u.tv_nsec
        → d.le (part nsec t) (part nsec u)
    part_mono t u h l =
        r.div_mono _ _ nsec (of_nat-IsSmall t.tv_nsec (omega arith))
          (of_nat-IsSmall u.tv_nsec (omega arith)) n n' (r.of_nat_mono _ _ l (omega arith))

    part_low : (t : Timespec) → t.tv_nsec < nanosec_per_sec → d.le (d.of_nat 0) (part nsec t)
    part_low t h =
        let zero_part : d.div (d.of_nat 0) (d.of_nat nsec) ≡ d.of_nat 0 =
          let z : 0 * nsec ≡ 0 = omega arith in rw z at (r.div_exact 0 nsec n n' (omega arith)) in
        rw zero_part at (part_mono (record { tv_sec = 0; tv_nsec = 0 }) t h (omega arith))

    part_high : (t : Timespec) → t.tv_nsec < nanosec_per_sec → d.le (part nsec t) (d.of_nat per)
    part_high t h = rw (r.div_exact per nsec n n' (omega (arith, e))) at (
        r.div_mono (d.of_nat t.tv_nsec) (d.of_nat (per * nsec)) nsec
          (of_nat-IsSmall t.tv_nsec (omega arith)) (of_nat-IsSmall (per * nsec) (omega (arith, e)))
          n n' (r.of_nat_mono t.tv_nsec (per * nsec) (omega (arith, e)) (omega (arith, e))))

    part-IsSmall :
        (t : Timespec) → t.tv_nsec < nanosec_per_sec → per ≤ 2 ^ 53 → IsSmall d (part nsec t)
    part-IsSmall t h p = (part_low t h, r.le_trans _ _ _ (part_high t h) (of_nat-IsSmall per p).1)

    below_next_second :
        (t : Timespec)
        → t.tv_nsec < nanosec_per_sec
        → Fits per t
        → d.le (units per nsec t) (d.of_nat (t.tv_sec * per + per))
    below_next_second t h b =
        let whole : IsSmall d (d.of_nat (t.tv_sec * per)) =
          of_nat-IsSmall (t.tv_sec * per) (omega (arith, b)) in
        rw (r.add_exact (t.tv_sec * per) per b) at (
          r.add_mono _ _ _ _ whole whole (part-IsSmall t h (omega (arith, b)))
            (of_nat-IsSmall per (omega (arith, b)))
            (r.of_nat_mono _ _ (omega arith) (omega (arith, b))) (part_high t h))

    above_second :
        (t : Timespec)
        → t.tv_nsec < nanosec_per_sec
        → Fits per t
        → d.le (d.of_nat (t.tv_sec * per)) (units per nsec t)
    above_second t h b =
        let whole : IsSmall d (d.of_nat (t.tv_sec * per)) =
          of_nat-IsSmall (t.tv_sec * per) (omega (arith, b)) in
        let sum : d.add (d.of_nat (t.tv_sec * per)) (d.of_nat 0) ≡ d.of_nat (t.tv_sec * per) =
          let z : t.tv_sec * per + 0 ≡ t.tv_sec * per = omega arith in
          rw z at (r.add_exact (t.tv_sec * per) 0 (omega (arith, b))) in
        rw sum at (
          r.add_mono _ _ _ _ whole whole (of_nat-IsSmall 0 (omega arith))
            (part-IsSmall t h (omega (arith, b)))
            (r.of_nat_mono _ _ (omega arith) (omega (arith, b))) (part_low t h))

    units-IsSmall :
        (t : Timespec) → t.tv_nsec < nanosec_per_sec → Fits per t → IsSmall d (units per nsec t)
    units-IsSmall t h b = (
      r.le_trans _ _ _ (of_nat-IsSmall (t.tv_sec * per) (omega (arith, b))).0 (above_second t h b),
      r.le_trans _ _ _ (below_next_second t h b)
          (of_nat-IsSmall (t.tv_sec * per + per) (omega (arith, b))).1,
    )

    units_order :
        (t u : Timespec)
        → t.tv_nsec < nanosec_per_sec
        → u.tv_nsec < nanosec_per_sec
        → Fits per u
        → NotLater t u
        → d.le (units per nsec t) (units per nsec u)
    units_order t u h i b (inl later) =
        let next : t.tv_sec * per + per ≤ u.tv_sec * per = grind arith in
        r.le_trans _ _ _ (below_next_second t h (earlier-Fits per t u (inl later) b)) (
          r.le_trans _ _ _ (r.of_nat_mono (t.tv_sec * per + per) _ next (omega (arith, b)))
            (above_second u i b))
    units_order t u h i b (inr (same, l)) =
        let b' : Fits per t = earlier-Fits per t u (inr (same, l)) b in
        let s : t.tv_sec * per ≡ u.tv_sec * per = ap (λ (k : ℕ). k * per) same in
        r.add_mono _ _ _ _ (of_nat-IsSmall _ (omega (arith, b')))
          (of_nat-IsSmall _ (omega (arith, b))) (part-IsSmall t h (omega (arith, b)))
          (part-IsSmall u i (omega (arith, b)))
          (r.of_nat_mono _ _ (omega (arith, s)) (omega (arith, b))) (part_mono t u i l)

  get_time_msec-units : (t : Timespec) → Fits 1000 t → get_time_msec d t ≡ units 1000 1_000_000 t
  unfolding get_time_msec
  get_time_msec-units t b =
      ap (λ x. d.add x (part 1_000_000 t)) (r.mul_exact t.tv_sec 1000 (omega (arith, b)))

  realtime-units : (t : Timespec) → realtime d t ≡ units 1 nanosec_per_sec t
  unfolding realtime
  realtime-units t =
      let e : t.tv_sec * 1 ≡ t.tv_sec = omega arith in
      ap (λ (n : ℕ). d.add (d.of_nat n) (part nanosec_per_sec t)) (sym e)

  get_time_msec-IsSmall :
      (t : Timespec) → t.tv_nsec < nanosec_per_sec → Fits 1000 t → IsSmall d (get_time_msec d t)
  get_time_msec-IsSmall t h b =
      rw (get_time_msec-units t b)
        (units-IsSmall 1000 1_000_000 refl (omega arith) (omega arith) t h b)

  realtime-IsSmall :
      (t : Timespec) → t.tv_nsec < nanosec_per_sec → Fits 1 t → IsSmall d (realtime d t)
  realtime-IsSmall t h b =
      rw (realtime-units t) (units-IsSmall 1 nanosec_per_sec refl (omega arith) (omega arith) t h b)

  -- For two values of a clock, the second not before the first, with less than 10^9 nanoseconds and a
  -- second that in milliseconds leaves a second to 2 ^ 53, and for a start time from 0 to 2 ^ 53:
  -- getTimeMsec and realtime do not go back, neither does getTimeMsec of seqgenex0.c, and the run time
  -- that the calibration of lab1.c computes is not negative.
  pub readings_in_order :
      (t u : Timespec) (start_time : W)
      → t.tv_nsec < nanosec_per_sec
      → u.tv_nsec < nanosec_per_sec
      → u.tv_sec * 1000 + 1000 < 2 ^ 53
      → IsSmall d start_time
      → NotLater t u
      → d.le (get_time_msec d t) (get_time_msec d u)
        × d.le (realtime d t) (realtime d u)
        × d.le (since_start d start_time t) (since_start d start_time u)
        × d.le (d.of_nat 0) (run_time d t u)
  unfolding since_start run_time
  readings_in_order t u start_time h i b s l =
      let b1 : Fits 1 u = omega (arith, b) in
      let b1' : Fits 1 t = earlier-Fits 1 t u l b1 in
      let a : Fits 1000 t = earlier-Fits 1000 t u l b in
      let small : IsSmall d (get_time_msec d t) = get_time_msec-IsSmall t h a in
      let msec : d.le (get_time_msec d t) (get_time_msec d u) = rw (get_time_msec-units t a) (
        rw (get_time_msec-units u b)
          (units_order 1000 1_000_000 refl (omega arith) (omega arith) t u h i b l)) in
      let sec : d.le (realtime d t) (realtime d u) = rw (realtime-units t) (
        rw (realtime-units u)
          (units_order 1 nanosec_per_sec refl (omega arith) (omega arith) t u h i b1 l)) in
      (
        msec,
        sec,
        r.sub_mono _ _ start_time (realtime-IsSmall t h b1') (realtime-IsSmall u i b1) s sec,
        rw (r.sub_self (get_time_msec d t) small) at
            (r.sub_mono _ _ (get_time_msec d t) small (get_time_msec-IsSmall u i b) small msec),
      )
