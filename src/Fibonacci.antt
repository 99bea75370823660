-- ===== src/Fibonacci.antt =====
-- The Fibonacci numbers, for the loops that burn time in 06-rt-simplethread/pthread.c and
-- 07-hardcoded-sequencer/lab1.c, and their arithmetic modulo 2 ^ 32.
use native.Mathlib.Nat.{add-zero, add-suc, le_refl}
use native.Mathlib.Numerals.{towards_suc}
use ucb_rtes.Base.{ℕ, zero, suc, ◌+◌, sym, ◌-◌, ◌%◌, ◌^◌, ◌<◌, ◌≤◌, ◌≡◌, refl, arith}

pub fibonacci : ℕ → ℕ
fibonacci zero = 0
fibonacci (suc zero) = 1
fibonacci (suc (suc n)) = fibonacci (suc n) + fibonacci n

-- `unsigned int`
abbrev pub u32 : ℕ → ℕ
u32 n = n % 2 ^ 32

pub fibonacci-zero : fibonacci 0 ≡ 0
unfolding fibonacci
fibonacci-zero = refl

pub fibonacci-one : fibonacci 1 ≡ 1
unfolding fibonacci
fibonacci-one = refl

pub fibonacci-two : fibonacci 2 ≡ 1
unfolding fibonacci
fibonacci-two = refl

pub fibonacci-add : (n : ℕ) → fibonacci (n + 2) ≡ fibonacci (n + 1) + fibonacci n
unfolding fibonacci
fibonacci-add n = simp towards_suc

-- One addition of the programs, on values that are kept modulo 2 ^ 32.
pub u32-add : (a b : ℕ) → u32 (u32 a + u32 b) ≡ u32 (a + b)
u32-add a b = omega arith

fibonacci-suc-le : (n : ℕ) → fibonacci n ≤ fibonacci (suc n)
unfolding fibonacci
fibonacci-suc-le zero = omega arith
fibonacci-suc-le (suc n) = omega arith

fibonacci_mono : (n d : ℕ) → fibonacci n ≤ fibonacci (n + d)
fibonacci_mono n zero = rw add-zero (le_refl _)
fibonacci_mono n (suc d) = rw add-suc (omega (arith, fibonacci_mono n d, fibonacci-suc-le (n + d)))

-- From a pair of neighbours, n places on: the numbers in linear time.
walk : ℕ → ℕ → ℕ → ℕ
walk a b zero = a
walk a b (suc n) = walk b (a + b) n

sum : (k : ℕ) → fibonacci k + fibonacci (k + 1) ≡ fibonacci (k + 1 + 1)
unfolding fibonacci
sum k = simp towards_suc (omega arith)

walk-fibonacci : (n k : ℕ) → walk (fibonacci k) (fibonacci (k + 1)) n ≡ fibonacci (k + n)
unfolding walk
walk-fibonacci zero k = rw add-zero
walk-fibonacci (suc n) k =
    let e : k + suc n ≡ k + 1 + n = omega arith in
    let f : fibonacci k + fibonacci (k + 1) ≡ fibonacci (k + 1 + 1) = sum k in
    rw e (rw f (walk-fibonacci n (k + 1)))

pub fibonacci_48 : fibonacci 48 ≡ 4_807_526_976
unfolding fibonacci walk
fibonacci_48 = sym (walk-fibonacci 48 0)

fibonacci_47 : fibonacci 47 ≡ 2_971_215_073
unfolding fibonacci walk
fibonacci_47 = sym (walk-fibonacci 47 0)

-- F(47) is the last Fibonacci number that fits 32 bits.
pub fibonacci-lt : (n : ℕ) → n ≤ 47 → fibonacci n < 2 ^ 32
fibonacci-lt n h =
    let e : n + (47 - n) ≡ 47 = omega arith in
    let m : fibonacci n ≤ fibonacci 47 = rw e at (fibonacci_mono n (47 - n)) in
    omega (arith, fibonacci_47)
