-- ===== src/Xpto/Semaphore/Names.antt =====
-- semaphore.hpp: the automatic names of one process differ.
use ucb_rtes.Base.{
  ℕ, zero, suc, ◌+◌, ◌-◌, ◌*◌, ◌/◌, ◌%◌, ◌<◌, ◌≡◌, refl, ap, List, [], ◌∷◌, ◌++◌, arith, ltb,
  Bool-cases, inl, inr,
}
use ucb_rtes.Xpto.Semaphore.{digits, auto_text}

-- The number that a text of digits stands for, behind `a`.
read_from : ℕ → List ℕ → ℕ
read_from a [] = a
read_from a (c ∷ cs) = read_from (a * 10 + (c - 48)) cs

read_from-append : (a : ℕ) (xs ys : List ℕ) → read_from a (xs ++ ys) ≡ read_from (read_from a xs) ys
unfolding read_from
read_from-append a [] ys = refl
read_from-append a (x ∷ xs) ys = read_from-append (a * 10 + (x - 48)) xs ys

read_from-digits : (fuel n : ℕ) → n < fuel → read_from 0 (digits fuel n) ≡ n
unfolding digits read_from
read_from-digits zero n h = absurd (omega arith)
read_from-digits (suc fuel) n h = elim (Bool-cases (ltb n 10)) [
  | inl one ↦ rw one (omega arith)
  | inr more ↦
      let l : n / 10 < fuel = ground arith in
      rw more (
        rw (read_from-append 0 (digits fuel (n / 10)) ((48 + n % 10) ∷ []))
          (rw (read_from-digits fuel (n / 10) l) (omega arith)))
]

-- What stands behind "hmmm_".
abbrev number_part : List ℕ → List ℕ
number_part (_ ∷ _ ∷ _ ∷ _ ∷ _ ∷ ds) = ds
number_part _ = []

read-auto_text : (n : ℕ) → read_from 0 (number_part (auto_text n)) ≡ n
unfolding auto_text
read-auto_text n = read_from-digits (n + 1) n (omega arith)

-- The names of two semaphores that a process constructs without names are different.
pub auto_text-inj : (i j : ℕ) → auto_text i ≡ auto_text j → i ≡ j
auto_text-inj i j e =
    cc (read-auto_text i, read-auto_text j, ap (λ (t : List ℕ). read_from 0 (number_part t)) e)
