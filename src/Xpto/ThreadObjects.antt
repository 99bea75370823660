-- ===== src/Xpto/ThreadObjects.antt =====
-- Thread objects that a program constructs one after the other, in a scope that catches nothing: the
-- programs 01, 04, 06 and 07 in C++. An exception that nothing catches ends the process by
-- `std::terminate`, and no destructor runs. Destructors, or a loop, join the threads.
use native.Mathlib.Decide.{dec_lt}
use ucb_rtes.Base.{
  ℕ, zero, suc, ◌+◌, ◌<◌, ◌≤◌, ◌≡◌, ◌⊎◌, refl, inl, inr, Bool, true, false, List, [], ◌∷◌, arith,
  if◌then◌else◌, Bool-cases, ap,
}

-- How a program ends: with the threads joined in this order, or by `std::terminate`.
pub data Ending : Type 0 where
  joins : List ℕ → Ending
  terminates : Ending

abbrev pub then_join : ℕ → Ending → Ending
then_join k (joins ks) = joins (k ∷ ks)
then_join k terminates = terminates

-- `emplace_back`, or an assignment to an element, for threads `i` and up, `left` of them, where the
-- constructor of thread k returns if `ok k`; then each is joined, in the order of the elements.
unfoldable pub emplace_all : (ℕ → Bool) → ℕ → ℕ → Ending
emplace_all ok zero i = joins []
emplace_all ok (suc left) i = if ok i then then_join i (emplace_all ok left (i + 1)) else terminates

-- `left` numbers from `i` on.
abbrev pub from_to : ℕ → ℕ → List ℕ
from_to i zero = []
from_to i (suc left) = i ∷ from_to (i + 1) left

-- Either all constructors return, and all threads are joined in order, or one throws, and the program
-- ends by `std::terminate`.
pub emplace_all-cases :
    (ok : ℕ → Bool) (left i : ℕ)
    → ((emplace_all ok left i ≡ joins (from_to i left))
        × ((j : ℕ) → i ≤ j → j < i + left → ok j ≡ true))
      ⊎ ((emplace_all ok left i ≡ terminates) × (j : ℕ) × (i ≤ j) × (j < i + left) × (ok j ≡ false))
unfolding emplace_all
emplace_all-cases ok zero i = inl (refl, λ j p q. absurd (omega arith))
emplace_all-cases ok (suc left) i = elim (Bool-cases (ok i)) [
  | inr bad ↦ inr (rw bad refl, i, omega arith, omega arith, bad)
  | inl good ↦ elim (emplace_all-cases ok left (i + 1)) [
    | inl (e, all) ↦ inl (
      rw good (ap (then_join i) e),
      λ j p q. elim (dec_lt i j) [
        | yes above ↦ all j (omega arith) (omega arith)
        | no same ↦ let f : j ≡ i = omega arith in rw f good
      ],
    )
    | inr (e, j, p, q, f) ↦ inr (rw good (ap (then_join i) e), j, omega arith, omega arith, f)
  ]
]

pub emplace_all-joins :
    (ok : ℕ → Bool) (left i : ℕ) (ks : List ℕ)
    → emplace_all ok left i ≡ joins ks
    → (ks ≡ from_to i left) × ((j : ℕ) → i ≤ j → j < i + left → ok j ≡ true)
emplace_all-joins ok left i ks e = elim (emplace_all-cases ok left i) [
  | inl (f, all) ↦ (cc, all)
  | inr (f, _, _, _, _) ↦ absurd (ground arith)
]

pub then_join-inv :
    (k : ℕ) (r : Ending) (ks : List ℕ)
    → then_join k r ≡ joins ks
    → (js : List ℕ) × (r ≡ joins js) × (ks ≡ k ∷ js)
then_join-inv k (joins js) ks e = (js, refl, ground arith)
then_join-inv k terminates ks e = absurd (ground arith)
