-- ===== src/Base/Bytes.antt =====
-- Bytes of a buffer, and the strings of C in them.
use ucb_rtes.Base.{
  ℕ, ◌≤◌, ◌≡◌, refl, Bool, false, ◌||◌, List, [], ◌∷◌, ◌++◌, ◌==◌, if◌then◌else◌, length, arith,
}

-- The bytes of a buffer as a string: they end at the first NUL.
unfoldable pub c_str : List ℕ → List ℕ
c_str [] = []
c_str (x ∷ xs) = let rest = c_str xs in if x == 0 then [] else x ∷ rest

-- A NUL is among the bytes.
abbrev pub has_nul : List ℕ → Bool
has_nul [] = false
has_nul (x ∷ xs) = (x == 0) || has_nul xs

pub c_str-le : (xs : List ℕ) → length (c_str xs) ≤ length xs
unfolding c_str
c_str-le [] = omega arith
c_str-le (x ∷ xs) = ground (arith, c_str-le xs)

pub c_str-eq : (xs : List ℕ) → has_nul xs ≡ false → c_str xs ≡ xs
unfolding c_str
c_str-eq [] h = refl
c_str-eq (x ∷ xs) h = ground (arith, c_str-eq xs)

pub has_nul-append : (xs ys : List ℕ) → has_nul (xs ++ ys) ≡ (has_nul xs || has_nul ys)
has_nul-append [] ys = refl
has_nul-append (x ∷ xs) ys = ground (arith, has_nul-append xs ys)
