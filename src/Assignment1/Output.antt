-- ===== src/Assignment1/Output.antt =====
-- 05-assignment1/pthread.cpp: what `exec` returns.
use mathlib.Core.List.{append-nil, append_assoc}
use ucb_rtes.Base.{
  ℕ, zero, suc, ◌+◌, ◌<◌, ◌≤◌, ◌≡◌, refl, ap, sym, ◌∙◌, true, false, some, List, [], ◌∷◌, ◌++◌, ◌⊎◌,
  inl, inr, Bool-cases, length, length-append, arith,
}
use ucb_rtes.Base.Bytes.{c_str, c_str-le, c_str-eq, has_nul, has_nul-append}
use ucb_rtes.Base.Run.{done}
use ucb_rtes.Assignment1.{get_line, fgets, read_loop, returned, exec}

get_line-append : (n : ℕ) (xs : List ℕ) → (get_line n xs).0 ++ (get_line n xs).1 ≡ xs
unfolding get_line
get_line-append zero xs = refl
get_line-append (suc n) [] = refl
get_line-append (suc n) (x ∷ xs) = ground (arith, get_line-append n xs)

get_line-shorter : (n x : ℕ) (xs : List ℕ) → length (get_line (suc n) (x ∷ xs)).1 ≤ length xs
unfolding get_line
get_line-shorter zero x xs = ground arith
get_line-shorter (suc n) x [] = ground arith
get_line-shorter (suc n) x (y ∷ ys) = ground (arith, get_line-shorter n y ys)

-- The two parts of a stream have no NUL if it has none.
has_nul-parts :
    (n : ℕ) (xs : List ℕ)
    → has_nul xs ≡ false
    → (has_nul (get_line n xs).0 ≡ false) × (has_nul (get_line n xs).1 ≡ false)
has_nul-parts n xs h =
    let e = has_nul-append (get_line n xs).0 (get_line n xs).1 in
    ground (arith, rw (get_line-append n xs) at e)

read_loop-returns :
    (fuel : ℕ) (xs acc : List ℕ)
    → length xs < fuel
    → (r : List ℕ) × (read_loop fuel xs acc ≡ done r)
      × (length r ≤ length acc + length xs)
      × (has_nul xs ≡ false → r ≡ acc ++ xs)
unfolding read_loop fgets
read_loop-returns zero xs acc f = absurd (omega arith)
read_loop-returns (suc fuel) [] acc f = (acc, refl, omega arith, λ h. sym (append-nil acc))
read_loop-returns (suc fuel) (x ∷ xs) acc f =
    let p = get_line 127 (x ∷ xs) in
    let s = get_line-shorter 126 x xs in
    let (r, e, b, q) = read_loop-returns fuel p.1 (acc ++ c_str p.0) (omega (arith, s)) in
    (
      r,
      e,
      omega (
        arith,
        b,
        c_str-le p.0,
        length-append acc (c_str p.0),
        length-append p.0 p.1,
        ap length (get_line-append 127 (x ∷ xs)),
      ),
      λ h.
          let (h₀, h₁) = has_nul-parts 127 (x ∷ xs) h in
          q h₁
          ∙ append_assoc acc (c_str p.0) p.1
          ∙ ap (λ l. acc ++ l)
              (ap (λ l. l ++ p.1) (c_str-eq p.0 h₀) ∙ get_line-append 127 (x ∷ xs)),
    )

-- For every stream, with fuel for one line more than it has bytes, `exec` ends; its result is no longer
-- than the stream, and it is the stream if no byte of that is a NUL, however the lines fall into the
-- buffer of 128 bytes.
pub exec-returns :
    (fuel : ℕ) (stream : List ℕ)
    → length stream < fuel
    → (r : List ℕ) × (exec fuel (some stream) ≡ done (returned r))
      × (length r ≤ length stream)
      × ((has_nul stream ≡ true) ⊎ (r ≡ stream))
unfolding exec
exec-returns fuel xs f =
    let (r, e, b, q) = read_loop-returns fuel xs [] f in
    (
      r,
      rw e refl,
      omega (arith, b),
      elim (Bool-cases (has_nul xs)) [ inl n ↦ inl n | inr n ↦ inr (q n) ],
    )
