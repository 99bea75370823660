-- ===== src/Xpto/Resource/Ownership.antt =====
-- c_resource.hpp: no handle is lost or destructed twice.
use ucb_rtes.Base.{
  ℕ, zero, suc, ◌+◌, ◌≡◌, ◌≢◌, refl, Bool, true, false, some, List, [], ◌∷◌, ◌==◌, arith,
  if◌then◌else◌, Option-cases, inl, inr,
}
use ucb_rtes.Xpto.Resource.{
  State, init, payload_at, assign, remove, Op, default_construct, construct, move_construct, swap,
  destroy, clear, reset, release, apply, run,
}

-- How often a handle stands in a list.
unfoldable pub count : ℕ → List ℕ → ℕ
count h [] = 0
count h (x ∷ xs) = (if x == h then 1 else 0) + count h xs

count-assign :
    (h i v x : ℕ) (xs : List ℕ)
    → payload_at i xs ≡ some x
    → count h (assign i v xs) + (if x == h then 1 else 0) ≡ count h xs + (if v == h then 1 else 0)
unfolding count
count-assign h i v x [] e = ground arith
count-assign h zero v x (y ∷ xs) e = ground arith
count-assign h (suc i) v x (y ∷ xs) e = ground (arith, count-assign h i v x xs)

count-remove :
    (h i x : ℕ) (xs : List ℕ)
    → payload_at i xs ≡ some x
    → count h (remove i xs) + (if x == h then 1 else 0) ≡ count h xs
unfolding count
count-remove h i x [] e = ground arith
count-remove h zero x (y ∷ xs) e = ground arith
count-remove h (suc i) x (y ∷ xs) e = ground (arith, count-remove h i x xs)

payload_at-assign :
    (i j v x y : ℕ) (xs : List ℕ)
    → payload_at i xs ≡ some x
    → payload_at j xs ≡ some y
    → payload_at j (assign i v xs) ≡ some (if i == j then v else y)
payload_at-assign i j v x y [] e f = ground arith
payload_at-assign zero zero v x y (z ∷ xs) e f = ground arith
payload_at-assign zero (suc j) v x y (z ∷ xs) e f = ground arith
payload_at-assign (suc i) zero v x y (z ∷ xs) e f = ground arith
payload_at-assign (suc i) (suc j) v x y (z ∷ xs) e f =
    ground (arith, payload_at-assign i j v x y xs)

-- Each acquisition of a handle is accounted for.
abbrev pub IsAccounted : ℕ → State → Type 0
IsAccounted h s =
    count h s.acquired ≡ count h s.payloads + count h s.destructed + count h s.released

apply-IsAccounted :
    (invalid h : ℕ) (op : Op) (s : State)
    → h ≢ invalid
    → IsAccounted h s
    → IsAccounted h (apply invalid op s)
unfolding apply count
apply-IsAccounted invalid h default_construct s n a = ground arith
apply-IsAccounted invalid h (construct x) s n a = ground arith
apply-IsAccounted invalid h (move_construct i) s n a =
    elim (Option-cases (payload_at i s.payloads)) [
      | inl e ↦ rw e a
      | inr (x, e) ↦ rw e (ground (arith, count-assign h i invalid x s.payloads e))
    ]
apply-IsAccounted invalid h (swap i j) s n a = elim (Option-cases (payload_at i s.payloads)) [
  | inl e ↦ rw e a
  | inr (x, e) ↦ elim (Option-cases (payload_at j s.payloads)) [
    | inl f ↦ rw e (rw f a)
    | inr (y, f) ↦ rw e (
        rw f (
          ground (
            arith,
            count-assign h i y x s.payloads e,
            count-assign h j x y (assign i y s.payloads)
                (ground (arith, payload_at-assign i j y x y s.payloads e f)),
          )))
  ]
]
apply-IsAccounted invalid h (destroy i) s n a = elim (Option-cases (payload_at i s.payloads)) [
  | inl e ↦ rw e a
  | inr (x, e) ↦ rw e (ground (arith, count-remove h i x s.payloads e))
]
apply-IsAccounted invalid h (clear i) s n a = elim (Option-cases (payload_at i s.payloads)) [
  | inl e ↦ rw e a
  | inr (x, e) ↦ rw e (ground (arith, count-assign h i invalid x s.payloads e))
]
apply-IsAccounted invalid h (reset i ptr) s n a = elim (Option-cases (payload_at i s.payloads)) [
  | inl e ↦ rw e a
  | inr (x, e) ↦ rw e (ground (arith, count-assign h i ptr x s.payloads e))
]
apply-IsAccounted invalid h (release i) s n a = elim (Option-cases (payload_at i s.payloads)) [
  | inl e ↦ rw e a
  | inr (x, e) ↦ rw e (ground (arith, count-assign h i invalid x s.payloads e))
]

run-IsAccounted :
    (invalid h : ℕ) (ops : List Op) (s : State)
    → h ≢ invalid
    → IsAccounted h s
    → IsAccounted h (run invalid ops s)
unfolding run
run-IsAccounted invalid h [] s n a = a
run-IsAccounted invalid h (op ∷ ops) s n a =
    run-IsAccounted invalid h ops _ n (apply-IsAccounted invalid h op s n a)

-- Whatever the operations on whichever objects, each time that a handle other than `Invalid` was
-- acquired is accounted for: an object alive owns it, or `Destruct` was called with it, or `release`
-- gave it away, exactly one of these for each.
pub handles_conserved :
    (invalid h : ℕ) (ops : List Op)
    → h ≢ invalid
    → count h (run invalid ops init).acquired
      ≡ count h (run invalid ops init).payloads
        + count h (run invalid ops init).destructed
        + count h (run invalid ops init).released
unfolding count
handles_conserved invalid h ops n = run-IsAccounted invalid h ops init n refl

-- Some operation is a `reset`.
abbrev pub has_reset : List Op → Bool
has_reset [] = false
has_reset (reset i ptr ∷ ops) = true
has_reset (_ ∷ ops) = has_reset ops

apply-spares :
    (invalid : ℕ) (op : Op) (s : State)
    → has_reset (op ∷ []) ≡ false
    → count invalid s.destructed ≡ 0
    → count invalid (apply invalid op s).destructed ≡ 0
unfolding apply count
apply-spares invalid default_construct s r a = a
apply-spares invalid (construct x) s r a = a
apply-spares invalid (move_construct i) s r a = ground arith
apply-spares invalid (swap i j) s r a = ground arith
apply-spares invalid (destroy i) s r a = ground arith
apply-spares invalid (clear i) s r a = ground arith
apply-spares invalid (reset i ptr) s r a = ground arith
apply-spares invalid (release i) s r a = ground arith

has_reset-head :
    (op : Op) (ops : List Op) → has_reset (op ∷ ops) ≡ false → has_reset (op ∷ []) ≡ false
has_reset-head op ops r = ground arith

has_reset-tail : (op : Op) (ops : List Op) → has_reset (op ∷ ops) ≡ false → has_reset ops ≡ false
has_reset-tail op ops r = ground arith

run-spares :
    (invalid : ℕ) (ops : List Op) (s : State)
    → has_reset ops ≡ false
    → count invalid s.destructed ≡ 0
    → count invalid (run invalid ops s).destructed ≡ 0
unfolding run
run-spares invalid [] s r a = a
run-spares invalid (op ∷ ops) s r a =
    run-spares invalid ops _ (has_reset-tail op ops r)
      (apply-spares invalid op s (has_reset-head op ops r) a)

-- Whatever the operations but `reset`, `Destruct` is never called with `Invalid`; after them, `reset`
-- of an object that owns nothing calls it so.
pub invalid_spared :
    (invalid i ptr : ℕ) (ops : List Op)
    → has_reset ops ≡ false
    → payload_at i (run invalid ops init).payloads ≡ some invalid
    → (count invalid (run invalid ops init).destructed ≡ 0)
      × (count invalid (apply invalid (reset i ptr) (run invalid ops init)).destructed ≡ 1)
unfolding apply count
invalid_spared invalid i ptr ops r e =
    let z : count invalid (run invalid ops init).destructed ≡ 0 =
      run-spares invalid ops init r refl in
    (z, rw e (ground (arith, z)))
