-- ===== src/Affinity/Program.antt =====
-- 04-simplethread-affinity/main.c: `main`, `set_scheduler` and the starter thread, as the calls that
-- they make. Results of `pthread_create` are not looked at; what a call that fails leaves in the handle
-- is undefined, as POSIX says, whether the call writes it or not.
use ucb_rtes.Base.{
  ℕ, zero, suc, ◌+◌, ◌<◌, ◌≤◌, ◌≡◌, ◌⊎◌, ◌↔◌, refl, inl, inr, Bool, true, false, Option, none, some,
  List, [], ◌∷◌, arith, if◌then◌else◌, Bool-cases, length,
}
use native.Mathlib.Decide.{dec_lt}
use ucb_rtes.Base.Int.{ℤ, pos, ltb_ℤ, ==_ℤ}
use ucb_rtes.Posix.{Policy, Attr, Created}
use ucb_rtes.Affinity.{num_threads, fifo_sched_attr, starter_loop}

-- What the program gets from outside: the policy before and after `sched_setscheduler`, its result, the
-- highest priority of SCHED_FIFO, and the result of `pthread_create` for each counter thread and for
-- the starter.
pub record Machine : Type 0 where
  pub policy_before : Policy
  pub policy_after : Policy
  pub set_result : ℤ
  pub max_prio : ℤ
  pub create_result : ℕ → ℤ
  pub starter_result : ℤ

-- A line of `print_scheduler`, the message of `perror`, the creation of the starter and of a counter
-- thread, `pthread_join` with the handle of a counter thread or of the starter, and the last line. A
-- handle that is undefined is `none`.
pub data Effect : Type 0 where
  policy_line : Policy → Effect
  perror : Effect
  create_starter : Attr → Effect
  create : Created → Effect
  join : Option ℕ → Effect
  join_starter : Bool → Effect
  test_complete : Effect

abbrev pub set_scheduler : Machine → List Effect → List Effect
set_scheduler m r =
    policy_line m.policy_before
    ∷ (if ltb_ℤ m.set_result (pos 0)
        then perror ∷ policy_line m.policy_after ∷ r
        else policy_line m.policy_after ∷ r)

abbrev pub succeeded : ℤ → Bool
succeeded result = ==_ℤ result (pos 0)

-- `threads[i]` behind its `pthread_create`: the new thread, or undefined.
abbrev pub handle : Machine → ℕ → Option ℕ
handle m i = if succeeded (m.create_result i) then some i else none

unfoldable pub create_all : List Created → List Effect → List Effect
create_all [] r = r
create_all (c ∷ cs) r = create c ∷ create_all cs r

-- The second loop of the starter, with `left` threads to go.
unfoldable pub join_loop : Machine → ℕ → ℕ → List Effect → List Effect
join_loop m zero i r = r
join_loop m (suc left) i r = join (handle m i) ∷ join_loop m left (i + 1) r

unfoldable pub starter_thread : Machine → List Effect → List Effect
starter_thread m r =
    create_all (starter_loop m.max_prio num_threads 0) (join_loop m num_threads 0 r)

-- `main` waits for the starter, if there is one. The readings of the affinity mask are only printed.
unfoldable pub main : Machine → List Effect
main m =
    let started = starter_thread m (join_starter true ∷ test_complete ∷ []) in
    set_scheduler m (
      create_starter (fifo_sched_attr m.max_prio)
      ∷ (if succeeded m.starter_result then started else join_starter false ∷ test_complete ∷ []))

-- `pthread_join` is called with an undefined handle.
unfoldable pub joins_unset : List Effect → Bool
joins_unset [] = false
joins_unset (join none ∷ r) = true
joins_unset (join_starter false ∷ r) = true
joins_unset (_ ∷ r) = joins_unset r

-- How many counter threads are asked for.
unfoldable pub creates : List Effect → ℕ
creates [] = 0
creates (create c ∷ r) = creates r + 1
creates (_ ∷ r) = creates r

joins_unset-create_all :
    (cs : List Created) (r : List Effect) → joins_unset (create_all cs r) ≡ joins_unset r
unfolding joins_unset create_all
joins_unset-create_all [] r = refl
joins_unset-create_all (c ∷ cs) r = joins_unset-create_all cs r

-- Some of the creations from `i` on fails.
abbrev Fails : Machine → ℕ → ℕ → Type 0
Fails m left i = (j : ℕ) × (i ≤ j) × (j < i + left) × (succeeded (m.create_result j) ≡ false)

joins_unset-join_loop :
    (m : Machine) (left i : ℕ) (r : List Effect)
    → joins_unset r ≡ false
    → ((joins_unset (join_loop m left i r) ≡ true) × Fails m left i)
      ⊎ ((joins_unset (join_loop m left i r) ≡ false)
          × ((j : ℕ) → i ≤ j → j < i + left → succeeded (m.create_result j) ≡ true))
unfolding joins_unset join_loop
joins_unset-join_loop m zero i r h = inr (h, λ j p q. absurd (omega arith))
joins_unset-join_loop m (suc left) i r h = elim (Bool-cases (succeeded (m.create_result i))) [
  | inr bad ↦ inl (rw bad refl, (i, omega arith, omega arith, bad))
  | inl good ↦ elim (joins_unset-join_loop m left (i + 1) r h) [
    | inl (t, (j, p, q, f)) ↦ inl (rw good t, (j, omega arith, omega arith, f))
    | inr (t, all) ↦ inr (
      rw good t,
      λ j p q. elim (dec_lt i j) [
        | yes above ↦ all j (omega arith) (omega arith)
        | no same ↦ let e : j ≡ i = omega arith in rw e good
      ],
    )
  ]
]

end : joins_unset (join_starter true ∷ test_complete ∷ []) ≡ false
unfolding joins_unset
end = refl

creates-create_all :
    (cs : List Created) (r : List Effect) → creates (create_all cs r) ≡ length cs + creates r
unfolding creates create_all
creates-create_all [] r = omega arith
creates-create_all (c ∷ cs) r = omega (arith, creates-create_all cs r)

creates-join_loop :
    (m : Machine) (left i : ℕ) (r : List Effect) → creates (join_loop m left i r) ≡ creates r
unfolding creates join_loop
creates-join_loop m zero i r = refl
creates-join_loop m (suc left) i r = creates-join_loop m left (i + 1) r

length-starter_loop : (p : ℤ) (left i : ℕ) → length (starter_loop p left i) ≡ left
unfolding starter_loop
length-starter_loop p zero i = refl
length-starter_loop p (suc left) i = omega (arith, length-starter_loop p left (i + 1))

creates-main :
    (m : Machine) → creates (main m) ≡ (if succeeded m.starter_result then num_threads else 0)
unfolding main starter_thread creates
creates-main m =
    let tail = join_starter true ∷ test_complete ∷ [] in
    let a = creates-create_all (starter_loop m.max_prio 64 0) (join_loop m 64 0 tail) in
    let b = creates-join_loop m 64 0 tail in
    let c = length-starter_loop m.max_prio 64 0 in ground (arith, a, b, c)

joins_unset-main :
    (m : Machine)
    → joins_unset (main m) ≡ (
        if succeeded m.starter_result
        then joins_unset (join_loop m num_threads 0 (join_starter true ∷ test_complete ∷ []))
        else true)
unfolding main starter_thread joins_unset
joins_unset-main m =
    let tail = join_starter true ∷ test_complete ∷ [] in
    let a = joins_unset-create_all (starter_loop m.max_prio 64 0) (join_loop m 64 0 tail) in
    ground (arith, a)

-- All 64 counter threads are asked for if the starter could be created, and none otherwise. The
-- program calls `pthread_join` with an undefined handle exactly when the creation of the starter, or of one of the counter threads, fails.
pub main-unset :
    (m : Machine)
    → (creates (main m) ≡ (if succeeded m.starter_result then num_threads else 0))
      × ((joins_unset (main m) ≡ true) ↔ (
          (succeeded m.starter_result ≡ false)
          ⊎ ((j : ℕ) × (j < num_threads) × (succeeded (m.create_result j) ≡ false))))
main-unset m = (
  creates-main m,
  elim (Bool-cases (succeeded m.starter_result)) [
    | inr bad ↦ (λ e. inl bad, λ h. ground (arith, joins_unset-main m))
    | inl good ↦ elim (joins_unset-join_loop m 64 0 (join_starter true ∷ test_complete ∷ []) end) [
      | inl (t, (j, p, q, f)) ↦
          (λ e. inr (j, omega arith, f), λ h. ground (arith, joins_unset-main m))
      | inr (t, all) ↦ (
        λ e. absurd (ground (arith, joins_unset-main m)),
        λ h. elim h [
          | inl bad ↦ absurd (ground arith)
          | inr (j, q, f) ↦ absurd (ground (arith, all j (omega arith) (omega arith)))
        ],
      )
    ]
  ],
)
