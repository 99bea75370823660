-- ===== src/GenericSequencer/Services.antt =====
-- The service threads of generic-sequencer.cpp: each waits for its semaphore, tests its own flag again,
-- and counts a cycle. The log is not modelled.
use ucb_rtes.Base.{
  ℕ, zero, suc, ◌+◌, ◌-◌, ◌*◌, ◌<◌, ◌≤◌, ◌≡◌, refl, Bool, true, ◌&&◌, Option, some, none, List, [],
  ◌∷◌, arith, ltb, leb, sym, Option-cases, ◌==◌, if◌then◌else◌, ap, ◌∙◌, length, inl, inr,
  Bool-cases,
}
use native.Mathlib.Decide.{dec_lt}
use native.Mathlib.Numerals.{add-one}
use ucb_rtes.Base.Run.{Run, done, exited, running, ◌>>=◌}
use ucb_rtes.Threads.{Service as Thread, Fleet, Reach, init, Owns}
use ucb_rtes.Threads.Plan
use ucb_rtes.Threads.Plan.{Action, abort_then_post, has_post, posts}
use ucb_rtes.Threads.Exit.{ExitsSoon}
use ucb_rtes.Threads.AbortFirst.{abort_first_exits}
use ucb_rtes.Threads.Count.{Reach-IsCounted}
use ucb_rtes.GenericSequencer.{
  Event, sleep_for, post, missed, abort, Service, shutdown, run_time, sequencer, State, advance,
  wait, round, is_defined, rounds_from, sequencer_loop,
}
use ucb_rtes.GenericSequencer.Queue.{Element, PriorityQueue}
use ucb_rtes.GenericSequencer.Reference.{due, earliest, reference_loop, reference}
use ucb_rtes.GenericSequencer.Refinement.{sequencer-eq-reference}
use ucb_rtes.GenericSequencer.Schedule.{release_times-shutdown, release_times, deadlines}
use ucb_rtes.GenericSequencer.Rounds.{IsPlain}
use ucb_rtes.GenericSequencer.Times.{all_releases, release_times-services}

-- The thread of service k.
abbrev pub service_thread : ℕ → Thread
service_thread k = record { sem = k; abort_flag = k; rechecks = true }

-- The threads of the first `n` services.
abbrev pub table : ℕ → ℕ → Option Thread
table n k = if ltb k n then some (service_thread k) else none

-- The events that other threads see.
unfoldable pub actions : List Event → List Action
actions [] = []
actions (sleep_for d ∷ r) = Plan.sleep ∷ actions r
actions (missed k ∷ r) = actions r
actions (post k ∷ r) = Plan.post k ∷ actions r
actions (abort k ∷ r) = Plan.abort k ∷ actions r

alone : (n k : ℕ) → (j : ℕ) (w : Thread) → table n j ≡ some w → w.sem ≡ k → j ≡ k
alone n k j w e f = ground arith

table-Owns : (n k : ℕ) → k < n → Owns (table n) k (service_thread k)
table-Owns n k h = record { listed = ground arith; own_sem = refl; alone = alone n k }

abort_then_post-shutdown :
    (left i k : ℕ) → i ≤ k → k < i + left → abort_then_post k k (actions (shutdown left i)) ≡ true
unfolding shutdown actions abort_then_post has_post
abort_then_post-shutdown zero i k lo hi = absurd (omega arith)
abort_then_post-shutdown (suc left) i k lo hi = elim (dec_lt i k) [
  | yes p ↦ ground (arith, abort_then_post-shutdown left (i + 1) k (omega arith) (omega arith))
  | no p ↦ ground arith
]

posts-shutdown :
    (left i k : ℕ)
    → posts k (actions (shutdown left i)) ≡ (if leb i k && ltb k (i + left) then 1 else 0)
unfolding shutdown actions posts
posts-shutdown zero i k = ground arith
posts-shutdown (suc left) i k = ground (arith, posts-shutdown left (i + 1) k)

length-deadlines : (x : Service) (i left : ℕ) → length (deadlines x i left) ≡ left
unfolding deadlines
length-deadlines x i zero = refl
length-deadlines x i (suc left) = omega (arith, length-deadlines x (i + 1) left)

-- A plan sets flag k with a post of semaphore k behind it, and posts that semaphore once more than
-- there are releases.
pub record IsClosed (k : ℕ) (plan : List Event) : Type 0 where
  pub closes : abort_then_post k k (actions plan) ≡ true
  pub posted : (t : ℕ) → posts k (actions plan) ≡ length (release_times k t plan) + 1

shutdown-IsClosed : (m k : ℕ) → k ≤ m → IsClosed k (shutdown (suc m) 0)
shutdown-IsClosed m k h = record {
  closes = abort_then_post-shutdown (suc m) 0 k (omega arith) (omega arith);
  posted = λ t. ground (arith, posts-shutdown (suc m) 0 k, release_times-shutdown k t m);
}

round-IsClosed :
    (k j now d : ℕ) (r : List Event)
    → IsClosed k r
    → IsClosed k (if ltb now d then sleep_for (d - now) ∷ post j ∷ r else post j ∷ r)
unfolding actions abort_then_post posts release_times
round-IsClosed k j now d r h = record {
  closes = ground (arith, h.closes);
  posted = λ t. ground (arith, h.posted t, h.posted (t + (d - now)));
}

-- What holds of a run that has come to its end.
abbrev Ends : (List Event → Type 0) → Run (List Event) → Type 0
Ends P (done plan) = P plan
Ends P exited = Unit
Ends P running = Unit

Ends-bind :
    (k j now d : ℕ) (run : Run (List Event))
    → Ends (IsClosed k) run
    → Ends
        (IsClosed k)
        (run >>= λ r. done (if ltb now d then sleep_for (d - now) ∷ post j ∷ r else post j ∷ r))
Ends-bind k j now d (done r) h = round-IsClosed k j now d r h
Ends-bind k j now d exited h = h
Ends-bind k j now d running h = h

reference_loop-IsClosed :
    (services : ℕ → Service) (m k fuel now : ℕ) (releases : ℕ → ℕ)
    → k ≤ m
    → Ends (IsClosed k) (reference_loop fuel services (suc m) now releases)
unfolding reference_loop
reference_loop-IsClosed services m k zero now releases h = tt
reference_loop-IsClosed services m k (suc fuel) now releases h =
    let j = earliest services releases (suc m - 1) in
    let d = due services releases j in
    elim (Bool-cases (ltb d run_time)) [
      | inl runs ↦ rw runs (Ends-bind k j now d _ (reference_loop-IsClosed services m k fuel d _ h))
      | inr over ↦
          rw over (Ends-bind k j now d (done (shutdown (suc m) 0)) (shutdown-IsClosed m k h))
    ]

module _ (services : ℕ → Service) (m : ℕ) (plain : IsPlain services m) (pq : PriorityQueue) where
  plan-IsClosed :
      (fuel : ℕ) (plan : List Event) (k : ℕ)
      → k ≤ m
      → sequencer pq fuel services (m + 1) ≡ done plan
      → IsClosed k plan
  unfolding reference
  plan-IsClosed fuel plan k h e =
      let r : reference_loop fuel services (m + 1) 0 (λ _. 0) ≡ done plan =
        sym (
          sequencer-eq-reference pq services fuel (m + 1) (omega arith)
            (λ j p. (plain.runs j (omega arith), plain.in_range j (omega arith))))
        ∙ e in
      let c : Ends (IsClosed k) (reference_loop fuel services (m + 1) 0 (λ _. 0)) =
        rw add-one (reference_loop-IsClosed services m k fuel 0 (λ _. 0) h) in
      rw r at c

  module _ (fuel : ℕ) {plan : List Event} (k : ℕ) where
    posts-plan :
        k ≤ m
        → all_releases services m plain < fuel
        → sequencer pq fuel services (m + 1) ≡ done plan
        → posts k (actions plan) ≡ 3 * (services k).frequency + (if k == 0 then 1 else 0) + 1
    posts-plan h f e =
        let (plan', e', times) = release_times-services services m plain pq fuel k f h in
        let p : plan' ≡ plan = ground (arith, e, e') in
        let t : release_times k 0 plan
            ≡ deadlines (services k) 0 (3 * (services k).frequency + (if k == 0 then 1 else 0)) =
          rw p at times in
        omega (
          arith,
          (plan-IsClosed fuel plan k h e).posted 0,
          ap length t,
          length-deadlines (services k) 0 (3 * (services k).frequency + (if k == 0 then 1 else 0)),
        )

    -- Under any interleaving of the threads with a sequencer that has fuel for all its releases, in
    -- every state service k has counted at most the 3 * frequency releases of the run, one more for
    -- the first service, and the one of the shutdown.
    pub cycles-le :
        {fifo : Bool} {s : Fleet}
        → k ≤ m
        → all_releases services m plain < fuel
        → sequencer pq fuel services (m + 1) ≡ done plan
        → Reach fifo (table (m + 1)) (init (actions plan)) s
        → s.counts k ≤ 3 * (services k).frequency + (if k == 0 then 1 else 0) + 1
    cycles-le {s} h f e q = omega (
      arith,
      Reach-IsCounted (table-Owns (m + 1) k (omega arith)) (actions plan) q,
      posts-plan h f e,
    )

-- In a run that has come to its end, the flag of service k is set before its last post.
abbrev Closes : ℕ → List Event → Type 0
Closes k plan = abort_then_post k k (actions plan) ≡ true

wait-Closes :
    (k elapsed : ℕ) (e : Element) (r : Run (List Event))
    → Ends (Closes k) r
    → Ends (Closes k) (r >>= λ p. done (wait elapsed e (post e.svc ∷ p)))
unfolding actions abort_then_post
wait-Closes k elapsed e (done p) h = ground arith
wait-Closes k elapsed e exited h = h
wait-Closes k elapsed e running h = h

module _ (services : ℕ → Service) (m : ℕ) (pq : PriorityQueue) where
  open pq use {top}

  sequencer_loop-Closes :
      (fuel k : ℕ) (s : State pq)
      → k ≤ m
      → Ends (Closes k) (sequencer_loop pq fuel services (suc m) s)
  unfolding sequencer_loop rounds_from
  sequencer_loop-Closes zero k s h = tt
  sequencer_loop-Closes (suc fuel) k s h = elim (Option-cases (top s.queue)) [
    | inl t ↦ rw t tt
    | inr (e, t) ↦ elim (Bool-cases (is_defined (services e.svc) (s.releases e.svc + 1))) [
      | inr undefined ↦ rw t (rw undefined tt)
      | inl defined ↦ elim (Bool-cases (ltb (advance s.elapsed e.deadline) run_time)) [
        | inl runs ↦ rw t (
            rw defined (
              rw runs (
                wait-Closes k s.elapsed e _
                  (sequencer_loop-Closes fuel k (round pq services e s) h))))
        | inr over ↦ rw t (
            rw defined (
              rw over (
                wait-Closes k s.elapsed e (done (shutdown (suc m) 0))
                  (shutdown-IsClosed m k h).closes)))
      ]
    ]
  ]

  -- Under any interleaving of the threads, in every state that a run which has come to its end
  -- reaches with the sequencer ended, service k has ended too, or it can take a step, and each such
  -- step brings it nearer to its end: its flag is set before its last post.
  pub threads_exit :
      (fuel : ℕ) {plan : List Event} (k : ℕ) {fifo : Bool} {s : Fleet}
      → k ≤ m
      → sequencer pq fuel services (m + 1) ≡ done plan
      → Reach fifo (table (m + 1)) (init (actions plan)) s
      → s.todo ≡ []
      → ExitsSoon (service_thread k) k s
  unfolding sequencer
  threads_exit fuel {plan} k h e q t =
      let c : Ends (Closes k) (sequencer pq fuel services (suc m)) =
        sequencer_loop-Closes fuel k _ h in
      let e' : sequencer pq fuel services (suc m) ≡ done plan = rw add-one at e in
      abort_first_exits (table-Owns (m + 1) k (omega arith)) (actions plan) (rw e' at c) q t
