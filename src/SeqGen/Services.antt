-- ===== src/SeqGen/Services.antt =====
-- The service threads Service_1 to Service_7 of seqgen.c, and how they end with the sequencer.
-- Their bodies differ in the semaphore, the flag and the text that they log; the log is not modelled.
use ucb_rtes.Base.{
  ℕ, ap, suc, ◌+◌, ◌/◌, ◌<◌, ◌≤◌, ◌≡◌, refl, Bool, true, false, Option, some, none, List, [], arith,
  ◌==◌, if◌then◌else◌, one_to_seven,
}
use native.Mathlib.Nat.{zero-add, zero-div}
use ucb_rtes.Base.Run.{done}
use ucb_rtes.Threads.{Service, Fleet, Reach, init, Owns}
use ucb_rtes.Threads.Plan.{Action, has_post, has_abort, is_armed, post_then_abort, posts}
use ucb_rtes.Threads.Every.{IsPlan, IsPlan-sleep, IsPlan-post_every}
use ucb_rtes.Threads.Exit.{ExitsSoon}
use ucb_rtes.Threads.Hang.{IsHung, hang_reachable}
use ucb_rtes.Threads.Fifo.{fifo_exits}
use ucb_rtes.Threads.Count.{in_hand, dropped, Reach-IsCounted}
use ucb_rtes.SeqGen.{Env, releases, shutdown, sequencer}
use ucb_rtes.SeqGen.Rates.{RunsFor, cycles, sequencer-cycles, rate, posts-cycles}

abbrev pub service_1 : Service
service_1 = record { sem = 1; abort_flag = 1; rechecks = false }

abbrev pub service_2 : Service
service_2 = record { sem = 2; abort_flag = 2; rechecks = false }

abbrev pub service_3 : Service
service_3 = record { sem = 3; abort_flag = 3; rechecks = false }

abbrev pub service_4 : Service
service_4 = record { sem = 4; abort_flag = 4; rechecks = false }

abbrev pub service_5 : Service
service_5 = record { sem = 5; abort_flag = 5; rechecks = false }

abbrev pub service_6 : Service
service_6 = record { sem = 6; abort_flag = 6; rechecks = false }

abbrev pub service_7 : Service
service_7 = record { sem = 7; abort_flag = 7; rechecks = false }

-- Which thread runs which function.
abbrev pub table : ℕ → Option Service
table k =
    if k == 1
    then some service_1
    else if k == 2
    then some service_2
    else if k == 3
    then some service_3
    else if k == 4
    then some service_4
    else if k == 5
    then some service_5
    else if k == 6
    then some service_6
    else if k == 7
    then some service_7
    else none

-- Service k, by its number.
abbrev service_of : ℕ → Service
service_of k = record { sem = k; abort_flag = k; rechecks = false }

alone : (k : ℕ) → (j : ℕ) (w : Service) → table j ≡ some w → w.sem ≡ k → j ≡ k
alone k j w e f = ground arith

table-Owns : (k : ℕ) → 1 ≤ k → k ≤ 7 → Owns table k (service_of k)
table-Owns k lo hi = record {
  listed =
      one_to_seven (λ j. table j ≡ some (service_of j)) refl refl refl refl refl refl refl k lo hi;
  own_sem = refl;
  alone = alone k;
}

IsPlan-releases : (k c : ℕ) (rest : List Action) → IsPlan k k rest → IsPlan k k (releases c rest)
unfolding releases
IsPlan-releases k c rest h =
    let add = IsPlan-post_every k k c in
    add 10 1 _ (add 30 2 _ (add 60 3 _ (add 30 4 _ (add 60 5 _ (add 30 6 _ (add 300 7 _ h))))))

IsPlan-shutdown : (k : ℕ) → 1 ≤ k → k ≤ 7 → IsPlan k k shutdown
unfolding shutdown has_post has_abort is_armed post_then_abort
IsPlan-shutdown k lo hi = ground arith

IsPlan-cycles : (k n c : ℕ) → 1 ≤ k → k ≤ 7 → IsPlan k k (cycles c n)
unfolding cycles
IsPlan-cycles k ℕ.zero c lo hi = IsPlan-shutdown k lo hi
IsPlan-cycles k (suc n) c lo hi =
    IsPlan-sleep k k _ (IsPlan-releases k (c + 1) _ (IsPlan-cycles k n (c + 1) lo hi))

module _ {fuel : ℕ} {env : Env} {periods m : ℕ} {plan : List Action} where
  plan-eq-cycles :
      RunsFor env periods m
      → m < fuel
      → sequencer fuel env periods ≡ done plan
      → plan ≡ cycles 0 (m + 1)
  plan-eq-cycles r h e = ground (arith, sequencer-cycles fuel env periods m r h)

  -- In every state that a run of m + 1 cycles reaches, under any interleaving, service k, for k from
  -- 1 to 7, has counted at most one release in every `rate k` cycles, and one for the shutdown.
  pub releases-le :
      {fifo : Bool} {s : Fleet} (k : ℕ)
      → 1 ≤ k
      → k ≤ 7
      → RunsFor env periods m
      → m < fuel
      → sequencer fuel env periods ≡ done plan
      → Reach fifo table (init plan) s
      → s.counts k ≤ (m + 1) / rate k + 1
  releases-le {s} k lo hi r h e q = omega (
    arith,
    Reach-IsCounted (table-Owns k lo hi) plan q,
    ap (posts k) (plan-eq-cycles r h e),
    posts-cycles k (m + 1) 0 lo hi,
    zero-div (rate k),
    ap (λ (x : ℕ). x / rate k) (zero-add (m + 1)),
  )

  -- No release is lost: for k from 1 to 7, if service k is in `sem_wait` at 0 when the sequencer of
  -- a run of m + 1 cycles has ended, under any interleaving, it has counted one release in every
  -- `rate k` cycles, and one for the shutdown.
  pub releases-eq :
      {fifo : Bool} {s : Fleet} (k : ℕ)
      → 1 ≤ k
      → k ≤ 7
      → RunsFor env periods m
      → m < fuel
      → sequencer fuel env periods ≡ done plan
      → Reach fifo table (init plan) s
      → IsHung k s
      → s.counts k ≡ (m + 1) / rate k + 1
  unfolding posts
  releases-eq {s} k lo hi r h e q w = omega (
    arith,
    posts_left s w,
    ap in_hand w.waiting,
    ap dropped w.waiting,
    Reach-IsCounted (table-Owns k lo hi) plan q,
    ap (posts k) (plan-eq-cycles r h e),
    posts-cycles k (m + 1) 0 lo hi,
    zero-div (rate k),
    ap (λ (x : ℕ). x / rate k) (zero-add (m + 1)),
  )
    where
      posts_left : (s : Fleet) → IsHung k s → posts k s.todo ≡ 0
      posts_left s w = rw w.ended

  -- For k from 1 to 7, the plan of every complete run of m + 1 cycles has an interleaving that
  -- leaves service k in `sem_wait` for ever: `sem_post(&semSk)` comes before `abortSk=TRUE`, so the
  -- service can take the last token and still find its flag at FALSE.
  pub service_hangs :
      (k : ℕ)
      → 1 ≤ k
      → k ≤ 7
      → RunsFor env periods m
      → m < fuel
      → sequencer fuel env periods ≡ done plan
      → (s : Fleet) × Reach false table (init plan) s × IsHung k s
  service_hangs k lo hi r h e =
      rw (plan-eq-cycles r h e)
        (hang_reachable (table-Owns k lo hi) _ (IsPlan-cycles k (m + 1) 0 lo hi).late)

  -- If the sequencer is on top of the services under SCHED_FIFO and all are on one core, then for k
  -- from 1 to 7, in every state that a complete run reaches with the sequencer ended, service k has
  -- exited, or it can take a step, and each such step brings it nearer to its exit. A complete run
  -- is one of m + 1 cycles, with more than m units of fuel.
  pub service_exits :
      {s : Fleet} (k : ℕ)
      → 1 ≤ k
      → k ≤ 7
      → RunsFor env periods m
      → m < fuel
      → sequencer fuel env periods ≡ done plan
      → Reach true table (init plan) s
      → s.todo ≡ []
      → ExitsSoon (service_of k) k s
  service_exits k lo hi r h e q =
      fifo_exits (table-Owns k lo hi) plan (rw (plan-eq-cycles r h e) p.armed)
        (rw (plan-eq-cycles r h e) p.flagged) q
    where
      p : IsPlan k k (cycles 0 (m + 1))
      p = IsPlan-cycles k (m + 1) 0 lo hi
