-- ===== src/SeqGen2/Services.antt =====
-- The service threads Service_1 to Service_7 of seqgen2.c. Their bodies differ in the semaphore, the
-- flag and the text that they log; the log is not modelled.
use ucb_rtes.Base.{
  ℕ, ap, suc, ◌+◌, ◌<◌, ◌≤◌, ◌≡◌, refl, Bool, false, Option, some, none, List, arith, ◌&&◌, leb,
  if◌then◌else◌,
}
use ucb_rtes.Base.Run.{done}
use ucb_rtes.Threads.{Service, Fleet, Reach, init, Owns}
use ucb_rtes.Threads.Plan.{Action, has_post, has_abort, is_armed, post_then_abort, posts}
use ucb_rtes.Threads.Every.{IsPlan, IsPlan-sleep, IsPlan-post_every}
use ucb_rtes.Threads.Hang.{IsHung, hang_reachable}
use ucb_rtes.Threads.Count.{Reach-IsCounted}
use ucb_rtes.SeqGen2.{Env, releases, shutdown, sequencer}
use ucb_rtes.SeqGen2.Rates.{RunsFor, cycles, sequencer2-cycles, released_in, posts-cycles}

-- Service_1 to Service_7, by the number.
abbrev pub service : ℕ → Service
service k = record { sem = k; abort_flag = k; rechecks = false }

-- Which thread runs which function.
abbrev pub table : ℕ → Option Service
table k = if leb 1 k && leb k 7 then some (service k) else none

alone : (k : ℕ) → (j : ℕ) (w : Service) → table j ≡ some w → w.sem ≡ k → j ≡ k
alone k j w e f = ground arith

table-Owns : (k : ℕ) → 1 ≤ k → k ≤ 7 → Owns table k (service k)
table-Owns k lo hi = record { listed = ground arith; own_sem = refl; alone = alone k }

IsPlan-shutdown : (k : ℕ) → 1 ≤ k → k ≤ 7 → IsPlan k k shutdown
unfolding shutdown has_post has_abort is_armed post_then_abort
IsPlan-shutdown k lo hi = ground arith

IsPlan-cycles : (k n c : ℕ) → 1 ≤ k → k ≤ 7 → IsPlan k k (cycles c n)
unfolding cycles releases
IsPlan-cycles k ℕ.zero c lo hi = IsPlan-shutdown k lo hi
IsPlan-cycles k (suc n) c lo hi = IsPlan-sleep k k _ (
    IsPlan-post_every k k (c + 1) 100 6 _
      (IsPlan-post_every k k (c + 1) 100 7 _ (IsPlan-cycles k n (c + 1) lo hi)))

module _ {fuel : ℕ} {env : Env} {periods m : ℕ} {plan : List Action} where
  plan-eq-cycles :
      RunsFor env periods m
      → m < fuel
      → sequencer fuel env periods ≡ done plan
      → plan ≡ cycles 0 (m + 1)
  plan-eq-cycles r h e = ground (arith, sequencer2-cycles fuel env periods m r h)

  -- The sequencer has a core of its own, so the threads interleave in any order. In every state that a
  -- run of m + 1 cycles reaches, services 6 and 7 have counted at most one release in every 100
  -- cycles, and one for the shutdown; services 1 to 5 have counted at most the one for the shutdown.
  pub releases2-le :
      {fifo : Bool} {s : Fleet} (k : ℕ)
      → 1 ≤ k
      → k ≤ 7
      → RunsFor env periods m
      → m < fuel
      → sequencer fuel env periods ≡ done plan
      → Reach fifo table (init plan) s
      → s.counts k ≤ released_in k (m + 1) + 1
  releases2-le {s} k lo hi r h e q = ground (
    arith,
    Reach-IsCounted (table-Owns k lo hi) plan q,
    ap (posts k) (plan-eq-cycles r h e),
    posts-cycles k (m + 1) 0 lo hi,
  )

  -- For k from 1 to 7, the plan of every complete run of m + 1 cycles has an interleaving that
  -- leaves service k in `sem_wait` for ever: `sem_post(&semSk)` comes before `abortSk=TRUE`, and the
  -- sequencer is on another core.
  pub service2_hangs :
      (k : ℕ)
      → 1 ≤ k
      → k ≤ 7
      → RunsFor env periods m
      → m < fuel
      → sequencer fuel env periods ≡ done plan
      → (s : Fleet) × Reach false table (init plan) s × IsHung k s
  service2_hangs k lo hi r h e =
      rw (plan-eq-cycles r h e)
        (hang_reachable (table-Owns k lo hi) _ (IsPlan-cycles k (m + 1) 0 lo hi).late)
