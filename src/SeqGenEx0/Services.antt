-- ===== src/SeqGenEx0/Services.antt =====
-- The service threads Service_1 to Service_3 of seqgenex0.c. Their bodies differ in the semaphore, the
-- flag and the text that they log; the log is not modelled.
use ucb_rtes.Base.{
  ℕ, ap, suc, ◌+◌, ◌<◌, ◌≤◌, ◌≡◌, refl, true, false, Option, some, none, List, [], arith, ◌==◌,
  if◌then◌else◌,
}
use ucb_rtes.Base.Run.{done}
use ucb_rtes.Threads.{Service, Fleet, Reach, init, Owns}
use ucb_rtes.Threads.Plan.{Action, has_post, has_abort, is_armed, post_then_abort, posts}
use ucb_rtes.Threads.Every.{IsPlan, IsPlan-sleep, IsPlan-post_every}
use ucb_rtes.Threads.Exit.{ExitsSoon}
use ucb_rtes.Threads.Fifo.{fifo_exits}
use ucb_rtes.Threads.Count.{Reach-IsCounted}
use ucb_rtes.SeqGenEx0.{Env, releases, shutdown, sequencer}
use ucb_rtes.SeqGenEx0.Rates.{RunsFor, cycles, sequencer0-cycles, rate, ceil_div, posts-cycles}

abbrev pub service_1 : Service
service_1 = record { sem = 1; abort_flag = 1; rechecks = false }

abbrev pub service_2 : Service
service_2 = record { sem = 2; abort_flag = 2; rechecks = false }

abbrev pub service_3 : Service
service_3 = record { sem = 3; abort_flag = 3; rechecks = false }

-- Which thread runs which function.
abbrev pub table : ℕ → Option Service
table k =
    if k == 1
    then some service_1
    else if k == 2
    then some service_2
    else if k == 3
    then some service_3
    else none

-- Service k, by its number.
abbrev service_of : ℕ → Service
service_of k = record { sem = k; abort_flag = k; rechecks = false }

alone : (k : ℕ) → (j : ℕ) (w : Service) → table j ≡ some w → w.sem ≡ k → j ≡ k
alone k j w e f = ground arith

table-Owns : (k : ℕ) → 1 ≤ k → k ≤ 3 → Owns table k (service_of k)
table-Owns k lo hi = record { listed = ground arith; own_sem = refl; alone = alone k }

IsPlan-shutdown : (k : ℕ) → 1 ≤ k → k ≤ 3 → IsPlan k k shutdown
unfolding shutdown has_post has_abort is_armed post_then_abort
IsPlan-shutdown k lo hi = ground arith

IsPlan-cycles : (k n c : ℕ) → 1 ≤ k → k ≤ 3 → IsPlan k k (cycles c n)
unfolding cycles releases
IsPlan-cycles k ℕ.zero c lo hi = IsPlan-shutdown k lo hi
IsPlan-cycles k (suc n) c lo hi =
    let add = IsPlan-post_every k k c in
    IsPlan-sleep k k _ (add 2 1 _ (add 10 2 _ (add 15 3 _ (IsPlan-cycles k n (c + 1) lo hi))))

module _ {fuel inner : ℕ} {env : Env} {periods m : ℕ} {plan : List Action} where
  plan-eq-cycles :
      RunsFor env periods m inner
      → m < fuel
      → sequencer fuel inner env periods ≡ done plan
      → plan ≡ cycles 0 (m + 1)
  plan-eq-cycles r h e = ground (arith, sequencer0-cycles fuel inner env periods m r h)

  -- All threads are on core 3, with the sequencer on top of the services under SCHED_FIFO. For k
  -- from 1 to 3, in every state that a complete run of m + 1 cycles reaches with the sequencer
  -- ended, service k has exited, or it can take a step, and each such step brings it nearer to its
  -- exit; and it has counted at most one release in every `rate k` cycles, from the first on, and
  -- one for the shutdown.
  pub services0_exit :
      {s : Fleet} (k : ℕ)
      → 1 ≤ k
      → k ≤ 3
      → RunsFor env periods m inner
      → m < fuel
      → sequencer fuel inner env periods ≡ done plan
      → Reach true table (init plan) s
      → s.todo ≡ []
      → ExitsSoon (service_of k) k s × (s.counts k ≤ ceil_div (m + 1) (rate k) + 1)
  services0_exit {s} k lo hi r h e q t = (
    fifo_exits (table-Owns k lo hi) plan (rw (plan-eq-cycles r h e) p.armed)
        (rw (plan-eq-cycles r h e) p.flagged) q t,
    ground (
      arith,
      Reach-IsCounted (table-Owns k lo hi) plan q,
      ap (posts k) (plan-eq-cycles r h e),
      posts-cycles k (m + 1) 0 lo hi,
    ),
  )
    where
      p : IsPlan k k (cycles 0 (m + 1))
      p = IsPlan-cycles k (m + 1) 0 lo hi
