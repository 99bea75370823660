-- ===== src/HardcodedSequencer/Agreement.antt =====
-- 07-hardcoded-sequencer: main.cpp against lab1.c.
use ucb_rtes.Base.{ℕ, zero, suc, ◌*◌, ◌≡◌, ◌<◌, refl, max, true, some, List, [], ◌∷◌, arith}
use ucb_rtes.Base.Run.{done}
use ucb_rtes.Posix.{Attr}
use ucb_rtes.Xpto.Thread.{System, thread_model, is_started}
use ucb_rtes.Xpto.Thread.Effect.{IsAccepted, attr_at_create, attr_at_create-thread_model}
use ucb_rtes.Lab1
use ucb_rtes.Lab1.Schedule.{rounds, runs, sequencer-rounds}
use ucb_rtes.Lab1.Setup.{Machine, at_prio}
use ucb_rtes.HardcodedSequencer.{
  Event, sleep_for, post, abort_test, major_period, shutdown, sequencer, thread_attributes,
}

-- The events of lab1.c: microseconds for milliseconds.
abbrev pub as_lab1 : List Event → List Lab1.Event
as_lab1 [] = []
as_lab1 (sleep_for t ∷ r) = Lab1.usleep (t * Lab1.usec_per_msec) ∷ as_lab1 r
as_lab1 (post k ∷ r) = Lab1.sem_post k ∷ as_lab1 r
as_lab1 (abort_test ∷ r) = Lab1.abort_test ∷ as_lab1 r

-- What comes before the flag is set.
abbrev pub before_abort : List Lab1.Event → List Lab1.Event
before_abort [] = []
before_abort (Lab1.abort_test ∷ r) = []
before_abort (Lab1.usleep t ∷ r) = Lab1.usleep t ∷ before_abort r
before_abort (Lab1.sem_post k ∷ r) = Lab1.sem_post k ∷ before_abort r

pub before_abort-rounds : (n : ℕ) → before_abort (as_lab1 (sequencer n)) ≡ before_abort (rounds n)
unfolding sequencer major_period shutdown rounds Lab1.major_period Lab1.shutdown
before_abort-rounds zero = refl
before_abort-rounds (suc n) = rw (before_abort-rounds n) refl

-- Until the flag is set, the sequencer makes the same posts and sleeps, in the same order, as the one
-- of lab1.c with the same number of major periods, if that is not 0: for 0, lab1.c does what this one
-- does for 1. lab1.c has fuel for one round more than that number.
pub sequencer-lab1 :
    (fuel n : ℕ) {plan : List Lab1.Event}
    → n < fuel
    → Lab1.sequencer fuel n ≡ done plan
    → before_abort (as_lab1 (sequencer (max 1 n))) ≡ before_abort plan
sequencer-lab1 fuel n {plan} f e =
    let p : plan ≡ rounds (runs n) = ground (arith, sequencer-rounds fuel n f) in
    rw p (before_abort-rounds (runs n))

-- A thread that was started has the policy, the priority and the core that `main` of lab1.c gives to
-- the thread with the same part, whatever the default attributes are, where the calls on its attributes
-- that are not checked succeed.
pub thread_attributes-lab1 :
    (sys : System) (m : Machine) (k : ℕ) (d : Attr)
    → IsAccepted sys
        (thread_attributes m.rt_max_prio k).policy
        (thread_attributes m.rt_max_prio k).prio
    → is_started sys (thread_model sys (thread_attributes m.rt_max_prio k)).calls ≡ true
    → attr_at_create sys d (thread_model sys (thread_attributes m.rt_max_prio k)).calls
      ≡ some (at_prio m k).attr
thread_attributes-lab1 sys m k d acc h =
    attr_at_create-thread_model sys (thread_attributes m.rt_max_prio k) d tt acc h
