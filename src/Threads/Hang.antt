-- ===== src/Threads/Hang.antt =====
-- A sequencer that posts for the last time before it sets the flag can leave a service behind: the
-- service takes that post, still reads FALSE, and waits for ever.
use ucb_rtes.Base.{
  ℕ, ◌+◌, ◌≡◌, refl, ◌∙◌, ◌⊎◌, inl, inr, Bool, Bool-cases, ◌==◌, true, false, Option, some, List,
  [], ◌∷◌, arith, update,
}
use ucb_rtes.Threads.{
  Service, check, wait, woken, released, Fleet, act, service_step, init, Step, sequencer, service,
  Reach, here, next, Owns,
}
use ucb_rtes.Threads.Plan.{Action, sleep, post, abort, has_post, post_then_abort}

-- Service `k` is in `sem_wait` at 0, and the sequencer has ended.
pub record IsHung (k : ℕ) (s : Fleet) : Type 0 where
  pub ended : s.todo ≡ []
  pub waiting : s.pcs k ≡ wait
  pub empty : s.sems k ≡ 0

module _ {k : ℕ} {v : Service} {table : ℕ → Option Service} (own : Owns table k v) where
  service-IsHung :
      (j : ℕ) (w : Service) (s t : Fleet)
      → table j ≡ some w
      → service_step w j s ≡ some t
      → IsHung k s
      → IsHung k t
  unfolding service_step
  service-IsHung j w s t e step h = ground (arith, own.listed, own.own_sem, own.alone j w e)

  Step-IsHung : {fifo : Bool} {s t : Fleet} → Step fifo table s t → IsHung k s → IsHung k t
  Step-IsHung (sequencer e) h = cc (h.ended)
  Step-IsHung (service j {v = w} e _ step) h = service-IsHung j w _ _ e step h

  -- A hung service stays hung, whatever the other threads do.
  pub Reach-IsHung : {fifo : Bool} {s t : Fleet} → IsHung k s → Reach fifo table s t → IsHung k t
  Reach-IsHung h here = h
  Reach-IsHung h (next r st) = Step-IsHung st (Reach-IsHung h r)

pub Reach-trans :
    {fifo : Bool} {table : ℕ → Option Service} {s t u : Fleet}
    → Reach fifo table s t
    → Reach fifo table t u
    → Reach fifo table s u
Reach-trans r here = r
Reach-trans r (next q st) = next (Reach-trans r q) st

-- The sequencer alone can run to its end.
pub sequencer_ends :
    {fifo : Bool} {table : ℕ → Option Service} (plan : List Action) (s : Fleet)
    → s.todo ≡ plan
    → (t : Fleet) × Reach fifo table s t × (t.todo ≡ [])
unfolding act
sequencer_ends [] s e = (s, here, e)
sequencer_ends (a ∷ r) s e =
    let s' : Fleet = act a (record s { todo = r }) in
    let (t, reach, ended) = sequencer_ends r s' (ground arith) in
    (t, Reach-trans (next here (sequencer e)) reach, ended)

module _ {k : ℕ} {v : Service} {table : ℕ → Option Service} (own : Owns table k v) where
  -- The service is in `sem_wait` at 0, and its flag is not set.
  record IsWaiting (s : Fleet) : Type 0 where
    waiting : s.pcs k ≡ wait
    empty : s.sems k ≡ 0
    going : s.aborts v.abort_flag ≡ false

  act-todo : (a : Action) (s : Fleet) → (act a s).todo ≡ s.todo
  unfolding act
  act-todo a s = ground arith

  act-pcs : (a : Action) (s : Fleet) → (act a s).pcs k ≡ s.pcs k
  unfolding act
  act-pcs a s = ground arith

  has_post-tail : (a : Action) (r : List Action) → has_post k (a ∷ r) ≡ false → has_post k r ≡ false
  unfolding has_post
  has_post-tail a r n = ground arith

  act-sems :
      (a : Action) (r : List Action) (s : Fleet)
      → has_post k (a ∷ r) ≡ false
      → (act a (record s { todo = r })).sems k ≡ s.sems k
  unfolding act has_post
  act-sems a r s n = ground arith

  -- With no post to come, the sequencer runs to its end and nothing wakes the service.
  drain :
      (plan : List Action) (s : Fleet)
      → s.todo ≡ plan
      → has_post k plan ≡ false
      → s.pcs k ≡ wait
      → s.sems k ≡ 0
      → (t : Fleet) × Reach false table s t × IsHung k t
  drain [] s e n w z = (s, here, record { ended = e; waiting = w; empty = z })
  drain (a ∷ r) s e n w z =
      let (t, reach, hung) =
        drain r (act a (record s { todo = r })) (act-todo a _) (has_post-tail a r n)
          (act-pcs a _ ∙ w) (act-sems a r s n ∙ z) in
      (t, Reach-trans (next here (sequencer e)) reach, hung)

  own_step :
      (s t : Fleet) {u : Fleet}
      → service_step v k s ≡ some t
      → Reach false table t u
      → Reach false table s u
  own_step s t p r = Reach-trans (next here (service k own.listed (λ e. cc) p)) r

  -- Once round the loop: the service takes the one token and is back in `sem_wait`.
  round :
      (s : Fleet)
      → s.pcs k ≡ wait
      → s.sems k ≡ 1
      → s.aborts v.abort_flag ≡ false
      → (t : Fleet) × Reach false table s t × (t.todo ≡ s.todo) × IsWaiting t
  unfolding service_step
  round s w z g =
      let s₁ : Fleet = record s { sems = update s.sems v.sem 0; pcs = update s.pcs k woken } in
      let s₂ : Fleet = record s₁ {
        pcs = update s₁.pcs k released;
        counts = update s₁.counts k (s₁.counts k + 1);
      } in
      let s₃ : Fleet = record s₂ { pcs = update s₂.pcs k check } in
      let s₄ : Fleet = record s₃ { pcs = update s₃.pcs k wait } in
      let z' : s.sems v.sem ≡ 1 = rw own.own_sem z in
      (
        s₄,
        own_step s s₁ (ground arith) (
            own_step s₁ s₂ (ground arith)
              (own_step s₂ s₃ (ground arith) (own_step s₃ s₄ (ground arith) here))),
        refl,
        ground (arith, own.own_sem),
      )

  settle :
      (s : Fleet)
      → s.pcs k ≡ wait
      → (s.sems k ≡ 0) ⊎ (s.sems k ≡ 1)
      → s.aborts v.abort_flag ≡ false
      → (t : Fleet) × Reach false table s t × (t.todo ≡ s.todo) × IsWaiting t
  settle s w (inl z) g = (s, here, refl, record { waiting = w; empty = z; going = g })
  settle s w (inr z) g = round s w z g

  -- The service as quick as it can be: it ends up hung.
  eager :
      (plan : List Action) (s : Fleet)
      → s.todo ≡ plan
      → post_then_abort v.abort_flag k plan ≡ true
      → IsWaiting s
      → (t : Fleet) × Reach false table s t × IsHung k t
  unfolding act post_then_abort
  eager [] s e p h = (s, here, record { ended = e; waiting = h.waiting; empty = h.empty })
  eager (sleep ∷ r) s e p h =
      let (t, reach, hung) = eager r (act sleep (record s { todo = r })) refl p (ground arith) in
      (t, Reach-trans (next here (sequencer e)) reach, hung)
  eager (post j ∷ r) s e p h =
      let s' : Fleet = act (post j) (record s { todo = r }) in
      let (u, first, same, h') = settle s' h.waiting (ground arith) h.going in
      let (t, reach, hung) = eager r u same p h' in
      (t, Reach-trans (Reach-trans (next here (sequencer e)) first) reach, hung)
  eager (abort g ∷ r) s e p h = elim (Bool-cases (g == v.abort_flag)) [
    | inl own_flag ↦ drain (abort g ∷ r) s e (ground arith) h.waiting h.empty
    | inr other ↦
        let s' : Fleet = act (abort g) (record s { todo = r }) in
        let (t, reach, hung) = eager r s' refl (ground arith) (ground arith) in
        (t, Reach-trans (next here (sequencer e)) reach, hung)
  ]

  -- A sequencer that makes its last post of a service's semaphore before it sets the service's flag
  -- can, interleaved freely with the services, leave the service hung.
  pub hang_reachable :
      (plan : List Action)
      → post_then_abort v.abort_flag k plan ≡ true
      → (t : Fleet) × Reach false table (init plan) t × IsHung k t
  unfolding service_step
  hang_reachable plan p =
      let s : Fleet = record (init plan) { pcs = update (λ _. check) k wait } in
      let (t, reach, hung) = eager plan s refl p (ground arith) in
      (t, own_step (init plan) s (ground arith) reach, hung)
