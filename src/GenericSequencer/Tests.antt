-- ===== src/GenericSequencer/Tests.antt =====
-- Runs of the model of generic-sequencer.cpp, and the theorems at concrete inputs.
use ucb_rtes.Base.{◌*◌, ◌≡◌, refl, false, List, [], ◌∷◌, arith}
use ucb_rtes.Base.Run.{done}
use ucb_rtes.Threads.{Fleet, Reach, init}
use ucb_rtes.Threads.Hang.{sequencer_ends}
use ucb_rtes.Threads.Exit.{ExitsSoon}
use ucb_rtes.GenericSequencer.{
  Event, services, deadline, is_defined, giga, sequencer, sequencer_loop, rounds_from, fill,
  shutdown,
}
use ucb_rtes.GenericSequencer.OrderedList.{list_queue, insert, first, rest}
use ucb_rtes.GenericSequencer.Reference.{reference}
use ucb_rtes.GenericSequencer.Refinement.{IsServed, sequencer-eq-reference}
use ucb_rtes.GenericSequencer.Schedule.{release_times, deadlines, outstanding}
use ucb_rtes.GenericSequencer.Rounds.{IsPlain}
use ucb_rtes.GenericSequencer.Lateness.{Behind, late_times, lateness_adds_up}
use ucb_rtes.GenericSequencer.Times.{release_times-services}
use ucb_rtes.GenericSequencer.Services.{service_thread, table, actions, threads_exit}

third_of_a_second : deadline (services 1) 1 ≡ 333_333_333
unfolding deadline
third_of_a_second = refl

-- The run of the program: which services are posted when.
run_of_main :
    (plan : List Event) × (sequencer list_queue 43 services 3 ≡ done plan)
    × (release_times 1 0 plan
        ≡ 0
          ∷ 333_333_333
          ∷ 666_666_666
          ∷ giga
          ∷ 1_333_333_333
          ∷ 1_666_666_666
          ∷ (2 * giga)
          ∷ 2_333_333_333
          ∷ 2_666_666_666
          ∷ [])
unfolding sequencer sequencer_loop rounds_from fill shutdown deadline is_defined list_queue insert
    first rest release_times
run_of_main = (_, refl, refl)

served : IsServed services 3
served k p = ground arith

sequencer-eq-reference_example : sequencer list_queue 43 services 3 ≡ reference 43 services 3
sequencer-eq-reference_example =
    sequencer-eq-reference list_queue services 43 3 (omega arith) served

plain : IsPlain services 2
plain = record { runs = λ k p. ground arith; in_range = λ k p. ground arith }

releases_of_main : outstanding services (λ _. 0) 3 ≡ 42
unfolding outstanding
releases_of_main = refl

release_times-services_example :
    (plan : List Event) × (sequencer list_queue 43 services 3 ≡ done plan)
    × (release_times 0 0 plan ≡ deadlines (services 0) 0 31)
release_times-services_example =
    release_times-services services 2 plain list_queue 43 0 (omega (arith, releases_of_main))
      (omega arith)

-- Each sleep is 60 microseconds late, as with the default timer slack of Linux.
lateness_adds_up_example :
    (plan : List Event) × (sequencer list_queue 43 services 3 ≡ done plan)
    × Behind 60_000 0 (deadlines (services 1) 0 9) (late_times (λ _. 60_000) 1 0 0 plan)
lateness_adds_up_example =
    lateness_adds_up services 2 plain list_queue 43 1 60_000 (λ _. 60_000)
      (omega (arith, releases_of_main)) (omega arith) (omega arith) (λ i. omega arith)

abbrev main_run :
    (plan : List Event) × (sequencer list_queue 43 services 3 ≡ done plan)
    × (release_times 0 0 plan ≡ deadlines (services 0) 0 31)
main_run =
    release_times-services services 2 plain list_queue 43 0 (omega (arith, releases_of_main))
      (omega arith)

abbrev ended : (s : Fleet) × Reach false (table 3) (init (actions main_run.0)) s × (s.todo ≡ [])
ended = sequencer_ends (actions main_run.0) _ refl

threads_exit_example : ExitsSoon (service_thread 2) 2 ended.0
threads_exit_example =
    threads_exit services 2 list_queue 43 2 (omega arith) main_run.1 ended.1 ended.2
