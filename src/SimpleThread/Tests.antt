-- ===== src/SimpleThread/Tests.antt =====
-- Runs of the model of 01-simplethread/main.c, and the theorems at concrete inputs.
use ucb_rtes.Base.{◌≡◌, ◌==◌, refl}
use ucb_rtes.Base.Int.{pos, ◌+ℤ◌}
use ucb_rtes.Base.Word.{to_int}
use ucb_rtes.Base.Run.{done, exited}
use ucb_rtes.SimpleThread.{sum_loop, count_locally, create_loop, main}
use ucb_rtes.SimpleThread.StdThread

ten : count_locally 20 (pos 10) ≡ done (pos 55)
unfolding count_locally sum_loop to_int ◌+ℤ◌
ten = refl

fails_at_5 : main (λ i. i == 5) (λ _. 0) ≡ exited
unfolding main create_loop
fails_at_5 = refl
