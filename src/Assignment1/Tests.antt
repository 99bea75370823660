-- ===== src/Assignment1/Tests.antt =====
-- Runs of `exec` of 05-assignment1/pthread.cpp, and the theorem at a concrete stream.
use ucb_rtes.Base.{ℕ, ◌≤◌, ◌≡◌, ◌⊎◌, refl, true, some, none, List, [], ◌∷◌, length, arith}
use ucb_rtes.Base.Run.{done}
use ucb_rtes.Assignment1.{exec, read_loop, fgets, get_line, returned, throws}
use ucb_rtes.Base.Bytes.{c_str, has_nul}
use ucb_rtes.Assignment1.Output.{exec-returns}

-- "ok", a newline, "x".
abbrev printed : List ℕ
printed = 111 ∷ 107 ∷ 10 ∷ 120 ∷ []

exec-printed : exec 5 (some printed) ≡ done (returned printed)
unfolding exec read_loop fgets get_line c_str
exec-printed = refl

-- All behind a NUL is lost, up to the end of the line.
exec-nul : exec 5 (some (111 ∷ 0 ∷ 107 ∷ 10 ∷ 120 ∷ [])) ≡ done (returned (111 ∷ 120 ∷ []))
unfolding exec read_loop fgets get_line c_str
exec-nul = refl

exec-no_stream : exec 5 none ≡ done throws
unfolding exec
exec-no_stream = refl

exec-returns_example :
    (r : List ℕ) × (exec 5 (some printed) ≡ done (returned r))
    × (length r ≤ 4)
    × ((has_nul printed ≡ true) ⊎ (r ≡ printed))
exec-returns_example = exec-returns 5 printed (omega arith)
