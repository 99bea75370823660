-- ===== src/Assignment1.antt =====
-- 05-assignment1/pthread.cpp: `exec`, which reads what a command prints. The stream is the list of the
-- bytes to come; `main` logs it.
pub mod Output
mod Tests
use ucb_rtes.Base.{
  Bool, ℕ, zero, suc, ◌-◌, ◌≡◌, Option, none, some, List, [], ◌∷◌, ◌++◌, ◌==◌, if◌then◌else◌,
}
use ucb_rtes.Base.Bytes.{c_str}
use ucb_rtes.Base.Run.{Run, done, exited, running, ◌>>=◌}

abbrev pub newline : ℕ
newline = 10

abbrev pub buffer_size : ℕ
buffer_size = 128

-- Up to `left` bytes of a stream, with the newline that ends them, and what comes behind.
unfoldable pub get_line : ℕ → List ℕ → List ℕ × List ℕ
get_line zero xs = ([], xs)
get_line (suc left) [] = ([], [])
get_line (suc left) (x ∷ xs) =
    let (line, rest) = get_line left xs in if x == newline then (x ∷ [], xs) else (x ∷ line, rest)

-- `fgets`, for a buffer of this size: no line at the end of the stream.
unfoldable pub fgets : ℕ → List ℕ → Option (List ℕ × List ℕ)
fgets size [] = none
fgets size (x ∷ xs) = some (get_line (size - 1) (x ∷ xs))

-- `while (fgets(…) != nullptr) { result += buffer.data(); }`
unfoldable pub read_loop : ℕ → List ℕ → List ℕ → Run (List ℕ)
read_loop zero stream result = running
read_loop (suc fuel) stream result = elim (fgets buffer_size stream) [
  | none ↦ done result
  | some (line, rest) ↦ read_loop fuel rest (result ++ c_str line)
]

-- What a call of `exec` comes to: a string, or an exception. Where that is caught, `AUTO` calls `fclose`
-- on the way, with the null pointer.
pub data Outcome : Type 0 where
  returned : List ℕ → Outcome
  throws : Outcome

-- `popen` returns no stream, or one.
unfoldable pub exec : ℕ → Option (List ℕ) → Run Outcome
exec fuel none = done throws
exec fuel (some stream) = read_loop fuel stream [] >>= λ result. done (returned result)

-- What `main` logs: the text of `exec`, and one line from `main` and one from a thread.
pub data Logged : Type 0 where
  output : List ℕ → Logged
  hello_from_main hello_from_thread : Logged

-- The end of `main`: the object of the thread is gone, and the thread joined, at the end of the
-- statement that constructs it, if its constructor returns.
abbrev greet : Bool → Run (List Logged)
greet constructed = if constructed then done (hello_from_main ∷ hello_from_thread ∷ []) else exited

-- `main`, from what `popen` returns and whether the thread can be constructed. Nothing catches an
-- exception: `exited` is the end by `std::terminate`.
unfoldable pub main : ℕ → Option (List ℕ) → Bool → Run (List Logged)
main fuel stream constructed = exec fuel stream >>= λ o. elim o [
  | returned result ↦ greet constructed >>= λ rest. done (output (c_str result) ∷ rest)
  | throws ↦ exited
]
