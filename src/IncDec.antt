-- ===== src/IncDec.antt =====
-- 02-incdecthread/pthread.c: two threads, one that increments and one that decrements, each COUNT
-- times, a plain global `gsum` and an atomic global `agsum`.
-- The update of `gsum` is a load and a store, which the other thread can come between; the update of
-- `agsum` is one step. Memory is sequentially consistent. COUNT is a parameter.
pub mod Sums
pub mod Race
pub mod Unjoined
mod Tests
use ucb_rtes.Base.{ℕ, zero, suc, ◌+◌, ◌≡◌, Bool, Option, none, some, ltb, if◌then◌else◌}
use ucb_rtes.Base.Int.{ℤ, pos, negsuc, ◌+ℤ◌, ◌-ℤ◌}
use ucb_rtes.Base.Word.{to_int}

abbrev pub count : ℕ
count = 1_000_000

abbrev pub incdec_amount : ℤ
incdec_amount = pos 1

-- Before the load of `gsum` (the test of the `for` comes first), before its store with the value
-- loaded, and before the atomic update.
pub data Pc : Type 0 where
  load : Pc
  store : ℤ → Pc
  fetch : Pc

pub record Thread : Type 0 where
  pub i : ℕ
  pub pc : Pc

pub record State : Type 0 where
  pub gsum : ℤ
  pub agsum : ℤ
  pub inc : Thread
  pub dec : Thread

abbrev pub init : State
init = record {
  gsum = pos 0;
  agsum = pos 0;
  inc = record { i = 0; pc = load };
  dec = record { i = 0; pc = load };
}

-- One step of `incThread`; `none` behind its loop.
inc_at : ℕ → Pc → State → Option State
inc_at n load s =
    if ltb s.inc.i n then some (record s { inc = record s.inc { pc = store s.gsum } }) else none
inc_at n (store r) s =
    some (record s { gsum = to_int (r +ℤ incdec_amount); inc = record s.inc { pc = fetch } })
inc_at n fetch s = some (record s {
  agsum = to_int (s.agsum +ℤ incdec_amount);
  inc = record { i = s.inc.i + 1; pc = load };
})

pub inc_thread : ℕ → State → Option State
unfolding inc_at
inc_thread n s = inc_at n s.inc.pc s

-- One step of `decThread`.
dec_at : ℕ → Pc → State → Option State
dec_at n load s =
    if ltb s.dec.i n then some (record s { dec = record s.dec { pc = store s.gsum } }) else none
dec_at n (store r) s =
    some (record s { gsum = to_int (r -ℤ incdec_amount); dec = record s.dec { pc = fetch } })
dec_at n fetch s = some (record s {
  agsum = to_int (s.agsum -ℤ incdec_amount);
  dec = record { i = s.dec.i + 1; pc = load };
})

pub dec_thread : ℕ → State → Option State
unfolding dec_at
dec_thread n s = dec_at n s.dec.pc s

-- The threads interleave in any order.
pub data Step (n : ℕ) (s : State) : State → Type 0 where
  inc_step : {t : State} → inc_thread n s ≡ some t → Step n s t
  dec_step : {t : State} → dec_thread n s ≡ some t → Step n s t

pub data Reach (n : ℕ) : State → State → Type 0 where
  here : {s : State} → Reach n s s
  next : {s t u : State} → Step n s t → Reach n t u → Reach n s u

-- Both threads have left their loops: `main` prints the sums.
pub record IsDone (n : ℕ) (s : State) : Type 0 where
  pub inc_over : s.inc ≡ record { i = n; pc = load }
  pub dec_over : s.dec ≡ record { i = n; pc = load }
