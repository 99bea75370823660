-- ===== src/Xpto/Resource.antt =====
-- include/xpto/c_resource.hpp: the class template `c_resource`, an owner of a handle of a C library. A
-- handle is a number, and `Invalid` one of them, the parameter `invalid`. Objects are numbered by their
-- place among the objects alive, the latest first. Move assignment is not modelled: its body does not
-- compile where it is used.
pub mod Ownership
use ucb_rtes.Base.{ℕ, zero, suc, ◌+◌, Option, none, some, List, [], ◌∷◌, ◌==◌, if◌then◌else◌}

-- The payloads of the objects, and the handles that were acquired, that `Destruct` was called with, and
-- that were given away by `release`, the latest first.
pub record State : Type 0 where
  pub payloads : List ℕ
  pub acquired : List ℕ
  pub destructed : List ℕ
  pub released : List ℕ

abbrev pub init : State
init = record { payloads = []; acquired = []; destructed = []; released = [] }

-- The payload of object i, the same with another payload there, and without the object.
abbrev pub payload_at : ℕ → List ℕ → Option ℕ
payload_at i [] = none
payload_at zero (x ∷ xs) = some x
payload_at (suc i) (x ∷ xs) = payload_at i xs

abbrev pub assign : ℕ → ℕ → List ℕ → List ℕ
assign i v [] = []
assign zero v (x ∷ xs) = v ∷ xs
assign (suc i) v (x ∷ xs) = x ∷ assign i v xs

abbrev pub remove : ℕ → List ℕ → List ℕ
remove i [] = []
remove zero (x ∷ xs) = xs
remove (suc i) (x ∷ xs) = x ∷ remove i xs

-- `destruct`, for an object with this payload.
abbrev pub destruct : ℕ → ℕ → State → State
destruct invalid x s = if x == invalid then s else record s { destructed = x ∷ s.destructed }

pub data Op : Type 0 where
  default_construct : Op
  construct : ℕ → Op
  move_construct : ℕ → Op
  swap : ℕ → ℕ → Op
  destroy : ℕ → Op
  clear : ℕ → Op
  reset : ℕ → ℕ → Op
  release : ℕ → Op

-- An operation on objects whose payloads are given; `construct` takes what `Construct` returns, and
-- `swap` changes two objects.
abbrev pub move_from : ℕ → ℕ → Option ℕ → State → State
move_from invalid i none s = s
move_from invalid i (some x) s = record s { payloads = x ∷ assign i invalid s.payloads }

abbrev pub swap_at : ℕ → ℕ → Option ℕ → Option ℕ → State → State
swap_at i j (some x) (some y) s = record s { payloads = assign j x (assign i y s.payloads) }
swap_at i j _ _ s = s

abbrev pub destroy_at : ℕ → ℕ → Option ℕ → State → State
destroy_at invalid i none s = s
destroy_at invalid i (some x) s =
    let t = destruct invalid x s in record t { payloads = remove i t.payloads }

abbrev pub clear_at : ℕ → ℕ → Option ℕ → State → State
clear_at invalid i none s = s
clear_at invalid i (some x) s =
    let t = destruct invalid x s in record t { payloads = assign i invalid t.payloads }

abbrev pub reset_at : ℕ → ℕ → Option ℕ → State → State
reset_at i ptr none s = s
reset_at i ptr (some x) s = record s {
  payloads = assign i ptr s.payloads;
  acquired = ptr ∷ s.acquired;
  destructed = x ∷ s.destructed;
}

abbrev pub release_at : ℕ → ℕ → Option ℕ → State → State
release_at invalid i none s = s
release_at invalid i (some x) s = record s {
  payloads = assign i invalid s.payloads;
  released = x ∷ s.released;
}

unfoldable pub apply : ℕ → Op → State → State
apply invalid default_construct s = record s { payloads = invalid ∷ s.payloads }
apply invalid (construct h) s = record s { payloads = h ∷ s.payloads; acquired = h ∷ s.acquired }
apply invalid (move_construct i) s = move_from invalid i (payload_at i s.payloads) s
apply invalid (swap i j) s = swap_at i j (payload_at i s.payloads) (payload_at j s.payloads) s
apply invalid (destroy i) s = destroy_at invalid i (payload_at i s.payloads) s
apply invalid (clear i) s = clear_at invalid i (payload_at i s.payloads) s
apply invalid (reset i ptr) s = reset_at i ptr (payload_at i s.payloads) s
apply invalid (release i) s = release_at invalid i (payload_at i s.payloads) s

-- A sequence of operations, from no object at all; the first one is applied first.
unfoldable pub run : ℕ → List Op → State → State
run invalid [] s = s
run invalid (op ∷ ops) s = run invalid ops (apply invalid op s)
