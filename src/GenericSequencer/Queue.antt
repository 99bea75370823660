-- ===== src/GenericSequencer/Queue.antt =====
-- `std::priority_queue`, as far as generic-sequencer.cpp uses it: an interface, and one
-- implementation. The library does not say which of the greatest elements is on top; the comparator
-- `earliest_deadline` leaves no choice.
use ucb_rtes.Base.{
  ℕ, ◌+◌, ◌<◌, ◌≡◌, Bool, false, not, ◌&&◌, Option, none, some, ltb, ◌==◌, if◌then◌else◌,
}

-- `queue_element_t`: a deadline and the address of a service. The services stand in one array, so the
-- index stands for the address.
pub record Element : Type 0 where
  pub deadline : ℕ
  pub svc : ℕ

-- `earliest_deadline`: whether `a` comes behind `b`.
abbrev pub earliest_deadline : Element → Element → Bool
earliest_deadline a b =
    if not (a.deadline == b.deadline) then ltb b.deadline a.deadline else ltb b.svc a.svc

abbrev pub same : Element → Element → Bool
same a b = (a.deadline == b.deadline) && (a.svc == b.svc)

-- The operations, and how often an element is in a queue.
pub record PriorityQueue : Type 1 where
  pub Queue : Type 0
  pub empty : Queue
  pub emplace : Element → Queue → Queue
  pub top : Queue → Option Element
  pub pop : Queue → Queue
  pub count : Element → Queue → ℕ
  pub count-empty : (e : Element) → count e empty ≡ 0
  pub count-emplace :
      (e d : Element) (q : Queue) → count e (emplace d q) ≡ (if same d e then 1 else 0) + count e q
  pub count-pop :
      (e d : Element) (q : Queue)
      → top q ≡ some d
      → (if same d e then 1 else 0) + count e (pop q) ≡ count e q
  pub top_in : (d : Element) (q : Queue) → top q ≡ some d → 0 < count d q
  pub top_first :
      (e d : Element) (q : Queue) → top q ≡ some d → 0 < count e q → earliest_deadline d e ≡ false
  pub top_none : (e : Element) (q : Queue) → top q ≡ none → count e q ≡ 0
