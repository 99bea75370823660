-- ===== src/GenericSequencer/OrderedList.antt =====
-- `std::priority_queue` as a list in the order of the comparator.
use ucb_rtes.Base.{
  ℕ, ◌+◌, ◌<◌, ◌≡◌, refl, true, false, Option, none, some, List, [], ◌∷◌, arith, if◌then◌else◌,
  Bool-cases, inl, inr,
}
use ucb_rtes.GenericSequencer.Queue.{Element, earliest_deadline, same, PriorityQueue}

unfoldable pub insert : Element → List Element → List Element
insert e [] = e ∷ []
insert e (d ∷ r) = let rest = insert e r in if earliest_deadline e d then d ∷ rest else e ∷ d ∷ r

unfoldable pub first : List Element → Option Element
first [] = none
first (d ∷ r) = some d

unfoldable pub rest : List Element → List Element
rest [] = []
rest (d ∷ r) = r

unfoldable pub occurrences : Element → List Element → ℕ
occurrences e [] = 0
occurrences e (d ∷ r) = (if same d e then 1 else 0) + occurrences e r

-- Nothing in the list comes in front of `d`.
unfoldable pub IsFirst : Element → List Element → Type 0
IsFirst d [] = Unit
IsFirst d (e ∷ r) = (earliest_deadline d e ≡ false) × IsFirst d r

unfoldable pub IsOrdered : List Element → Type 0
unfolding IsFirst
IsOrdered [] = Unit
IsOrdered (d ∷ r) = IsFirst d r × IsOrdered r

pub occurrences-insert :
    (e d : Element) (l : List Element)
    → occurrences e (insert d l) ≡ (if same d e then 1 else 0) + occurrences e l
unfolding insert occurrences
occurrences-insert e d [] = refl
occurrences-insert e d (x ∷ r) = ground (arith, occurrences-insert e d r)

earliest_deadline_trans :
    (a b c : Element)
    → earliest_deadline a b ≡ false
    → earliest_deadline b c ≡ false
    → earliest_deadline a c ≡ false
earliest_deadline_trans a b c p q = ground arith

earliest_deadline_asym :
    (a b : Element) → earliest_deadline a b ≡ true → earliest_deadline b a ≡ false
earliest_deadline_asym a b p = ground arith

IsFirst-trans :
    (a b : Element) (l : List Element) → earliest_deadline a b ≡ false → IsFirst b l → IsFirst a l
unfolding IsFirst
IsFirst-trans a b [] p h = tt
IsFirst-trans a b (x ∷ r) p h = (earliest_deadline_trans a b x p h.0, IsFirst-trans a b r p h.1)

IsFirst-insert :
    (d e : Element) (l : List Element)
    → earliest_deadline d e ≡ false
    → IsFirst d l
    → IsFirst d (insert e l)
unfolding insert IsFirst
IsFirst-insert d e [] p h = (p, tt)
IsFirst-insert d e (x ∷ r) p h = elim (Bool-cases (earliest_deadline e x)) [
  | inl behind ↦ rw behind (h.0, IsFirst-insert d e r p h.1)
  | inr before ↦ rw before (p, h)
]

pub IsOrdered-insert : (e : Element) (l : List Element) → IsOrdered l → IsOrdered (insert e l)
unfolding insert IsFirst IsOrdered
IsOrdered-insert e [] h = (tt, tt)
IsOrdered-insert e (x ∷ r) h = elim (Bool-cases (earliest_deadline e x)) [
  | inl behind ↦
      rw behind
        (IsFirst-insert x e r (earliest_deadline_asym e x behind) h.0, IsOrdered-insert e r h.1)
  | inr before ↦ rw before ((before, IsFirst-trans e x r before h.0), h)
]

pub IsOrdered-rest : (l : List Element) → IsOrdered l → IsOrdered (rest l)
unfolding rest IsOrdered
IsOrdered-rest [] h = tt
IsOrdered-rest (x ∷ r) h = h.1

IsFirst-occurrences :
    (d e : Element) (l : List Element)
    → IsFirst d l
    → 0 < occurrences e l
    → earliest_deadline d e ≡ false
unfolding IsFirst occurrences
IsFirst-occurrences d e [] h p = absurd (omega arith)
IsFirst-occurrences d e (x ∷ r) h p = elim (Bool-cases (same x e)) [
  | inl eq ↦ ground arith
  | inr other ↦ IsFirst-occurrences d e r h.1 (ground arith)
]

pub first-top :
    (e d : Element) (l : List Element)
    → IsOrdered l
    → first l ≡ some d
    → 0 < occurrences e l
    → earliest_deadline d e ≡ false
unfolding first IsOrdered occurrences
first-top e d [] h t p = absurd (omega arith)
first-top e d (x ∷ r) h t p = elim (Bool-cases (same x e)) [
  | inl eq ↦ ground arith
  | inr other ↦ IsFirst-occurrences d e r (ground arith) (ground arith)
]

pub occurrences-rest :
    (e d : Element) (l : List Element)
    → first l ≡ some d
    → (if same d e then 1 else 0) + occurrences e (rest l) ≡ occurrences e l
unfolding first rest occurrences
occurrences-rest e d [] t = absurd (ground arith)
occurrences-rest e d (x ∷ r) t = ground arith

pub first-in : (d : Element) (l : List Element) → first l ≡ some d → 0 < occurrences d l
unfolding first occurrences
first-in d [] t = absurd (ground arith)
first-in d (x ∷ r) t = ground arith

pub first-none : (e : Element) (l : List Element) → first l ≡ none → occurrences e l ≡ 0
unfolding first occurrences
first-none e [] t = refl
first-none e (x ∷ r) t = absurd (ground arith)

-- An implementation, as ordered lists.
unfoldable pub list_queue : PriorityQueue
unfolding IsOrdered occurrences
list_queue = record {
  Queue = (l : List Element) × IsOrdered l;
  empty = ([], tt);
  emplace = λ e q. (insert e q.0, IsOrdered-insert e q.0 q.1);
  top = λ q. first q.0;
  pop = λ q. (rest q.0, IsOrdered-rest q.0 q.1);
  count = λ e q. occurrences e q.0;
  count-empty = λ e. refl;
  count-emplace = λ e d q. occurrences-insert e d q.0;
  count-pop = λ e d q t. occurrences-rest e d q.0 t;
  top_in = λ d q t. first-in d q.0 t;
  top_first = λ e d q t p. first-top e d q.0 q.1 t p;
  top_none = λ e q t. first-none e q.0 t;
}
