-- ===== src/Tests/ListQueue.antt =====
-- A queue of the tests that keeps its items in the order of their keys, the least at index 0, as a
-- heap does: it fills the interface of the searches.
use mathlib.Core.Path.{subst}
use geo.Base.{
  suc, ◌≡◌, refl, sym, ap, ◌∙◌, ◌⊎◌, inl, inr, true, false, Option, none, some, List, [], ◌∷◌, ltb,
  if◌then◌else◌, length, In, All, Bool-cases, from_some, arith,
}
use geo.Base.Every.{All-In}
use geo.Routing.Heap.{Item, IsFront, PriorityQueue}
use geo.Tests.Fixed.{fixed}

abbrev pub It : Type 0
It = Item fixed

abbrev pub insert_item : It → List It → List It
insert_item x [] = x ∷ []
insert_item x (y ∷ q) =
    let later = insert_item x q in if ltb x.f_cost y.f_cost then x ∷ y ∷ q else y ∷ later

abbrev pub take_front : List It → Option (It × List It)
take_front [] = none
take_front (x ∷ q) = some (x, q)

abbrev pub IsSorted : List It → Type 0
IsSorted [] = Unit
IsSorted (x ∷ q) = All (λ (y : It). ltb y.f_cost x.f_cost ≡ false) q × IsSorted q

pub insert_item-length : (x : It) (q : List It) → length (insert_item x q) ≡ suc (length q)
insert_item-length x [] = refl
insert_item-length x (y ∷ q) = elim (Bool-cases (ltb x.f_cost y.f_cost)) [
  | inl less ↦ rw less refl
  | inr more ↦ rw more (ap suc (insert_item-length x q))
]

pub insert_item-In : (x y : It) (q : List It) → In y (insert_item x q) → (x ≡ y) ⊎ In y q
insert_item-In x y [] h = h
insert_item-In x y (z ∷ q) h = elim (Bool-cases (ltb x.f_cost z.f_cost)) [
  | inl less ↦ rw less at h
  | inr more ↦ elim (rw more at h) [
    | inl here ↦ inr (inl here)
    | inr later ↦ elim (insert_item-In x y q later) [ inl e ↦ inl e | inr i ↦ inr (inr i) ]
  ]
]

pub In-insert_item : (x y : It) (q : List It) → (x ≡ y) ⊎ In y q → In y (insert_item x q)
In-insert_item x y [] h = h
In-insert_item x y (z ∷ q) h = elim (Bool-cases (ltb x.f_cost z.f_cost)) [
  | inl less ↦ rw less h
  | inr more ↦ rw more (elim h [
    | inl new ↦ inr (In-insert_item x y q (inl new))
    | inr old ↦ elim old [
      | inl here ↦ inl here
      | inr later ↦ inr (In-insert_item x y q (inr later))
    ]
  ])
]

insert_item-All : (P : It → Type 0) (x : It) (q : List It) → P x → All P q → All P (insert_item x q)
insert_item-All P x [] p h = (p, tt)
insert_item-All P x (y ∷ q) p h = elim (Bool-cases (ltb x.f_cost y.f_cost)) [
  | inl less ↦ rw less (p, h)
  | inr more ↦ rw more (h.0, insert_item-All P x q p h.1)
]

below :
    (x y : It) (q : List It)
    → ltb x.f_cost y.f_cost ≡ true
    → All (λ (z : It). ltb z.f_cost y.f_cost ≡ false) q
    → All (λ (z : It). ltb z.f_cost x.f_cost ≡ false) q
below x y [] less h = tt
below x y (z ∷ q) less h = (ground (arith, h.0), below x y q less h.1)

pub insert_item-IsSorted : (x : It) (q : List It) → IsSorted q → IsSorted (insert_item x q)
insert_item-IsSorted x [] h = (tt, tt)
insert_item-IsSorted x (y ∷ q) h = elim (Bool-cases (ltb x.f_cost y.f_cost)) [
  | inl less ↦ rw less ((ground arith, below x y q less h.0), h)
  | inr more ↦ rw more (
    insert_item-All (λ (z : It). ltb z.f_cost y.f_cost ≡ false) x q more h.0,
    insert_item-IsSorted x q h.1,
  )
]

pub front : (x : It) (q r : List It) → take_front q ≡ some (x, r) → q ≡ x ∷ r
front x [] r e = cc
front x (y ∷ q) r e = ap (λ (p : It × List It). p.0 ∷ p.1) (from_some e)

pub least :
    (x y : It) (q r : List It) → q ≡ x ∷ r → IsSorted q → In y q → ltb y.f_cost x.f_cost ≡ false
least x y q r e h i =
    let sorted = subst IsSorted e h in
    elim (subst (In y) e i) [
      | inl here ↦ ap (λ (z : It). ltb z.f_cost x.f_cost) (sym here) ∙ ground arith
      | inr later ↦ All-In (λ (z : It). ltb z.f_cost x.f_cost ≡ false) y r sorted.0 later
    ]

pub take_front-none : (q : List It) → take_front q ≡ none → q ≡ []
take_front-none [] e = refl
take_front-none (x ∷ q) e = cc

abbrev pub list_queue : PriorityQueue fixed
list_queue = record {
  push = insert_item;
  pop = take_front;
  IsHeap = IsSorted;
  heap_nil = tt;
  heap_push = insert_item-IsSorted;
  push_length = insert_item-length;
  push_in = insert_item-In;
  in_push = In-insert_item;
  pop_none = take_front-none;
  pop_front = λ x q r e. subst (λ l. IsFront fixed x l) (sym (front x q r e)) refl;
  heap_pop = λ x q r e h. (subst IsSorted (front x q r e) h).1;
  pop_length = λ x q r e. ap length (front x q r e);
  pop_in = λ x y q r e i. subst (In y) (sym (front x q r e)) i;
  in_pop = λ x y q r e i. subst (In y) (front x q r e) i;
  pop_least = λ x y q r e. least x y q r (front x q r e);
}
