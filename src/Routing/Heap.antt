-- ===== src/Routing/Heap.antt =====
-- internal/routing/astar.go: the priority queue of a search, and what a search asks of it.
use geo.Base.{ℕ, suc, ◌≡◌, ◌⊎◌, List, [], Option, none, some, false, length, In, ◌∷◌}
use geo.Base.Float.{Float}

module _ (f : Float) where
  -- pqItem. Nothing reads its index.
  pub record Item : Type 0 where
    pub node_id : ℕ
    pub g_cost : f.F
    pub f_cost : f.F

  -- The item at index 0.
  abbrev pub IsFront : Item → List Item → Type 0
  IsFront x [] = ⊥
  IsFront x (y ∷ q) = x ≡ y

  -- heap.Push and heap.Pop over the slice, and the order that they keep in it: Pop returns an item
  -- of least fCost, the one at index 0, and neither loses an item or makes one up.
  pub record PriorityQueue : Type 1 where
    pub push : Item → List Item → List Item
    pub pop : List Item → Option (Item × List Item)
    pub IsHeap : List Item → Type 0
    pub heap_nil : IsHeap []
    pub heap_push : (x : Item) (q : List Item) → IsHeap q → IsHeap (push x q)
    pub push_length : (x : Item) (q : List Item) → length (push x q) ≡ suc (length q)
    pub push_in : (x y : Item) (q : List Item) → In y (push x q) → (x ≡ y) ⊎ In y q
    pub in_push : (x y : Item) (q : List Item) → (x ≡ y) ⊎ In y q → In y (push x q)
    pub pop_none : (q : List Item) → pop q ≡ none → q ≡ []
    pub pop_front : (x : Item) (q r : List Item) → pop q ≡ some (x, r) → IsFront x q
    pub heap_pop : (x : Item) (q r : List Item) → pop q ≡ some (x, r) → IsHeap q → IsHeap r
    pub pop_length : (x : Item) (q r : List Item) → pop q ≡ some (x, r) → length q ≡ suc (length r)
    pub pop_in : (x y : Item) (q r : List Item) → pop q ≡ some (x, r) → (x ≡ y) ⊎ In y r → In y q
    pub in_pop : (x y : Item) (q r : List Item) → pop q ≡ some (x, r) → In y q → (x ≡ y) ⊎ In y r
    pub pop_least :
        (x y : Item) (q r : List Item)
        → pop q ≡ some (x, r)
        → IsHeap q
        → In y q
        → f.lt y.f_cost x.f_cost ≡ false
