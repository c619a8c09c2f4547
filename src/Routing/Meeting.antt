-- ===== src/Routing/Meeting.antt =====
-- internal/routing/bidir.go: the state of the search from both ends, the meeting of its sides, the
-- tests of its loop, and the ways that lead from the meeting node.
use geo.Base.{
  ℕ, zero, suc, List, [], ◌∷◌, ◌++◌, Option, none, some, Bool, true, false, not, ◌&&◌, ◌||◌, ◌==◌,
  if◌then◌else◌, value_or,
}
use geo.Base.Float.{Float, le_float}
use geo.Routing.Graph.{Edge}
use geo.Routing.Heap.{Item}
use geo.Routing.AStar.{Search}

module _ (f : Float) where
  -- The best complete path so far: its time, its distance and where its two parts meet.
  pub record Meeting : Type 0 where
    pub mu : f.F
    pub mu_dist : f.F
    pub meeting_node : Option ℕ

  pub record Bidir : Type 0 where
    pub fwd : Search f
    pub bwd : Search f
    pub best : Meeting

  -- tryMeet
  unfoldable pub try_meet : ℕ → f.F → f.F → f.F → f.F → Meeting → Meeting
  try_meet node_id fwd bwd fwd_dist bwd_dist best =
      if f.lt (f.add fwd bwd) best.mu
      then record {
        mu = f.add fwd bwd;
        mu_dist = f.add fwd_dist bwd_dist;
        meeting_node = some node_id;
      }
      else best

  abbrev pub dist_at : Search f → ℕ → f.F
  dist_at s v = value_or (s.dist_score v) f.zero

  -- The forward search is at a node with a time: has the backward search reached it?
  unfoldable pub forward_meet : ℕ → f.F → Bidir → Bidir
  forward_meet v t b = elim (b.bwd.time_score v) [
    | none ↦ b
    | some gb ↦ record b { best = try_meet v t gb (dist_at b.fwd v) (dist_at b.bwd v) b.best }
  ]

  unfoldable pub backward_meet : ℕ → f.F → Bidir → Bidir
  backward_meet v t b = elim (b.fwd.time_score v) [
    | none ↦ b
    | some gf ↦ record b { best = try_meet v gf t (dist_at b.fwd v) (dist_at b.bwd v) b.best }
  ]

  abbrev pub no_items : List (Item f) → Bool
  no_items [] = true
  no_items (it ∷ rest) = false

  -- The time of the item at the front, or math.MaxFloat64.
  abbrev pub top_cost : List (Item f) → f.F
  top_cost [] = f.max_float64
  top_cost (it ∷ rest) = it.g_cost

  -- topF + topB >= mu
  abbrev pub cannot_improve : Bidir → Bool
  cannot_improve b = le_float f b.best.mu (f.add (top_cost b.fwd.queue) (top_cost b.bwd.queue))

  abbrev pub is_forward : Bidir → Bool
  is_forward b =
      not (no_items b.fwd.queue)
      && (no_items b.bwd.queue || le_float f (top_cost b.fwd.queue) (top_cost b.bwd.queue))

  -- The first loop of buildBidirPath, from the meeting node back to the start.
  unfoldable pub forward_chain :
      ℕ
      → (ℕ → Option (ℕ × Edge f))
      → ℕ
      → ℕ
      → List ℕ
      → List (Edge f)
      → Option (List ℕ × List (Edge f))
  forward_chain zero prev start cur ids edges = none
  forward_chain (suc fuel) prev start cur ids edges =
      if cur == start then some (ids ++ cur ∷ [], edges) else elim (prev cur) [
        | none ↦ some (ids ++ cur ∷ [], edges)
        | some (u, e) ↦ forward_chain fuel prev start u (ids ++ cur ∷ []) (edges ++ e ∷ [])
      ]

  -- Its second loop, from the meeting node on to the goal.
  unfoldable pub backward_chain :
      ℕ
      → (ℕ → Option (ℕ × Edge f))
      → ℕ
      → ℕ
      → List ℕ
      → List (Edge f)
      → Option (List ℕ × List (Edge f))
  backward_chain zero next goal cur ids edges = none
  backward_chain (suc fuel) next goal cur ids edges =
      if cur == goal then some (ids, edges) else elim (next cur) [
        | none ↦ some (ids, edges)
        | some (u, e) ↦ backward_chain fuel next goal u (ids ++ u ∷ []) (edges ++ e ∷ [])
      ]
