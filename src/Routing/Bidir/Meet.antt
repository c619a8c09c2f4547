-- ===== src/Routing/Bidir/Meet.antt =====
-- What tryMeet keeps true: the best complete path is as long as the scores of its meeting node say.
use geo.Base.{
  ℕ, ◌≡◌, refl, ap, ◌∙◌, sym, inl, inr, Option, some, false, ◌==◌, ◌⊎◌, Bool-cases, ==_iff,
  from_some, none, true,
}
use geo.Base.Float.{Float, IsOrdered}
use geo.Routing.Graph.{update}
use geo.Routing.Meeting.{Meeting, try_meet, forward_meet, Bidir, backward_meet, dist_at}
use geo.Routing.Bidir.{improves}

module _ {f : Float} where
  -- The two scores of the meeting node add up to mu, up to the order.
  abbrev pub IsMet : (ℕ → Option f.F) → (ℕ → Option f.F) → Meeting f → Type 0
  IsMet fwd bwd best =
      (m : ℕ)
      → best.meeting_node ≡ some m
      → (a b : f.F) × (fwd m ≡ some a)
        × (bwd m ≡ some b)
        × (f.lt best.mu (f.add a b) ≡ false)
        × (f.lt (f.add a b) best.mu ≡ false)

  -- The same at every node but `v`, whose scores may now add up to less.
  abbrev pub IsMetBut : ℕ → (ℕ → Option f.F) → (ℕ → Option f.F) → Meeting f → Type 0
  IsMetBut v fwd bwd best =
      (m : ℕ)
      → best.meeting_node ≡ some m
      → (a b : f.F) × (fwd m ≡ some a)
        × (bwd m ≡ some b)
        × (f.lt best.mu (f.add a b) ≡ false)
        × ((v ≡ m) ⊎ (f.lt (f.add a b) best.mu ≡ false))

  pub IsMet-But :
      (v : ℕ) (fwd bwd : ℕ → Option f.F) (best : Meeting f)
      → IsMet fwd bwd best
      → IsMetBut v fwd bwd best
  IsMet-But v fwd bwd best met m at_m =
      let (a, b, sa, sb, ge, le) = met m at_m in (a, b, sa, sb, ge, inr le)

  pub IsMet-swap :
      (ordered : IsOrdered f) (fwd bwd : ℕ → Option f.F) (best : Meeting f)
      → IsMet fwd bwd best
      → IsMet bwd fwd best
  IsMet-swap ordered fwd bwd best met m at_m =
      let (a, b, sa, sb, ge, le) = met m at_m in
      (
        b,
        a,
        sb,
        sa,
        ap (f.lt best.mu) (ordered.add_comm b a) ∙ ge,
        ap (λ x. f.lt x best.mu) (ordered.add_comm b a) ∙ le,
      )

  -- After the score of `v` on one side went down.
  pub update-IsMetBut :
      (ordered : IsOrdered f) (v : ℕ) (t : f.F) (fwd bwd : ℕ → Option f.F) (best : Meeting f)
      → ((a : f.F) → fwd v ≡ some a → f.lt a t ≡ false)
      → IsMet fwd bwd best
      → IsMetBut v (update fwd v (some t)) bwd best
  update-IsMetBut ordered v t fwd bwd best lower met m at_m =
      let (a, b, sa, sb, ge, le) = met m at_m in
      elim (Bool-cases (v == m)) [
        | inr other ↦ (a, b, rw other sa, sb, ge, inr le)
        | inl hit ↦
            let same = (==_iff v m).0 hit in
            (
              t,
              b,
              rw hit refl,
              sb,
              ordered.le_trans (f.add t b) (f.add a b) best.mu
                  (ordered.add_mono t a b (lower a (ap fwd same ∙ sa))) ge,
              inl same,
            )
      ]

  -- tryMeet at `v`, with times that are its scores up to the order.
  pub try_meet-IsMet :
      (ordered : IsOrdered f) (v : ℕ) (x y a b da db : f.F) (fwd bwd : ℕ → Option f.F)
      (best : Meeting f)
      → fwd v ≡ some a
      → bwd v ≡ some b
      → f.lt x a ≡ false
      → f.lt a x ≡ false
      → y ≡ b
      → IsMetBut v fwd bwd best
      → IsMet fwd bwd (try_meet f v x y da db best)
  unfolding try_meet
  try_meet-IsMet ordered v x y a b da db fwd bwd best sa sb ge le same but =
      elim (Bool-cases (f.lt (f.add x y) best.mu)) [
        | inl shorter ↦ rw shorter (λ m at_m.
            let here : v ≡ m = from_some at_m in
            (
              a,
              b,
              ap fwd (sym here) ∙ sa,
              ap bwd (sym here) ∙ sb,
              rw same (ordered.add_mono a x b ge),
              rw same (ordered.add_mono x a b le),
            ))
        | inr no_shorter ↦ rw no_shorter (λ m at_m.
            let (a', b', sa', sb', up, down) = but m at_m in
            (
              a',
              b',
              sa',
              sb',
              up,
              elim down [
                | inr low ↦ low
                | inl here ↦
                    let same_a : a ≡ a' = from_some (sym sa ∙ ap fwd here ∙ sa') in
                    let same_b : b ≡ b' = from_some (sym sb ∙ ap bwd here ∙ sb') in
                    ap (λ t. f.lt (f.add t b') best.mu) (sym same_a)
                    ∙ ap (λ t. f.lt (f.add a t) best.mu) (sym same_b)
                    ∙ ordered.le_trans best.mu (f.add x b) (f.add a b) (rw same at no_shorter)
                        (ordered.add_mono x a b le)
              ],
            ))
      ]

  -- Nothing is met at a node without a score on the other side.
  pub IsMetBut-none :
      (v : ℕ) (fwd bwd : ℕ → Option f.F) (best : Meeting f)
      → bwd v ≡ none
      → IsMetBut v fwd bwd best
      → IsMet fwd bwd best
  IsMetBut-none v fwd bwd best none_there but m at_m =
      let (a, b, sa, sb, ge, down) = but m at_m in
      (
        a,
        b,
        sa,
        sb,
        ge,
        elim down [
          | inr le ↦ le
          | inl here ↦ let odd : none ≡ some b = sym none_there ∙ ap bwd here ∙ sb in absurd cc
        ],
      )

  forward_best :
      (ordered : IsOrdered f) (v : ℕ) (t a : f.F) (b : Bidir f) (o : Option f.F)
      → b.bwd.time_score v ≡ o
      → b.fwd.time_score v ≡ some a
      → f.lt t a ≡ false
      → f.lt a t ≡ false
      → IsMetBut v b.fwd.time_score b.bwd.time_score b.best
      → (best : Meeting f) × (forward_meet f v t b ≡ record b { best = best })
        × IsMet b.fwd.time_score b.bwd.time_score best
  unfolding forward_meet
  forward_best ordered v t a b none other score ge le but =
      (b.best, rw (other, forward_meet) refl, IsMetBut-none v _ _ b.best other but)
  forward_best ordered v t a b (some gb) other score ge le but =
      let d = dist_at f b.fwd v in
      let d' = dist_at f b.bwd v in
      (
        try_meet f v t gb d d' b.best,
        rw (other, forward_meet) refl,
        try_meet-IsMet ordered v t gb a gb d d' _ _ b.best score other ge le refl but,
      )

  -- The meeting check of the forward search: only `best` changes, and it is met.
  pub forward_meet-IsMet :
      (ordered : IsOrdered f) (v : ℕ) (t a : f.F) (b : Bidir f)
      → b.fwd.time_score v ≡ some a
      → f.lt t a ≡ false
      → f.lt a t ≡ false
      → IsMetBut v b.fwd.time_score b.bwd.time_score b.best
      → (best : Meeting f) × (forward_meet f v t b ≡ record b { best = best })
        × IsMet b.fwd.time_score b.bwd.time_score best
  forward_meet-IsMet ordered v t a b = forward_best ordered v t a b (b.bwd.time_score v) refl

  try_meet_comm :
      (ordered : IsOrdered f) (v : ℕ) (x y d d' : f.F) (best : Meeting f)
      → try_meet f v x y d d' best ≡ try_meet f v y x d' d best
  unfolding try_meet
  try_meet_comm ordered v x y d d' best = rw (ordered.add_comm x y, ordered.add_comm d d') refl

  backward_best :
      (ordered : IsOrdered f) (v : ℕ) (t a : f.F) (b : Bidir f) (o : Option f.F)
      → b.fwd.time_score v ≡ o
      → b.bwd.time_score v ≡ some a
      → f.lt t a ≡ false
      → f.lt a t ≡ false
      → IsMetBut v b.bwd.time_score b.fwd.time_score b.best
      → (best : Meeting f) × (backward_meet f v t b ≡ record b { best = best })
        × IsMet b.fwd.time_score b.bwd.time_score best
  unfolding backward_meet
  backward_best ordered v t a b none other score ge le but = (
    b.best,
    rw (other, backward_meet) refl,
    IsMet-swap ordered _ _ b.best (IsMetBut-none v _ _ b.best other but),
  )
  backward_best ordered v t a b (some gf) other score ge le but =
      let d = dist_at f b.fwd v in
      let d' = dist_at f b.bwd v in
      (
        try_meet f v gf t d d' b.best,
        rw (other, backward_meet) refl,
        IsMet-swap ordered b.bwd.time_score b.fwd.time_score (try_meet f v gf t d d' b.best) (
            rw (try_meet_comm ordered v gf t d d' b.best) (
              try_meet-IsMet ordered v t gf a gf d' d b.bwd.time_score b.fwd.time_score b.best score
                other ge le refl but)),
      )

  pub backward_meet-IsMet :
      (ordered : IsOrdered f) (v : ℕ) (t a : f.F) (b : Bidir f)
      → b.bwd.time_score v ≡ some a
      → f.lt t a ≡ false
      → f.lt a t ≡ false
      → IsMetBut v b.bwd.time_score b.fwd.time_score b.best
      → (best : Meeting f) × (backward_meet f v t b ≡ record b { best = best })
        × IsMet b.fwd.time_score b.bwd.time_score best
  backward_meet-IsMet ordered v t a b = backward_best ordered v t a b (b.fwd.time_score v) refl

  -- A score that is improved goes down.
  pub improves-lower :
      (ordered : IsOrdered f) (t : f.F) (scores : ℕ → Option f.F) (v : ℕ)
      → improves f t (scores v) ≡ true
      → (a : f.F) → scores v ≡ some a
      → f.lt a t ≡ false
  improves-lower ordered t scores v better a here = ordered.le_of_lt t a (rw here at better)
