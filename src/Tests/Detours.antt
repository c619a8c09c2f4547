-- ===== src/Tests/Detours.antt =====
-- Searches from both ends and alternatives on a small graph: three crossings in a row, and a slower
-- road from the first to the last.
use mathlib.Core.List.{Permᴰ}
use mathlib.Core.List.Permᴰ
use geo.Base.{
  ◌*◌, zero, suc, ℕ, refl, ap, inl, inr, Bool, false, Option, none, some, List, [], ◌∷◌,
  if◌then◌else◌, Yields, Bool-cases, ◌*◌, sym,
}
use geo.Routing.Highway.{HighwayKind}
use geo.Routing.Graph.{Node, Edge, Graph}
use geo.Routing.AStar.{Query}
use geo.Routing.AStar.Ends.{HasIds}
use geo.Routing.Bidir.{bi_a_star, bidir_fuel}
use geo.Routing.Bidir.Ends.{BidirEnds, bi_a_star-Ends}
use geo.Routing.Yen.{Way, Profile, k_fastest_paths}
use geo.Routing.Yen.Walk.{HasOwnIds}
use geo.Routing.Yen.Ends.{AreAlternatives, k_fastest_paths-Yields}
use geo.Routing.Engine.{RoadEngine, Context, Instructor}
use geo.Route.Model.{RoutePoint}
use geo.Tests.Fixed.{fixed, fixed-IsOrdered}
use geo.Tests.ListQueue.{list_queue}

abbrev stop_at : ℕ → Node fixed
stop_at id = record { id = id; lat = id * 1000; lng = 2000; flags = 1 }

abbrev lane_to : ℕ → ℕ → Edge fixed
lane_to v hours = record {
  to = v;
  distance_km = 1500;
  speed_kmh = 50000;
  time_hours = hours;
  kind = HighwayKind.residential;
  flags = 1;
  name_idx = 0;
}

abbrev stops : ℕ → Option (Node fixed)
stops (suc zero) = some (stop_at 1)
stops (suc (suc zero)) = some (stop_at 2)
stops (suc (suc (suc zero))) = some (stop_at 3)
stops _ = none

abbrev lanes : ℕ → List (Edge fixed)
lanes (suc zero) = lane_to 2 30 ∷ lane_to 3 90 ∷ []
lanes (suc (suc zero)) = lane_to 1 30 ∷ lane_to 3 30 ∷ []
lanes _ = []

abbrev lanes_back : ℕ → List ℕ
lanes_back (suc zero) = 2 ∷ []
lanes_back (suc (suc zero)) = 1 ∷ []
lanes_back (suc (suc (suc zero))) = 1 ∷ 2 ∷ []
lanes_back _ = []

abbrev detour : Graph fixed
detour = record {
  ids = 1 ∷ 2 ∷ 3 ∷ [];
  nodes = stops;
  edges = lanes;
  rev_adj = some lanes_back;
  grid = λ a b. stop_at 3 ∷ stop_at 1 ∷ [];
  name_pool = "" ∷ [];
  name_index = λ name. none;
}

abbrev by_van : Query fixed
by_van = record {
  edge_ok = none;
  speed_fn = none;
  heuristic_speed_kmh = 0;
  blocked_edges = λ u v. false;
  blocked_nodes = λ v. false;
  done = λ i. false;
}

abbrev van : Profile fixed
van = record { edge_ok = none; speed_fn = none; heuristic_speed_kmh = 0; done = λ r s i. false }

detour-HasIds : HasIds list_queue detour by_van
detour-HasIds zero n h = cc
detour-HasIds (suc zero) n h = inl refl
detour-HasIds (suc (suc zero)) n h = inr (inl refl)
detour-HasIds (suc (suc (suc zero))) n h = inr (inr (inl refl))
detour-HasIds (suc (suc (suc (suc v)))) n h = cc

id_of : Option (Node fixed) → ℕ
id_of none = 0
id_of (some n) = n.id

detour-HasOwnIds : HasOwnIds detour
unfolding id_of
detour-HasOwnIds zero n h = cc
detour-HasOwnIds (suc zero) n h = sym (ap id_of h)
detour-HasOwnIds (suc (suc zero)) n h = sym (ap id_of h)
detour-HasOwnIds (suc (suc (suc zero))) n h = sym (ap id_of h)
detour-HasOwnIds (suc (suc (suc (suc v)))) n h = cc

-- Sorting by insertion.
abbrev insert_way : (Way fixed → Way fixed → Bool) → Way fixed → List (Way fixed) → List (Way fixed)
insert_way less w [] = w ∷ []
insert_way less w (x ∷ xs) =
    let later = insert_way less w xs in if less x w then x ∷ later else w ∷ x ∷ xs

abbrev sort_ways : (Way fixed → Way fixed → Bool) → List (Way fixed) → List (Way fixed)
sort_ways less [] = []
sort_ways less (w ∷ ws) = insert_way less w (sort_ways less ws)

insert_way-Permᴰ :
    (less : Way fixed → Way fixed → Bool) (w : Way fixed) (xs : List (Way fixed))
    → Permᴰ (w ∷ xs) (insert_way less w xs)
insert_way-Permᴰ less w [] = Permᴰ.cons refl Permᴰ.nil
insert_way-Permᴰ less w (x ∷ xs) = elim (Bool-cases (less x w)) [
  | inl before ↦
      rw before (Permᴰ.trans (Permᴰ.swap refl refl) (Permᴰ.cons refl (insert_way-Permᴰ less w xs)))
  | inr after ↦ rw after (Permᴰ.refl (w ∷ x ∷ xs))
]

sort_ways-Permᴰ :
    (less : Way fixed → Way fixed → Bool) (ws : List (Way fixed)) → Permᴰ ws (sort_ways less ws)
sort_ways-Permᴰ less [] = Permᴰ.nil
sort_ways-Permᴰ less (w ∷ ws) =
    Permᴰ.trans (Permᴰ.cons refl (sort_ways-Permᴰ less ws))
      (insert_way-Permᴰ less w (sort_ways less ws))

bi_a_star-Ends_example :
    BidirEnds list_queue detour by_van 1 3
      (bi_a_star fixed list_queue detour by_van (bidir_fuel fixed list_queue detour by_van) 1 3)
bi_a_star-Ends_example = bi_a_star-Ends list_queue detour by_van fixed-IsOrdered 1 3 detour-HasIds

k_fastest_paths-Yields_example :
    Yields
      (AreAlternatives fixed-IsOrdered list_queue sort_ways sort_ways-Permᴰ detour van 1 3 3)
      (k_fastest_paths fixed list_queue sort_ways detour van 1 3 3 60)
k_fastest_paths-Yields_example =
    k_fastest_paths-Yields fixed-IsOrdered list_queue sort_ways sort_ways-Permᴰ detour van 1 3
      detour-HasOwnIds detour-HasIds 3 60

abbrev van_engine : RoadEngine fixed
van_engine = record { graph = some detour; avg_speed_kmh = 50000; yen_spur_cap = 60 }

abbrev in_time : Context fixed
in_time = record {
  cancelled_before = false;
  cancelled_after = false;
  done = λ round spur_idx i. false;
}

abbrev no_turns : Instructor fixed
no_turns path mode start end speed = []

abbrev straight : RoutePoint fixed → RoutePoint fixed → List (RoutePoint fixed)
straight start end = start ∷ end ∷ []

abbrev at_stop : ℕ → RoutePoint fixed
at_stop id = record { lat = id * 1000; lng = 2000 }
