-- ===== src/Tests/Roads.antt =====
-- Routing at concrete inputs: three crossings in a row, and a short polyline.
use geo.Base.{
  ◌++◌, map, ◌≢◌, zero, suc, ℕ, ◌≡◌, refl, inl, inr, false, Option, none, some, List, [], ◌∷◌, ◌*◌,
  arith,
}
use geo.Base.Int.{ℤ, pos, negsuc}
use geo.Routing.Highway.{HighwayKind}
use geo.Routing.Graph.{Node, Edge, Graph}
use geo.Routing.Polyline.{
  Coord, Point, encode_chunk, decode_chunk, decoded, encode_polyline, decode_polyline, out_of_fuel,
}
use geo.Routing.Polyline.Chunk.{decode_chunk-encode_chunk}
use geo.Routing.Polyline.Text.{snap, decode_polyline-encode_polyline}
use geo.Routing.Polyline.Total.{decode_polyline-ne-out_of_fuel}
use geo.Routing.AStar.Walk.{Usable, travel_time}
use geo.Routing.AStar.{Query, a_star, search_fuel}
use geo.Routing.AStar.Fastest.{IsFastest, a_star-IsFastest}
use geo.Routing.AStar.Ends.{HasIds, Ends, a_star-Ends}
use geo.Routing.Graph.{new_graph, intern_name}
use geo.Routing.Graph.Names.{IsInterned, intern_name-IsInterned, new_graph-HasNames}
use geo.Routing.Snap.{nearest_node_within}
use geo.Routing.Snap.Nearest.{IsNearest, nearest_node_within-IsNearest}
use geo.Routing.Profiles.{profile, bus, bus_table}
use geo.Routing.Profiles.Bounds.{IsAdmissible, profile-IsAdmissible}
use geo.Tests.Fixed.{fixed, fixed-IsOrdered, fixed-HasLiterals}
use geo.Tests.ListQueue.{list_queue}

abbrev crossing_at : ℕ → Node fixed
crossing_at id = record { id = id; lat = id * 1000; lng = 2000; flags = 1 }

abbrev road_to : ℕ → Edge fixed
road_to v = record {
  to = v;
  distance_km = 1500;
  speed_kmh = 50000;
  time_hours = 30;
  kind = HighwayKind.residential;
  flags = 1;
  name_idx = 0;
}

abbrev node_of : ℕ → Option (Node fixed)
node_of (suc zero) = some (crossing_at 1)
node_of (suc (suc zero)) = some (crossing_at 2)
node_of (suc (suc (suc zero))) = some (crossing_at 3)
node_of _ = none

abbrev edges_of : ℕ → List (Edge fixed)
edges_of (suc zero) = road_to 2 ∷ []
edges_of (suc (suc zero)) = road_to 1 ∷ road_to 3 ∷ []
edges_of _ = []

abbrev three_crossings : Graph fixed
three_crossings = record {
  ids = 1 ∷ 2 ∷ 3 ∷ [];
  nodes = node_of;
  edges = edges_of;
  rev_adj = none;
  grid = λ a b. [];
  name_pool = "" ∷ [];
  name_index = λ name. none;
}

abbrev by_car : Query fixed
by_car = record {
  edge_ok = none;
  speed_fn = none;
  heuristic_speed_kmh = 0;
  blocked_edges = λ u v. false;
  blocked_nodes = λ v. false;
  done = λ i. false;
}

three_crossings-HasIds : HasIds list_queue three_crossings by_car
three_crossings-HasIds zero n h = cc
three_crossings-HasIds (suc zero) n h = inl refl
three_crossings-HasIds (suc (suc zero)) n h = inr (inl refl)
three_crossings-HasIds (suc (suc (suc zero))) n h = inr (inr (inl refl))
three_crossings-HasIds (suc (suc (suc (suc v)))) n h = cc

a_star-Ends_example : Ends list_queue three_crossings by_car 1 3 (
    a_star fixed list_queue three_crossings by_car
      (search_fuel fixed list_queue three_crossings by_car)
      1
      3)
a_star-Ends_example = a_star-Ends list_queue three_crossings by_car 1 3 three_crossings-HasIds

profile-IsAdmissible_example :
    IsAdmissible fixed-IsOrdered fixed-HasLiterals (profile fixed bus) (road_to 2)
unfolding bus_table
profile-IsAdmissible_example =
    profile-IsAdmissible fixed-IsOrdered fixed-HasLiterals bus (road_to 2) (24, refl)

decode_chunk-encode_chunk_example :
    decode_chunk (encode_chunk (negsuc 17998320) ++ 63 ∷ []) 0 0 ≡ some (negsuc 17998320, 63 ∷ [])
decode_chunk-encode_chunk_example =
    decode_chunk-encode_chunk (negsuc 17998320) (63 ∷ []) (omega arith) (omega arith)

-- Coordinates in units of the fifth decimal place.
abbrev units : Coord
units = record { F = ℤ; quantize = λ z. z; restore = λ z. z }

abbrev two_points : List (Point units)
two_points =
    record { lat = pos 3850000; lng = negsuc 12019999 }
    ∷ record { lat = pos 4070000; lng = negsuc 12094999 }
    ∷ []

decode_polyline-encode_polyline_example :
    decode_polyline units (encode_polyline units two_points) ≡ decoded (map (snap units) two_points)
decode_polyline-encode_polyline_example = decode_polyline-encode_polyline units two_points (
  ((omega arith, omega arith), (omega arith, omega arith)),
  (((omega arith, omega arith), (omega arith, omega arith)), tt),
)

decode_polyline-ne-out_of_fuel_example : decode_polyline units (b'_' ∷ b'p' ∷ []) ≢ out_of_fuel
decode_polyline-ne-out_of_fuel_example = decode_polyline-ne-out_of_fuel units (b'_' ∷ b'p' ∷ [])

-- The three crossings again, in the cells of the grid: 2 km apart, as the fixed numbers go.
abbrev gridded : Graph fixed
gridded = record three_crossings { grid = λ a b. crossing_at 1 ∷ crossing_at 2 ∷ [] }

nearest_node_within-IsNearest_example :
    IsNearest fixed-IsOrdered gridded 1000 2000 300 none
      (nearest_node_within fixed gridded 1000 2000 300 none)
nearest_node_within-IsNearest_example =
    nearest_node_within-IsNearest fixed-IsOrdered gridded 1000 2000 300 none refl refl

intern_name-IsInterned_example :
    IsInterned fixed (new_graph fixed) "Valiasr" (intern_name fixed (new_graph fixed) "Valiasr")
unfolding new_graph
intern_name-IsInterned_example =
    intern_name-IsInterned fixed (new_graph fixed) "Valiasr" (new_graph-HasNames fixed)
      (omega arith)

by_car_nonneg :
    (u : ℕ) (e : Edge fixed)
    → Usable three_crossings by_car u e
    → fixed.lt (travel_time three_crossings by_car e) fixed.zero ≡ false
by_car_nonneg u e usable = ground arith

a_star-IsFastest_example :
    Ends list_queue three_crossings by_car 1 3 (
      a_star fixed list_queue three_crossings by_car
        (search_fuel fixed list_queue three_crossings by_car)
        1
        3)
    × IsFastest fixed-IsOrdered list_queue three_crossings by_car refl by_car_nonneg 1 3 (
        a_star fixed list_queue three_crossings by_car
          (search_fuel fixed list_queue three_crossings by_car)
          1
          3)
a_star-IsFastest_example =
    a_star-IsFastest fixed-IsOrdered list_queue three_crossings by_car refl by_car_nonneg 1 3
      three_crossings-HasIds
