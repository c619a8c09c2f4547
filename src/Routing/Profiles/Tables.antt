-- ===== src/Routing/Profiles/Tables.antt =====
-- The greatest entry of each table of speeds.
use geo.Base.{ℕ, Bool, true, Option, none, some, leb, refl, ◌≡◌}
use geo.Routing.Highway.{HighwayKind}
use geo.Routing.Profiles.{motorcycle_table, bus_table, train_table, walking_table}

abbrev pub at_most : ℕ → Option ℕ → Bool
at_most n none = true
at_most n (some v) = leb v n

pub motorcycle_table-at_most : (k : HighwayKind) → at_most 120 (motorcycle_table k) ≡ true
unfolding motorcycle_table
motorcycle_table-at_most HighwayKind.unknown = refl
motorcycle_table-at_most HighwayKind.motorway = refl
motorcycle_table-at_most HighwayKind.motorway_link = refl
motorcycle_table-at_most HighwayKind.trunk = refl
motorcycle_table-at_most HighwayKind.trunk_link = refl
motorcycle_table-at_most HighwayKind.primary = refl
motorcycle_table-at_most HighwayKind.primary_link = refl
motorcycle_table-at_most HighwayKind.secondary = refl
motorcycle_table-at_most HighwayKind.secondary_link = refl
motorcycle_table-at_most HighwayKind.tertiary = refl
motorcycle_table-at_most HighwayKind.tertiary_link = refl
motorcycle_table-at_most HighwayKind.unclassified = refl
motorcycle_table-at_most HighwayKind.residential = refl
motorcycle_table-at_most HighwayKind.living_street = refl
motorcycle_table-at_most HighwayKind.service = refl
motorcycle_table-at_most HighwayKind.track = refl
motorcycle_table-at_most HighwayKind.footway = refl
motorcycle_table-at_most HighwayKind.pedestrian = refl
motorcycle_table-at_most HighwayKind.path = refl
motorcycle_table-at_most HighwayKind.steps = refl
motorcycle_table-at_most HighwayKind.corridor = refl
motorcycle_table-at_most HighwayKind.crossing = refl
motorcycle_table-at_most HighwayKind.sidewalk = refl
motorcycle_table-at_most HighwayKind.platform = refl
motorcycle_table-at_most HighwayKind.rail = refl
motorcycle_table-at_most HighwayKind.subway = refl
motorcycle_table-at_most HighwayKind.light_rail = refl
motorcycle_table-at_most HighwayKind.narrow_gauge = refl
motorcycle_table-at_most HighwayKind.tram = refl
motorcycle_table-at_most HighwayKind.bus_route = refl
motorcycle_table-at_most HighwayKind.transfer = refl

pub bus_table-at_most : (k : HighwayKind) → at_most 90 (bus_table k) ≡ true
unfolding bus_table
bus_table-at_most HighwayKind.unknown = refl
bus_table-at_most HighwayKind.motorway = refl
bus_table-at_most HighwayKind.motorway_link = refl
bus_table-at_most HighwayKind.trunk = refl
bus_table-at_most HighwayKind.trunk_link = refl
bus_table-at_most HighwayKind.primary = refl
bus_table-at_most HighwayKind.primary_link = refl
bus_table-at_most HighwayKind.secondary = refl
bus_table-at_most HighwayKind.secondary_link = refl
bus_table-at_most HighwayKind.tertiary = refl
bus_table-at_most HighwayKind.tertiary_link = refl
bus_table-at_most HighwayKind.unclassified = refl
bus_table-at_most HighwayKind.residential = refl
bus_table-at_most HighwayKind.living_street = refl
bus_table-at_most HighwayKind.service = refl
bus_table-at_most HighwayKind.track = refl
bus_table-at_most HighwayKind.footway = refl
bus_table-at_most HighwayKind.pedestrian = refl
bus_table-at_most HighwayKind.path = refl
bus_table-at_most HighwayKind.steps = refl
bus_table-at_most HighwayKind.corridor = refl
bus_table-at_most HighwayKind.crossing = refl
bus_table-at_most HighwayKind.sidewalk = refl
bus_table-at_most HighwayKind.platform = refl
bus_table-at_most HighwayKind.rail = refl
bus_table-at_most HighwayKind.subway = refl
bus_table-at_most HighwayKind.light_rail = refl
bus_table-at_most HighwayKind.narrow_gauge = refl
bus_table-at_most HighwayKind.tram = refl
bus_table-at_most HighwayKind.bus_route = refl
bus_table-at_most HighwayKind.transfer = refl

pub train_table-at_most : (k : HighwayKind) → at_most 60 (train_table k) ≡ true
unfolding train_table
train_table-at_most HighwayKind.unknown = refl
train_table-at_most HighwayKind.motorway = refl
train_table-at_most HighwayKind.motorway_link = refl
train_table-at_most HighwayKind.trunk = refl
train_table-at_most HighwayKind.trunk_link = refl
train_table-at_most HighwayKind.primary = refl
train_table-at_most HighwayKind.primary_link = refl
train_table-at_most HighwayKind.secondary = refl
train_table-at_most HighwayKind.secondary_link = refl
train_table-at_most HighwayKind.tertiary = refl
train_table-at_most HighwayKind.tertiary_link = refl
train_table-at_most HighwayKind.unclassified = refl
train_table-at_most HighwayKind.residential = refl
train_table-at_most HighwayKind.living_street = refl
train_table-at_most HighwayKind.service = refl
train_table-at_most HighwayKind.track = refl
train_table-at_most HighwayKind.footway = refl
train_table-at_most HighwayKind.pedestrian = refl
train_table-at_most HighwayKind.path = refl
train_table-at_most HighwayKind.steps = refl
train_table-at_most HighwayKind.corridor = refl
train_table-at_most HighwayKind.crossing = refl
train_table-at_most HighwayKind.sidewalk = refl
train_table-at_most HighwayKind.platform = refl
train_table-at_most HighwayKind.rail = refl
train_table-at_most HighwayKind.subway = refl
train_table-at_most HighwayKind.light_rail = refl
train_table-at_most HighwayKind.narrow_gauge = refl
train_table-at_most HighwayKind.tram = refl
train_table-at_most HighwayKind.bus_route = refl
train_table-at_most HighwayKind.transfer = refl

pub walking_table-at_most : (k : HighwayKind) → leb (walking_table k) 50 ≡ true
unfolding walking_table
walking_table-at_most HighwayKind.unknown = refl
walking_table-at_most HighwayKind.motorway = refl
walking_table-at_most HighwayKind.motorway_link = refl
walking_table-at_most HighwayKind.trunk = refl
walking_table-at_most HighwayKind.trunk_link = refl
walking_table-at_most HighwayKind.primary = refl
walking_table-at_most HighwayKind.primary_link = refl
walking_table-at_most HighwayKind.secondary = refl
walking_table-at_most HighwayKind.secondary_link = refl
walking_table-at_most HighwayKind.tertiary = refl
walking_table-at_most HighwayKind.tertiary_link = refl
walking_table-at_most HighwayKind.unclassified = refl
walking_table-at_most HighwayKind.residential = refl
walking_table-at_most HighwayKind.living_street = refl
walking_table-at_most HighwayKind.service = refl
walking_table-at_most HighwayKind.track = refl
walking_table-at_most HighwayKind.footway = refl
walking_table-at_most HighwayKind.pedestrian = refl
walking_table-at_most HighwayKind.path = refl
walking_table-at_most HighwayKind.steps = refl
walking_table-at_most HighwayKind.corridor = refl
walking_table-at_most HighwayKind.crossing = refl
walking_table-at_most HighwayKind.sidewalk = refl
walking_table-at_most HighwayKind.platform = refl
walking_table-at_most HighwayKind.rail = refl
walking_table-at_most HighwayKind.subway = refl
walking_table-at_most HighwayKind.light_rail = refl
walking_table-at_most HighwayKind.narrow_gauge = refl
walking_table-at_most HighwayKind.tram = refl
walking_table-at_most HighwayKind.bus_route = refl
walking_table-at_most HighwayKind.transfer = refl
