-- ===== src/Routing/Profiles.antt =====
-- internal/routing/engine.go: the transport modes, the names a client may give them, and the
-- profile of each: the edges it may use, their speeds, and the speed of the heuristic. A speed
-- table is a function of the kind of the edge, `none` where the switch takes its default.
pub mod Tables
pub mod Bounds
use text.Mathlib.Text.{◌==◌ as str_eq}
use geo.Base.{ℕ, String, Bool, true, false, Option, none, some, ◌&&◌, ◌||◌, not, if◌then◌else◌}
use geo.Base.Float.{Float, le_float}
use geo.Routing.Highway.{HighwayKind, blocks_walking}
use geo.Routing.Graph.{Edge, has_flag}

pub data TransportMode : Type 0 where
  car motorcycle bus walking airplane train public_transport : TransportMode

-- NormalizeMode, on the text that is trimmed and in lower case: `none` is its error.
pub normalize_mode : String → Option TransportMode
normalize_mode mode =
    if str_eq mode ""
    then some car
    else if str_eq mode "car"
    then some car
    else if str_eq mode "motorcycle"
    then some motorcycle
    else if str_eq mode "bus"
    then some bus
    else if str_eq mode "walking"
    then some walking
    else if str_eq mode "airplane"
    then some airplane
    else if str_eq mode "train"
    then some train
    else if str_eq mode "public_transport"
    then some public_transport
    else if str_eq mode "walk" || (str_eq mode "pedestrian" || str_eq mode "foot")
    then some walking
    else if str_eq mode "transit"
        || (str_eq mode "publictransport" || (str_eq mode "public-transport" || str_eq mode "pt"))
    then some public_transport
    else none

-- The constants FlagCar to FlagTransit.
abbrev flag_car : ℕ
flag_car = 1

abbrev flag_motorcycle : ℕ
flag_motorcycle = 2

abbrev flag_bus : ℕ
flag_bus = 4

abbrev flag_foot : ℕ
flag_foot = 8

abbrev flag_train : ℕ
flag_train = 16

abbrev flag_transit : ℕ
flag_transit = 32

-- The cases of motorcycleSpeed.
pub motorcycle_table : HighwayKind → Option ℕ
motorcycle_table HighwayKind.motorway = some 120
motorcycle_table HighwayKind.motorway_link = some 90
motorcycle_table HighwayKind.trunk = some 100
motorcycle_table HighwayKind.trunk_link = some 80
motorcycle_table HighwayKind.primary = some 90
motorcycle_table HighwayKind.primary_link = some 75
motorcycle_table HighwayKind.secondary = some 70
motorcycle_table HighwayKind.secondary_link = some 60
motorcycle_table HighwayKind.tertiary = some 60
motorcycle_table HighwayKind.tertiary_link = some 50
motorcycle_table HighwayKind.unclassified = some 50
motorcycle_table HighwayKind.residential = some 40
motorcycle_table HighwayKind.living_street = some 25
motorcycle_table HighwayKind.service = some 25
motorcycle_table HighwayKind.track = some 25
motorcycle_table _ = none

-- The cases of busSpeed, each a bound on the speed of the edge.
unfoldable pub bus_table : HighwayKind → Option ℕ
bus_table HighwayKind.motorway = some 90
bus_table HighwayKind.motorway_link = some 70
bus_table HighwayKind.trunk = some 80
bus_table HighwayKind.trunk_link = some 70
bus_table HighwayKind.primary = some 70
bus_table HighwayKind.primary_link = some 60
bus_table HighwayKind.secondary = some 55
bus_table HighwayKind.secondary_link = some 50
bus_table HighwayKind.tertiary = some 45
bus_table HighwayKind.tertiary_link = some 40
bus_table HighwayKind.unclassified = some 35
bus_table HighwayKind.residential = some 25
bus_table HighwayKind.living_street = some 15
bus_table HighwayKind.service = some 15
bus_table HighwayKind.track = some 15
bus_table _ = none

-- The cases of trainSpeed with a speed of their own.
pub train_table : HighwayKind → Option ℕ
train_table HighwayKind.subway = some 60
train_table HighwayKind.light_rail = some 50
train_table HighwayKind.narrow_gauge = some 40
train_table HighwayKind.tram = some 30
train_table _ = none

-- walkingSpeed, in tenths of a km/h.
pub walking_table : HighwayKind → ℕ
walking_table HighwayKind.footway = 50
walking_table HighwayKind.pedestrian = 50
walking_table HighwayKind.path = 50
walking_table HighwayKind.corridor = 50
walking_table HighwayKind.crossing = 50
walking_table HighwayKind.sidewalk = 50
walking_table HighwayKind.platform = 50
walking_table HighwayKind.steps = 30
walking_table HighwayKind.living_street = 40
walking_table HighwayKind.residential = 22
walking_table HighwayKind.service = 22
walking_table HighwayKind.track = 20
walking_table HighwayKind.unclassified = 18
walking_table HighwayKind.tertiary = 15
walking_table HighwayKind.tertiary_link = 15
walking_table HighwayKind.secondary = 12
walking_table HighwayKind.secondary_link = 12
walking_table HighwayKind.primary = 12
walking_table HighwayKind.primary_link = 12
walking_table _ = 20

module _ (f : Float) where
  -- modeProfile; `edge_speed` is `none` where the precomputed time of the edge is used.
  pub record ModeProfile : Type 0 where
    pub edge_allowed : Edge f → Bool
    pub edge_speed : Option (Edge f → f.F)
    pub fallback_speed : f.F
    pub heuristic_speed_kmh : f.F

  -- minSpeed
  pub min_speed : f.F → f.F → f.F
  min_speed a b =
      if le_float f a f.zero
      then b
      else if le_float f b f.zero
      then a
      else if f.lt b a
      then b
      else a

  pub motorcycle_speed : Edge f → f.F
  unfolding motorcycle_table
  motorcycle_speed e = elim (motorcycle_table e.kind) [
    | none ↦ f.mul e.speed_kmh (f.lit 11 1)
    | some v ↦ f.lit v 0
  ]

  pub bus_speed : Edge f → f.F
  unfolding bus_table min_speed
  bus_speed e = elim (bus_table e.kind) [
    | none ↦ f.mul e.speed_kmh (f.lit 8 1)
    | some v ↦ min_speed (f.lit v 0) e.speed_kmh
  ]

  pub train_speed : Edge f → f.F
  unfolding train_table
  train_speed e = elim (train_table e.kind) [ none ↦ e.speed_kmh | some v ↦ f.lit v 0 ]

  -- transitSpeed: each case of its switch gives the same.
  pub transit_speed : Edge f → f.F
  transit_speed e = e.speed_kmh

  pub walking_allowed : Edge f → Bool
  walking_allowed e = has_flag e.flags flag_foot && not (blocks_walking e.kind)

  pub walking_speed : Edge f → f.F
  unfolding walking_table
  walking_speed e = f.lit (walking_table e.kind) 1

  -- The map of profiles: an airplane has none.
  pub profile : TransportMode → Option (ModeProfile)
  profile car = some (record {
    edge_allowed = λ e. has_flag e.flags flag_car;
    edge_speed = none;
    fallback_speed = f.zero;
    heuristic_speed_kmh = f.lit 130 0;
  })
  profile motorcycle = some (record {
    edge_allowed = λ e. has_flag e.flags flag_motorcycle;
    edge_speed = some motorcycle_speed;
    fallback_speed = f.lit 60 0;
    heuristic_speed_kmh = f.lit 150 0;
  })
  profile bus = some (record {
    edge_allowed = λ e. has_flag e.flags 5;
    edge_speed = some bus_speed;
    fallback_speed = f.lit 65 0;
    heuristic_speed_kmh = f.lit 100 0;
  })
  profile walking = some (record {
    edge_allowed = walking_allowed;
    edge_speed = some walking_speed;
    fallback_speed = f.lit 5 0;
    heuristic_speed_kmh = f.lit 6 0;
  })
  profile airplane = none
  profile train = some (record {
    edge_allowed = λ e. has_flag e.flags flag_train;
    edge_speed = some train_speed;
    fallback_speed = f.lit 80 0;
    heuristic_speed_kmh = f.lit 200 0;
  })
  profile public_transport = some (record {
    edge_allowed = λ e. has_flag e.flags flag_transit;
    edge_speed = some transit_speed;
    fallback_speed = f.lit 20 0;
    heuristic_speed_kmh = f.lit 40 0;
  })
