-- ===== src/Route/Model.antt =====
-- internal/route/model.go: requests and answers of the route service, and the routes that they
-- show, of internal/routing. An encoded polyline is the list of its bytes.
use geo.Base.{ℕ, Bool, String, List, Option}
use geo.Base.Int.{ℤ}
use geo.Base.Float.{Float}
use geo.Routing.Profiles.{TransportMode}

-- ErrRoutingOverloaded and its like, which errors.Is tells apart; `other` is any error beside them.
pub data RouteError : Type 0 where
  overloaded timeout not_found unavailable other : RouteError

pub record RoutePoint (f : Float) : Type 0 where
  pub lat : f.F
  pub lng : f.F

-- Instruction of internal/routing
pub record Instruction (f : Float) : Type 0 where
  pub index : ℤ
  pub type : String
  pub modifier : String
  pub text : String
  pub distance_km : f.F
  pub duration_min : f.F
  pub location : RoutePoint f
  pub street_name : String

-- Route of internal/routing
pub record Route (f : Float) : Type 0 where
  pub distance : f.F
  pub duration : f.F
  pub points : List (RoutePoint f)
  pub polyline : List ℕ
  pub instructions : List (Instruction f)

-- MultiModalLeg of internal/routing; `route` is none for nil.
pub record MultiModalLeg (f : Float) : Type 0 where
  pub mode : TransportMode
  pub route : Option (Route f)

pub record RouteInstruction (f : Float) : Type 0 where
  pub index : ℤ
  pub type : String
  pub modifier : String
  pub text : String
  pub distance_km : f.F
  pub duration_min : f.F
  pub location : RoutePoint f
  pub street_name : String

pub record RouteLeg (f : Float) : Type 0 where
  pub mode : String
  pub distance_km : f.F
  pub duration_min : f.F
  pub polyline : List ℕ
  pub instructions : List (RouteInstruction f)

pub record RouteOption (f : Float) : Type 0 where
  pub id : ℕ
  pub mode : String
  pub is_primary : Bool
  pub distance_km : f.F
  pub duration_min : f.F
  pub polyline : List ℕ
  pub instructions : List (RouteInstruction f)

pub record RouteResponse (f : Float) : Type 0 where
  pub distance : f.F
  pub duration : f.F
  pub polyline : List ℕ
  pub mode : String
  pub primary : RouteOption f
  pub routes : List (RouteOption f)
  pub legs : List (RouteLeg f)

pub record RouteRequest (f : Float) : Type 0 where
  pub trip_id : ℤ
  pub start_lat : f.F
  pub start_lng : f.F
  pub end_lat : f.F
  pub end_lng : f.F
  pub mode : String
  pub vehicle_type : String
  pub alternatives : ℤ
