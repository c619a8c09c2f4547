-- ===== src/Route/Answers.antt =====
-- internal/route/service.go: the answers that are built of routes and of the legs of a journey.
pub mod Laws
use text.Mathlib.Text.{◌==◌ as str_eq}
use geo.Base.{
  ℕ, zero, suc, List, [], ◌∷◌, ◌++◌, Option, none, some, String, Bool, ◌==◌, map, if◌then◌else◌,
  not, ◌+◌, false, true,
}
use geo.Base.Int.{ℤ, pos, ltb_ℤ, is_pos}
use geo.Base.Float.{Float}
use geo.Routing.Profiles.{TransportMode}
use geo.Routing.Polyline.{
  Coord, Point, Decoded, decoded, malformed, out_of_fuel, decode_polyline, encode_polyline,
}
use geo.Route.Model.{
  Instruction, Route, MultiModalLeg, RouteInstruction, RouteLeg, RouteOption, RouteResponse,
  RoutePoint, RouteRequest,
}

-- string(mode)
pub mode_name : TransportMode → String
mode_name TransportMode.car = "car"
mode_name TransportMode.motorcycle = "motorcycle"
mode_name TransportMode.bus = "bus"
mode_name TransportMode.walking = "walking"
mode_name TransportMode.airplane = "airplane"
mode_name TransportMode.train = "train"
mode_name TransportMode.public_transport = "public_transport"

-- maxRouteAlternatives = 3, defaultRouteAlternatives = 1
-- normalizeAlternatives, whose second argument is always given
pub normalize_alternatives : ℤ → ℤ → ℤ
normalize_alternatives n max_allowed =
    let given = if is_pos max_allowed then max_allowed else pos 3 in
    let most = if ltb_ℤ (pos 3) given then pos 3 else given in
    if not (is_pos n) then pos 1 else if ltb_ℤ most n then most else n

-- The part of NewRouteService that sets maxAlternatives
pub max_alternatives : ℤ → ℤ
max_alternatives configured =
    let given = if is_pos configured then configured else pos 1 in
    if ltb_ℤ (pos 3) given then pos 3 else given

module _ (f : Float) where
  -- routeMode
  pub route_mode : RouteRequest f → String
  route_mode req = if not (str_eq req.vehicle_type "") then req.vehicle_type else req.mode

  pub instruction_of : Instruction f → RouteInstruction f
  instruction_of i = record {
    index = i.index;
    type = i.type;
    modifier = i.modifier;
    text = i.text;
    distance_km = i.distance_km;
    duration_min = i.duration_min;
    location = record { lat = i.location.lat; lng = i.location.lng };
    street_name = i.street_name;
  }

  -- routeInstructions, with nil as the empty list
  pub route_instructions : List (Instruction f) → List (RouteInstruction f)
  unfolding instruction_of
  route_instructions is = map instruction_of is

  pub option_of : TransportMode → ℕ → Route f → RouteOption f
  unfolding route_instructions mode_name
  option_of mode i r = record {
    id = i + 1;
    mode = mode_name mode;
    is_primary = i == 0;
    distance_km = r.distance;
    duration_min = r.duration;
    polyline = r.polyline;
    instructions = route_instructions r.instructions;
  }

  pub options_loop : TransportMode → ℕ → List (Route f) → List (RouteOption f)
  unfolding option_of
  options_loop mode i [] = []
  options_loop mode i (r ∷ routes) = option_of mode i r ∷ options_loop mode (suc i) routes

  abbrev no_option : RouteOption f
  no_option = record {
    id = 0;
    mode = "";
    is_primary = false;
    distance_km = f.zero;
    duration_min = f.zero;
    polyline = [];
    instructions = [];
  }

  -- buildRouteResponse
  pub build_route_response : TransportMode → List (Route f) → RouteResponse f
  unfolding options_loop mode_name
  build_route_response mode routes =
      let opts = options_loop mode 0 routes in
      let primary : RouteOption f = elim opts [ [] ↦ no_option | o ∷ os ↦ o ] in
      record {
        distance = primary.distance_km;
        duration = primary.duration_min;
        polyline = primary.polyline;
        mode = mode_name mode;
        primary = primary;
        routes = opts;
        legs = [];
      }

  -- The coordinates of a polyline: math.Round(x * 1e5), and n / 1e5.
  abbrev pub coord : Coord
  coord = record {
    F = f.F;
    quantize = λ x. f.round (f.mul x (f.lit 100000 0));
    restore = λ n. f.div (f.of_int n) (f.lit 100000 0);
  }

  -- DecodePolyline, which gives nil for a text that it cannot read
  unfoldable pub decode_points : List ℕ → List (Point coord)
  decode_points text = elim (decode_polyline coord text) [
    | decoded points ↦ points
    | malformed ↦ []
    | out_of_fuel ↦ []
  ]

  pub leg_of : TransportMode → Route f → RouteLeg f
  unfolding route_instructions mode_name
  leg_of mode r = record {
    mode = mode_name mode;
    distance_km = r.distance;
    duration_min = r.duration;
    polyline = r.polyline;
    instructions = route_instructions r.instructions;
  }

  -- What the loop over the legs keeps: modelLegs, totalDist, totalDur and allPoints.
  pub record Journey : Type 0 where
    pub legs : List (RouteLeg f)
    pub dist : f.F
    pub dur : f.F
    pub points : List (Point coord)

  pub journey_loop : Journey → List (MultiModalLeg f) → Journey
  unfolding decode_points leg_of
  journey_loop j [] = j
  journey_loop j (leg ∷ legs) =
      let j' : Journey = elim leg.route [
        | none ↦ j
        | some r ↦ record {
          legs = j.legs ++ leg_of leg.mode r ∷ [];
          dist = f.add j.dist r.distance;
          dur = f.add j.dur r.duration;
          points = j.points ++ decode_points r.polyline;
        }
      ] in
      journey_loop j' legs

  -- buildMultiModalResponse
  pub build_multi_modal_response : TransportMode → List (MultiModalLeg f) → RouteResponse f
  unfolding journey_loop mode_name
  build_multi_modal_response top_mode legs =
      let j = journey_loop (record { legs = []; dist = f.zero; dur = f.zero; points = [] }) legs in
      let combined = encode_polyline coord j.points in
      record {
        distance = j.dist;
        duration = j.dur;
        polyline = combined;
        mode = mode_name top_mode;
        primary = record {
          id = 1;
          mode = mode_name top_mode;
          is_primary = true;
          distance_km = j.dist;
          duration_min = j.dur;
          polyline = combined;
          instructions = [];
        };
        routes = [];
        legs = j.legs;
      }
