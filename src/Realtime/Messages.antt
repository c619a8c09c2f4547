-- ===== src/Realtime/Messages.antt =====
-- internal/wsnearby/messages.go: the decoding and the checks of what a client sends. JSON is decoded
-- by functions that are arguments, none for an error; texts are trimmed and folded likewise.
pub mod Refused
pub mod Laws
use text.Mathlib.Text.{◌==◌ as str_eq}
use geo.Base.{List, Bool, true, false, not, ◌||◌, Option, none, some, String, if◌then◌else◌}
use geo.Base.Int.{ℤ, is_neg}
use geo.Base.Float.{Float}
use geo.Base.Result.{Result, ok, err}
use geo.Coords.{valid_coords}

-- NearbyShipmentRequest
pub record NearbyShipmentRequest (f : Float) : Type 0 where
  pub type : String
  pub lat : f.F
  pub lng : f.F
  pub radius_km : f.F
  pub limit : ℤ
  pub filter_vehicle_types : List ℤ

pub record SubscribeData (f : Float) : Type 0 where
  pub lat : f.F
  pub lng : f.F
  pub role : String
  pub radius_km : f.F
  pub limit : ℤ
  pub filter_vehicle_types : List ℤ

pub record InboundMessage : Type 0 where
  pub type : String
  pub payload : String

pub data ParseError : Type 0 where
  empty_message invalid_json requires_data invalid_data unsupported_role : ParseError
  invalid_coords invalid_radius invalid_limit invalid_type unsupported_message : ParseError

-- The message that is returned, and the request with it where it is a search.
pub data Parsed (f : Float) : Type 0 where
  ping : Parsed f
  subscribe : String → NearbyShipmentRequest f → Parsed f
  legacy : NearbyShipmentRequest f → Parsed f

-- json.Unmarshal for each type, strings.TrimSpace, ToUpper and ToLower.
pub record Texts (f : Float) : Type 0 where
  pub envelope : String → Option InboundMessage
  pub subscribe_data : String → Option (SubscribeData f)
  pub request : String → Option (NearbyShipmentRequest f)
  pub trim : String → String
  pub upper : String → String
  pub lower : String → String

module _ {f : Float} (x : Texts f) where
  -- The cases of the role, and of nearbyRequestType: none for the default.
  pub role_of : String → Option String
  role_of role =
      let r = x.lower (x.trim role) in
      if str_eq r "" || str_eq r "passenger" || str_eq r "shipment.nearby"
      then some "passenger"
      else if str_eq r "sender"
      then some "sender"
      else none

  -- validateNearbyRequest: none where the request is accepted.
  pub validate_nearby_request : NearbyShipmentRequest f → Option ParseError
  unfolding role_of
  validate_nearby_request req =
      if not (valid_coords f req.lat req.lng)
      then some invalid_coords
      else if f.lt req.radius_km f.zero
      then some invalid_radius
      else if is_neg req.limit
      then some invalid_limit
      else elim (role_of req.type) [ none ↦ some invalid_type | some r ↦ none ]

  -- The request, unless it is refused.
  abbrev pub validated :
      NearbyShipmentRequest f → Option ParseError → Result ParseError (NearbyShipmentRequest f)
  validated req none = ok req
  validated req (some e) = err e

  -- subscribeDataToRequest
  pub subscribe_data_to_request : SubscribeData f → Result ParseError (NearbyShipmentRequest f)
  unfolding role_of validate_nearby_request
  subscribe_data_to_request sub = elim (role_of sub.role) [
    | none ↦ err unsupported_role
    | some role ↦
        let req : NearbyShipmentRequest f = record {
          type = role;
          lat = sub.lat;
          lng = sub.lng;
          radius_km = sub.radius_km;
          limit = sub.limit;
          filter_vehicle_types = sub.filter_vehicle_types;
        } in
        validated req (validate_nearby_request req)
  ]

  -- tryLegacyNearbyRequest
  pub try_legacy_nearby_request : String → Option (NearbyShipmentRequest f)
  unfolding validate_nearby_request
  try_legacy_nearby_request raw = elim (x.request raw) [
    | none ↦ none
    | some req ↦ elim (validate_nearby_request req) [ none ↦ some req | some e ↦ none ]
  ]

  -- A legacy request where they are allowed, else an error.
  abbrev pub legacy_or : Bool → String → ParseError → Result ParseError (Parsed f)
  unfolding try_legacy_nearby_request
  legacy_or false raw e = err e
  legacy_or true raw e = elim (try_legacy_nearby_request raw) [
    | none ↦ err e
    | some req ↦ ok (legacy req)
  ]

  -- The case of SUBSCRIBE_LOCATION
  pub parse_subscribe : String → Result ParseError (Parsed f)
  unfolding subscribe_data_to_request
  parse_subscribe payload =
      if str_eq payload "" then err requires_data else elim (x.subscribe_data payload) [
        | none ↦ err invalid_data
        | some d ↦ elim (subscribe_data_to_request d) [
          | err e ↦ err e
          | ok req ↦ ok (subscribe payload req)
        ]
      ]

  -- ParseInbound
  pub parse_inbound : String → Bool → Result ParseError (Parsed f)
  unfolding parse_subscribe
  parse_inbound text allow_legacy =
      let raw = x.trim text in
      if str_eq raw "" then err empty_message else elim (x.envelope raw) [
        | none ↦ legacy_or allow_legacy raw invalid_json
        | some env ↦
            let msg_type = x.upper (x.trim env.type) in
            if str_eq msg_type "PING"
            then ok ping
            else if str_eq msg_type "SUBSCRIBE_LOCATION"
            then parse_subscribe env.payload
            else legacy_or allow_legacy raw unsupported_message
      ]
