-- ===== src/Realtime/Messages/Refused.antt =====
-- internal/wsnearby/messages.go: the errors that the data of a subscription can have.

use geo.Base.{not, Option, none, some, if_cases, Option-cases, inl, inr}
use geo.Base.Int.{is_neg}
use geo.Base.Float.{Float}
use geo.Base.Result.{Result, ok, err}
use geo.Coords.{valid_coords}
use geo.Realtime.Messages.{
  NearbyShipmentRequest, SubscribeData, ParseError, unsupported_role, invalid_coords,
  invalid_radius, invalid_limit, invalid_type, Texts, role_of, validate_nearby_request, validated,
  subscribe_data_to_request,
}

module _ {f : Float} (x : Texts f) where
  -- The errors that the data of a subscription can have.
  abbrev pub IsOfData : ParseError → Type 0
  IsOfData unsupported_role = Unit
  IsOfData invalid_coords = Unit
  IsOfData invalid_radius = Unit
  IsOfData invalid_limit = Unit
  IsOfData invalid_type = Unit
  IsOfData _ = ⊥

  abbrev AreOfData : Option ParseError → Type 0
  AreOfData none = Unit
  AreOfData (some e) = IsOfData e

  validate_nearby_request-IsOfData :
      (req : NearbyShipmentRequest f) → AreOfData (validate_nearby_request x req)
  unfolding validate_nearby_request
  validate_nearby_request-IsOfData req =
      if_cases AreOfData (not (valid_coords f req.lat req.lng)) (λ _. tt)
        λ _.
          if_cases AreOfData (f.lt req.radius_km f.zero) (λ _. tt)
            λ _.
              if_cases AreOfData (is_neg req.limit) (λ _. tt)
                λ _. elim (Option-cases (role_of x req.type)) [
                  | inl unknown ↦ rw (unknown, validate_nearby_request) tt
                  | inr (r, known) ↦ rw (known, validate_nearby_request) tt
                ]

  abbrev pub FailsByData : Result ParseError (NearbyShipmentRequest f) → Type 0
  FailsByData (ok req) = Unit
  FailsByData (err e) = IsOfData e

  validated-FailsByData :
      (req : NearbyShipmentRequest f) (e : Option ParseError)
      → AreOfData e
      → FailsByData (validated x req e)
  validated-FailsByData req none h = tt
  validated-FailsByData req (some e) h = h

  pub subscribe_data_to_request-FailsByData :
      (sub : SubscribeData f) → FailsByData (subscribe_data_to_request x sub)
  unfolding subscribe_data_to_request
  subscribe_data_to_request-FailsByData sub = elim (Option-cases (role_of x sub.role)) [
    | inl unknown ↦ rw (unknown, subscribe_data_to_request) tt
    | inr (role, known) ↦
        rw (known, subscribe_data_to_request)
          (let req : NearbyShipmentRequest f = record {
            type = role;
            lat = sub.lat;
            lng = sub.lng;
            radius_km = sub.radius_km;
            limit = sub.limit;
            filter_vehicle_types = sub.filter_vehicle_types;
          } in
            validated-FailsByData req (validate_nearby_request x req)
              (validate_nearby_request-IsOfData req))
  ]
