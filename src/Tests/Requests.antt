-- ===== src/Tests/Requests.antt =====
-- Searches of a sender at concrete inputs.
use geo.Base.{
  map, if◌then◌else◌, take, length, ◌++◌, ◌-◌, arith, Option, ℕ, suc, ◌≡◌, refl, true, some, none,
  List, [], ◌∷◌, Option, false, ◌≢◌, All,
}
use geo.Service.Vehicles.{
  VehicleTypeInfo, vehicle_of, build_shipment_vehicles, build_shipment_vehicles-dedupe_int64s,
}
use geo.Base.Int.{◌==ℤ◌, ℤ, pos}
use geo.Service.Shipments.{
  ShipmentRow, ShipmentRepo, NearbyShipments, search_nearby_shipments, Shipping,
}
use geo.Service.Shipments.Laws.{IsShown, search_nearby_shipments-IsFound}
use geo.Service.Ids.{dedupe_int64s}
use geo.Service.Drivers.{
  visible_loop, Driver, Shippings, DriverState, DriverService, NearbyDrivers, search_nearby,
}
use geo.Service.Drivers.Laws.{IsAnswer, search_nearby-IsAnswer, shown, visible_loop-shown}
use geo.Tests.Fixed.{fixed}

-- Two drivers nearby, 7 and 9, of which 9 asks; the profiles show both on the map.
abbrev state_of : ℕ → DriverState fixed
state_of digit = record {
  id = digit ∷ [];
  lat = 35000;
  lng = 51000;
  timestamp_ms = pos 1;
  distance_km = 400;
}

abbrev profiles : Shippings
profiles = record {
  visible_on_map = λ ids. some (λ id. true);
  active_shippings = λ ids. some (λ id. none);
  latest_trips = λ ids. none;
}

abbrev drivers_near : DriverService fixed
drivers_near = record {
  default_radius_km = 5000;
  default_limit = pos 50;
  shippings = some profiles;
}

abbrev two_found : ℕ → ℕ → ℕ → ℤ → Option (List (DriverState fixed))
two_found lat lng radius limit = some (state_of b'7' ∷ state_of b'9' ∷ [])

abbrev answer_of : Option (NearbyDrivers fixed) → NearbyDrivers fixed
answer_of none = record { radius_km = 0; limit = pos 0; count = 0; drivers = [] }
answer_of (some r) = r

search_nearby-IsAnswer_example :
    IsAnswer fixed profiles
      (pos 9)
      (answer_of (search_nearby fixed drivers_near two_found 35000 51000 0 (pos 1) (pos 9)))
unfolding search_nearby
search_nearby-IsAnswer_example =
    search_nearby-IsAnswer fixed drivers_near profiles two_found 35000 51000 0 (pos 1) (pos 9)
      (answer_of (search_nearby fixed drivers_near two_found 35000 51000 0 (pos 1) (pos 9))) refl
      refl refl

abbrev driver_of : ℕ → Driver fixed
driver_of n = record {
  id = [];
  driver_id = pos n;
  lat = 35000;
  lng = 51000;
  timestamp_ms = pos 1;
  distance_km = 400;
  active = none;
}

visible_loop-shown_example :
    visible_loop fixed
      (λ id. true)
      (pos 2)
      (driver_of 4 ∷ [])
      (driver_of 0 ∷ driver_of 7 ∷ driver_of 9 ∷ [])
    ≡ (driver_of 4 ∷ [])
      ++ take
          (suc 1 - length (driver_of 4 ∷ []))
          (shown fixed (λ id. true) (driver_of 0 ∷ driver_of 7 ∷ driver_of 9 ∷ []))
visible_loop-shown_example =
    visible_loop-shown fixed (λ id. true) 1 (driver_of 4 ∷ [])
      (driver_of 0 ∷ driver_of 7 ∷ driver_of 9 ∷ []) (omega arith)

-- A bike, and nothing known of the other types.
abbrev known_types : ℤ → VehicleTypeInfo
known_types id =
    if id ==ℤ pos 2
    then record { label = b'b' ∷ []; title = [] }
    else record { label = []; title = [] }

build_shipment_vehicles-dedupe_int64s_example :
    build_shipment_vehicles (pos 2 ∷ pos 5 ∷ pos 2 ∷ []) known_types
    ≡ map (vehicle_of known_types) (dedupe_int64s (pos 2 ∷ pos 5 ∷ pos 2 ∷ []))
build_shipment_vehicles-dedupe_int64s_example =
    build_shipment_vehicles-dedupe_int64s (pos 2 ∷ pos 5 ∷ pos 2 ∷ []) known_types

-- Two shipments that take vehicle type 2; the second one is on its way with passenger 9.
abbrev shipment : ℤ → ShipmentRow
shipment id = record {
  id = some id;
  allowed_ids = pos 2 ∷ [];
  vehicles = [];
  shipping = none;
  can_resume_navigation = false;
  shipping_id = none;
}

abbrev on_its_way : ℤ → Option Shipping
on_its_way id =
    if id ==ℤ pos 2
    then some (record { id = some (pos 70); passenger_user_id = some (pos 9) })
    else none

abbrev two_shipments : ShipmentRepo fixed
two_shipments = record {
  find_nearby = λ lat lng radius limit user. some (shipment (pos 1) ∷ shipment (pos 2) ∷ []);
  shippings = some (λ ids. some on_its_way);
}

abbrev no_labels : ℤ → VehicleTypeInfo
no_labels id = record { label = []; title = [] }

always_found :
    (lat lng radius : ℕ) (limit user : ℤ)
    → two_shipments.find_nearby lat lng radius limit user ≢ none
always_found lat lng radius limit user e = cc

search_nearby_shipments-IsFound_example :
    (answer : NearbyShipments fixed) × (search_nearby_shipments fixed two_shipments 2000
        (pos 100)
        no_labels
        35000
        51000
        0
        (pos 0)
        (pos 2 ∷ [])
        (pos 4)
      ≡ some answer)
    × All (IsShown on_its_way (pos 2 ∷ []) (pos 4)) answer.shipments
    × (answer.count ≡ length answer.shipments)
search_nearby_shipments-IsFound_example =
    search_nearby_shipments-IsFound fixed two_shipments 2000 (pos 100) no_labels 35000 51000 0
      (pos 0) (pos 2 ∷ []) (pos 4) on_its_way (λ ids. some on_its_way) always_found refl
      (λ ids id asked. refl)
