-- ===== src/Service/Shipments.antt =====
-- internal/service/shipment.go: SearchNearby with the shippings that it attaches and the shipments
-- that it hides. A row of the database is a record of the columns that the search reads and sets;
-- its media are left out, and an id is none where toInt64 fails.
pub mod Attached
pub mod Laws
use geo.Base.{
  ℕ, List, [], ◌∷◌, Bool, true, false, not, ◌&&◌, Option, none, some, length, if◌then◌else◌,
}
use geo.Base.Int.{ℤ, is_pos, ◌==ℤ◌}
use geo.Base.Float.{Float}
use geo.Base.Result.{Result, ok, err}
use geo.Service.Ids.{IdSet}
use geo.Service.Limits.{effective_limit, effective_radius}
use geo.Service.Vehicles.{
  VehicleTypeInfo, ShipmentVehicle, vehicle_type_set, has_any_vehicle_type, build_shipment_vehicles,
}

-- The columns of a shipping that are read.
pub record Shipping : Type 0 where
  pub id : Option ℤ
  pub passenger_user_id : Option ℤ

pub record ShipmentRow : Type 0 where
  pub id : Option ℤ
  pub allowed_ids : List ℤ
  pub vehicles : List ShipmentVehicle
  pub shipping : Option Shipping
  pub can_resume_navigation : Bool
  pub shipping_id : Option ℤ

-- LoadShippingsByShipmentIDs, where the repository has it: none for an error.
pub record ShipmentRepo (f : Float) : Type 0 where
  pub find_nearby : f.F → f.F → f.F → ℤ → ℤ → Option (List ShipmentRow)
  pub shippings : Option (List ℤ → Option (ℤ → Option Shipping))

abbrev pub is_empty_ids : List ℤ → Bool
is_empty_ids [] = true
is_empty_ids (id ∷ ids) = false

-- `len(wantIDs) == 0 || hasAnyVehicleType(allowedIDs, wantIDs)`
abbrev pub passes : List ℤ → ShipmentRow → Bool
passes want row =
    if is_empty_ids want then true else has_any_vehicle_type row.allowed_ids (vehicle_type_set want)

-- The loop over the rows that were found
pub rows_loop : List ℤ → (ℤ → VehicleTypeInfo) → List ShipmentRow → List ShipmentRow
rows_loop want types [] = []
rows_loop want types (row ∷ rows) =
    let rest = rows_loop want types rows in
    if not (passes want row)
    then rest
    else record row { vehicles = build_shipment_vehicles row.allowed_ids types } ∷ rest

-- The ids of the rows, each once, that attachShippings asks for.
pub shipment_ids : (ℤ → Bool) → List ShipmentRow → List ℤ
shipment_ids seen [] = []
shipment_ids seen (row ∷ rows) = elim row.id [
  | none ↦ shipment_ids seen rows
  | some id ↦
      let skipped = shipment_ids seen rows in
      let taken = shipment_ids (λ i. if i ==ℤ id then true else seen i) rows in
      if not (is_pos id) then skipped else if seen id then skipped else id ∷ taken
]

abbrev pub attach_row : (ℤ → Option Shipping) → ShipmentRow → ShipmentRow
attach_row by_shipment row = record row {
  shipping = elim row.id [ none ↦ none | some id ↦ by_shipment id ];
}

pub attach_rows : (ℤ → Option Shipping) → List ShipmentRow → List ShipmentRow
attach_rows by_shipment [] = []
attach_rows by_shipment (row ∷ rows) = attach_row by_shipment row ∷ attach_rows by_shipment rows

-- attachShippings
pub attach_shippings :
    Option (List ℤ → Option (ℤ → Option Shipping)) → List ShipmentRow → List ShipmentRow
unfolding shipment_ids attach_rows
attach_shippings none rows = rows
attach_shippings (some load) rows =
    let ids = shipment_ids (λ i. false) rows in
    if is_empty_ids ids
    then rows
    else elim (load ids) [ none ↦ rows | some by_shipment ↦ attach_rows by_shipment rows ]

-- `passengerID, ok := toInt64(...); ok && userID > 0 && passengerID == userID`
abbrev pub is_own : ℤ → Shipping → Bool
is_own user_id shipping = elim shipping.passenger_user_id [
  | none ↦ false
  | some passenger ↦ is_pos user_id && passenger ==ℤ user_id
]

-- The id of the user's own shipping, where there is one.
abbrev pub resume_id : Shipping → Option ℤ → Option ℤ
resume_id shipping before = elim shipping.id [
  | none ↦ before
  | some id ↦ if is_pos id then some id else before
]

-- The loop that hides the shipments of others
pub hide_loop : ℤ → List ShipmentRow → List ShipmentRow
hide_loop user_id [] = []
hide_loop user_id (row ∷ rows) =
    let rest = hide_loop user_id rows in
    elim row.shipping [
      | none ↦ record row { can_resume_navigation = false } ∷ rest
      | some shipping ↦
          if is_own user_id shipping
          then record row {
            can_resume_navigation = true;
            shipping_id = resume_id shipping row.shipping_id;
          }
            ∷ rest
          else rest
    ]

-- NearbyShipmentResponse, without its time and the user's vehicles
pub record NearbyShipments (f : Float) : Type 0 where
  pub radius_km : f.F
  pub limit : ℤ
  pub count : ℕ
  pub shipments : List ShipmentRow

-- SearchNearby, with what cachedVehicleTypes gives; none for the repository's error.
pub search_nearby_shipments :
    (f : Float)
    → ShipmentRepo f
    → f.F
    → ℤ
    → (ℤ → VehicleTypeInfo)
    → f.F
    → f.F
    → f.F
    → ℤ
    → List ℤ
    → ℤ
    → Option (NearbyShipments f)
unfolding rows_loop attach_shippings hide_loop
search_nearby_shipments f repo default_radius default_limit types lat lng radius_km limit want
      user_id =
    let radius = effective_radius f default_radius radius_km in
    let most = effective_limit default_limit limit in
    elim (repo.find_nearby lat lng radius most user_id) [
      | none ↦ none
      | some rows ↦
          let shown =
            hide_loop user_id (attach_shippings repo.shippings (rows_loop want types rows)) in
          some
            (record { radius_km = radius; limit = most; count = length shown; shipments = shown })
    ]
