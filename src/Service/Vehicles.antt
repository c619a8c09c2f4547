-- ===== src/Service/Vehicles.antt =====
-- internal/service/shipment.go: the vehicle types that a shipment allows, matched against those of
-- the user and shown with their labels. Texts are lists of bytes, ids are int64.
use mathlib.Core.Bool.{false≢true}
use mathlib.Core.Path.{subst}
use mathlib.Core.List.{map-append}
use geo.Base.Int.{◌==ℤ◌, ==ℤ_iff}
use geo.Base.Decimal.{decimal}
use geo.Base.{
  ℕ, suc, ◌≡◌, refl, sym, ap, ◌∙◌, inl, inr, Bool, true, false, ◌||◌, List, [], ◌∷◌, ◌++◌, map,
  if◌then◌else◌, Bool-cases, In, ◌↔◌,
}
use geo.Base.Int.{ℤ, pos, negsuc}
use geo.Service.Ids.{IdSet, no_ids, insert_id, collect_loop, dedupe_int64s}

pub format_int : ℤ → List ℕ
unfolding decimal
format_int (pos n) = decimal 20 n []
format_int (negsuc n) = b'-' ∷ decimal 20 (suc n) []

-- vehicleTypeInfo; a key that is missing reads as two empty texts.
pub record VehicleTypeInfo : Type 0 where
  pub label : List ℕ
  pub title : List ℕ

pub record ShipmentVehicle : Type 0 where
  pub vehicle_type_id : ℤ
  pub label : List ℕ
  pub title : List ℕ

-- vehicleTypeSet
pub vehicle_type_set : List ℤ → IdSet
vehicle_type_set [] = no_ids
vehicle_type_set (id ∷ ids) = insert_id id (vehicle_type_set ids)

-- hasAnyVehicleType
pub has_any_vehicle_type : List ℤ → IdSet → Bool
has_any_vehicle_type [] want = false
has_any_vehicle_type (id ∷ ids) want = let rest = has_any_vehicle_type ids want in want id || rest

pub vehicle_of : (ℤ → VehicleTypeInfo) → ℤ → ShipmentVehicle
unfolding format_int
vehicle_of vehicle_types id =
    let info = vehicle_types id in
    record {
      vehicle_type_id = id;
      label = elim info.label [ [] ↦ format_int id | c ∷ text ↦ c ∷ text ];
      title = info.title;
    }

pub vehicles_loop :
    (ℤ → VehicleTypeInfo) → IdSet → List ShipmentVehicle → List ℤ → List ShipmentVehicle
unfolding vehicle_of
vehicles_loop vehicle_types seen out [] = out
vehicles_loop vehicle_types seen out (id ∷ ids) =
    let skipped = vehicles_loop vehicle_types seen out ids in
    let taken =
      vehicles_loop vehicle_types (insert_id id seen) (out ++ vehicle_of vehicle_types id ∷ [])
        ids in
    if seen id then skipped else taken

-- buildShipmentVehicles
pub build_shipment_vehicles : List ℤ → (ℤ → VehicleTypeInfo) → List ShipmentVehicle
unfolding vehicles_loop
build_shipment_vehicles allowed_ids vehicle_types =
    vehicles_loop vehicle_types no_ids [] allowed_ids

vehicles_loop-collect_loop :
    (types : ℤ → VehicleTypeInfo) (seen : IdSet) (out ids : List ℤ)
    → vehicles_loop types seen (map (vehicle_of types) out) ids
      ≡ map (vehicle_of types) (collect_loop (λ id. true) seen out ids)
unfolding vehicles_loop collect_loop
vehicles_loop-collect_loop types seen out [] = refl
vehicles_loop-collect_loop types seen out (id ∷ ids) = elim (Bool-cases (seen id)) [
  | inl again ↦ rw again (vehicles_loop-collect_loop types seen out ids)
  | inr new ↦ rw new (
      ap (λ l. vehicles_loop types (insert_id id seen) l ids)
        (sym (map-append (vehicle_of types) out (id ∷ [])))
      ∙ vehicles_loop-collect_loop types (insert_id id seen) (out ++ id ∷ []) ids)
]

-- The vehicles shown for a shipment are the allowed ids without their duplicates, each with its
-- label and title.
pub build_shipment_vehicles-dedupe_int64s :
    (ids : List ℤ) (types : ℤ → VehicleTypeInfo)
    → build_shipment_vehicles ids types ≡ map (vehicle_of types) (dedupe_int64s ids)
unfolding build_shipment_vehicles dedupe_int64s
build_shipment_vehicles-dedupe_int64s ids types = vehicles_loop-collect_loop types no_ids [] ids

vehicle_type_set-In : (ids : List ℤ) (x : ℤ) → (vehicle_type_set ids x ≡ true) ↔ In x ids
unfolding vehicle_type_set
vehicle_type_set-In [] x = (λ h. absurd (false≢true h), λ h. absurd h)
vehicle_type_set-In (id ∷ ids) x = elim (Bool-cases (id ==ℤ x)) [
  | inl same ↦ ((λ h. inl ((==ℤ_iff id x).0 same)), λ h. rw same refl)
  | inr other ↦ (
    (λ h. inr ((vehicle_type_set-In ids x).0 (rw other at h))),
    λ h. elim h [
      | inl e ↦ absurd (false≢true (sym other ∙ (==ℤ_iff id x).1 e))
      | inr later ↦ rw other ((vehicle_type_set-In ids x).1 later)
    ],
  )
]

-- A shipment passes the filter exactly when a vehicle type that it allows is among those that the
-- user wants.
pub has_any_vehicle_type_iff :
    (allowed ids : List ℤ)
    → (has_any_vehicle_type allowed (vehicle_type_set ids) ≡ true)
      ↔ ((x : ℤ) × In x allowed × In x ids)
unfolding has_any_vehicle_type
has_any_vehicle_type_iff [] ids =
    (λ h. absurd (false≢true h), λ (x, none_there, h). absurd none_there)
has_any_vehicle_type_iff (id ∷ allowed) ids = elim (Bool-cases (vehicle_type_set ids id)) [
  | inl wanted ↦ ((λ h. (id, inl refl, (vehicle_type_set-In ids id).0 wanted)), λ h. rw wanted refl)
  | inr other ↦ (
    (λ h.
        let (x, place, want) = (has_any_vehicle_type_iff allowed ids).0 (rw other at h) in
        (x, inr place, want)),
    λ (x, place, want). rw other (elim place [
      | inl e ↦ absurd (
          false≢true
            (sym other ∙ (vehicle_type_set-In ids id).1 (subst (λ y. In y ids) (sym e) want)))
      | inr later ↦ (has_any_vehicle_type_iff allowed ids).1 (x, later, want)
    ]),
  )
]
