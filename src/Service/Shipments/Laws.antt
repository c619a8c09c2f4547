-- ===== src/Service/Shipments/Laws.antt =====
-- Which shipments a user is shown.
use geo.Base.{
  List, [], ◌∷◌, true, false, Option, none, some, ◌≡◌, All, ◌⊎◌, Bool-cases, if_cases, inl,
  Option-cases, sym, inr, ◌≢◌, if◌then◌else◌, length, refl,
}
use mathlib.Core.Path.{subst}
use geo.Base.Int.{ℤ}
use geo.Base.Float.{Float}
use geo.Service.Vehicles.{VehicleTypeInfo}
use geo.Service.Limits.{effective_limit, effective_radius}
use geo.Service.Shipments.Attached.{IsAttached, Answers, attach_shippings-IsAttached}
use geo.Service.Shipments.{
  resume_id, Shipping, ShipmentRow, ShipmentRepo, passes, rows_loop, shipment_ids, is_empty_ids,
  attach_rows, attach_shippings, is_own, hide_loop, NearbyShipments, search_nearby_shipments,
}

-- The vehicles of a row fit the filter.
abbrev Fits : List ℤ → ShipmentRow → Type 0
Fits want row = passes want row ≡ true

-- A row that may be shown: it fits the filter, and its shipment's active shipping is missing or the
-- user's own; only in the second case the navigation can be resumed.
abbrev pub IsShown : (ℤ → Option Shipping) → List ℤ → ℤ → ShipmentRow → Type 0
IsShown active want user_id row =
    Fits want row
    × IsAttached active row
    × (((row.shipping ≡ none) × (row.can_resume_navigation ≡ false))
        ⊎ ((shipping : Shipping) × (row.shipping ≡ some shipping)
            × (is_own user_id shipping ≡ true)
            × (row.can_resume_navigation ≡ true)))

rows_loop-Fits :
    (want : List ℤ) (types : ℤ → VehicleTypeInfo) (rows : List ShipmentRow)
    → All (Fits want) (rows_loop want types rows)
unfolding rows_loop
rows_loop-Fits want types [] = tt
rows_loop-Fits want types (row ∷ rows) = elim (Bool-cases (passes want row)) [
  | inl fits ↦ rw fits (fits, rows_loop-Fits want types rows)
  | inr other ↦ rw other (rows_loop-Fits want types rows)
]

attach_rows-Fits :
    (want : List ℤ) (by_shipment : ℤ → Option Shipping) (rows : List ShipmentRow)
    → All (Fits want) rows
    → All (Fits want) (attach_rows by_shipment rows)
unfolding attach_rows
attach_rows-Fits want by_shipment [] h = tt
attach_rows-Fits want by_shipment (row ∷ rows) (fits, rest) =
    (fits, attach_rows-Fits want by_shipment rows rest)

attach_shippings-Fits :
    (want : List ℤ) (load : Option (List ℤ → Option (ℤ → Option Shipping)))
    (rows : List ShipmentRow)
    → All (Fits want) rows
    → All (Fits want) (attach_shippings load rows)
unfolding attach_shippings
attach_shippings-Fits want none rows h = h
attach_shippings-Fits want (some load) rows h =
    if_cases (All (Fits want)) (is_empty_ids (shipment_ids (λ i. false) rows)) (λ _. h)
      λ some_ids. elim (Option-cases (load (shipment_ids (λ i. false) rows))) [
        | inl failed ↦ rw failed h
        | inr (by_shipment, loaded) ↦ rw loaded (attach_rows-Fits want by_shipment rows h)
      ]

hide_row-IsShown :
    (active : ℤ → Option Shipping) (want : List ℤ) (user_id : ℤ) (row : ShipmentRow)
    (rest : List ShipmentRow) (o : Option Shipping)
    → row.shipping ≡ o
    → Fits want row
    → IsAttached active row
    → All (IsShown active want user_id) rest
    → All (IsShown active want user_id) (elim o [
      | none ↦ record row { can_resume_navigation = false } ∷ rest
      | some shipping ↦
          if is_own user_id shipping
          then record row {
            can_resume_navigation = true;
            shipping_id = resume_id shipping row.shipping_id;
          }
            ∷ rest
          else rest
    ])
hide_row-IsShown active want user_id row rest none same fits attached h =
    ((fits, attached, inl (same, refl)), h)
hide_row-IsShown active want user_id row rest (some shipping) same fits attached h =
    if_cases (All (IsShown active want user_id)) (is_own user_id shipping)
      (λ own. ((fits, attached, inr (shipping, same, own, refl)), h)) (λ others. h)

hide_loop-IsShown :
    (active : ℤ → Option Shipping) (want : List ℤ) (user_id : ℤ) (rows : List ShipmentRow)
    → All (Fits want) rows
    → All (IsAttached active) rows
    → All (IsShown active want user_id) (hide_loop user_id rows)
unfolding hide_loop
hide_loop-IsShown active want user_id [] h k = tt
hide_loop-IsShown active want user_id (row ∷ rows) (fits, rest) (attached, others) =
    hide_row-IsShown active want user_id row _ row.shipping refl fits attached
      (hide_loop-IsShown active want user_id rows rest others)

-- Where the repository answers both queries, the second one with the active shipping of each id
-- that it is asked for, the search has an answer. Each shipment of it allows a vehicle type of the
-- filter, if one is given. A shipment with a positive id has no active shipping, or one of the user,
-- and that one is attached to it; the navigation can be resumed exactly for the user's own. The count
-- is that of the shipments.
pub search_nearby_shipments-IsFound :
    (f : Float) (repo : ShipmentRepo f) (default_radius : f.F) (default_limit : ℤ)
    (types : ℤ → VehicleTypeInfo) (lat lng radius_km : f.F) (limit : ℤ) (want : List ℤ)
    (user_id : ℤ) (active : ℤ → Option Shipping) (load : List ℤ → Option (ℤ → Option Shipping))
    → ((lat' lng' radius : f.F) (most user : ℤ)
        → repo.find_nearby lat' lng' radius most user ≢ none)
    → repo.shippings ≡ some load
    → ((ids : List ℤ) → Answers active ids (load ids))
    → (answer : NearbyShipments f) × (search_nearby_shipments f repo default_radius default_limit
          types lat lng radius_km limit want user_id
        ≡ some answer)
      × All (IsShown active want user_id) answer.shipments
      × (answer.count ≡ length answer.shipments)
unfolding search_nearby_shipments
search_nearby_shipments-IsFound f repo default_radius default_limit types lat lng radius_km limit
      want user_id active load up loads answers =
    let radius = effective_radius f default_radius radius_km in
    let most = effective_limit default_limit limit in
    elim (Option-cases (repo.find_nearby lat lng radius most user_id)) [
      | inl failed ↦ absurd (up lat lng radius most user_id failed)
      | inr (rows, found) ↦
          let attached = attach_shippings repo.shippings (rows_loop want types rows) in
          let shown = hide_loop user_id attached in
          (
            record { radius_km = radius; limit = most; count = length shown; shipments = shown },
            rw (found, search_nearby_shipments) refl,
            hide_loop-IsShown active want user_id _
                (attach_shippings-Fits want repo.shippings _ (rows_loop-Fits want types rows))
                (subst
                  (λ l. All (IsAttached active) (attach_shippings l (rows_loop want types rows)))
                  (sym loads)
                  (attach_shippings-IsAttached active load (rows_loop want types rows) answers)),
            refl,
          )
    ]
