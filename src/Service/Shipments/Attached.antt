-- ===== src/Service/Shipments/Attached.antt =====
-- attachShippings of internal/service/shipment.go: which shipping a shipment is given.
use geo.Base.{
  List, [], ◌∷◌, true, false, Bool, Option, none, some, ◌≡◌, All, Bool-cases, if_cases, inl,
  Option-cases, In, sym, inr, if◌then◌else◌, refl, Bool,
}
use mathlib.Core.Path.{subst}
use geo.Base.Int.{ℤ, is_pos, ◌==ℤ◌, ==ℤ_iff}
use geo.Service.Shipments.{
  Shipping, ShipmentRow, shipment_ids, is_empty_ids, attach_rows, attach_shippings,
}

abbrev pub When : Bool → Type 0 → Type 0
When true A = A
When false A = Unit

when : {A : Type 0} (b : Bool) → A → When b A
when true a = a
when false a = tt

when_not : (A : Type 0) (b : Bool) → b ≡ false → When b A
when_not A true h = absurd cc
when_not A false h = tt

-- What is said of the id of a row, where that is a positive number.
abbrev pub OfId : (ℤ → Type 0) → Option ℤ → Type 0
OfId P none = Unit
OfId P (some id) = When (is_pos id) (P id)

-- The shipping of a row is the one that is active for its shipment.
abbrev pub IsAttached : (ℤ → Option Shipping) → ShipmentRow → Type 0
IsAttached active row = OfId (λ id. row.shipping ≡ active id) row.id

-- What the repository gives for a list of ids: the active shippings of these.
abbrev pub Answers : (ℤ → Option Shipping) → List ℤ → Option (ℤ → Option Shipping) → Type 0
Answers active ids none = ⊥
Answers active ids (some by_shipment) = (id : ℤ) → In id ids → by_shipment id ≡ active id

-- What is true of every id that is asked for, or was, is true of the ids of all rows.
shipment_ids-OfId :
    (P : ℤ → Type 0) (seen : ℤ → Bool) (rows : List ShipmentRow)
    → ((id : ℤ) → seen id ≡ true → P id)
    → ((id : ℤ) → In id (shipment_ids seen rows) → P id)
    → All (λ row. OfId P row.id) rows
unfolding shipment_ids
shipment_ids-OfId P seen [] before asked = tt
shipment_ids-OfId P seen (row ∷ rows) before asked = elim (Option-cases row.id) [
  | inl missing ↦ (
    rw missing tt,
    shipment_ids-OfId P seen rows before (λ id there. asked id (rw missing there)),
  )
  | inr (id, here) ↦ elim (Bool-cases (is_pos id)) [
    | inr other ↦ (
      rw here (when_not _ (is_pos id) other),
      shipment_ids-OfId P seen rows before (λ i there. asked i (rw (here, other) there)),
    )
    | inl positive ↦ elim (Bool-cases (seen id)) [
      | inl again ↦ (
        rw here (when (is_pos id) (before id again)),
        shipment_ids-OfId P seen rows before
            (λ i there. asked i (rw (here, positive, again) there)),
      )
      | inr new ↦
          let known : P id = asked id (rw (here, positive, new) (inl refl)) in
          (
            rw here (when (is_pos id) known),
            shipment_ids-OfId P (λ i. if i ==ℤ id then true else seen i) rows
                (λ i.
                  if_cases (λ b. b ≡ true → P i) (i ==ℤ id)
                    (λ same _. subst P (sym ((==ℤ_iff i id).0 same)) known) (λ _. before i))
                (λ i there. asked i (rw (here, positive, new) (inr there))),
          )
    ]
  ]
]

attach_row-IsAttached :
    (by_shipment active : ℤ → Option Shipping) (o : Option ℤ)
    → OfId (λ id. by_shipment id ≡ active id) o
    → OfId (λ id. (elim o [ none ↦ none | some id ↦ by_shipment id ]) ≡ active id) o
attach_row-IsAttached by_shipment active none h = tt
attach_row-IsAttached by_shipment active (some id) h = h

attach_rows-IsAttached :
    (by_shipment active : ℤ → Option Shipping) (rows : List ShipmentRow)
    → All (λ row. OfId (λ id. by_shipment id ≡ active id) row.id) rows
    → All (IsAttached active) (attach_rows by_shipment rows)
unfolding attach_rows
attach_rows-IsAttached by_shipment active [] h = tt
attach_rows-IsAttached by_shipment active (row ∷ rows) (here, rest) = (
  attach_row-IsAttached by_shipment active row.id here,
  attach_rows-IsAttached by_shipment active rows rest,
)

When-absurd : (A : Type 0) (b : Bool) → When b ⊥ → When b A
When-absurd A true h = absurd h
When-absurd A false h = tt

OfId-absurd : (P : ℤ → Type 0) (o : Option ℤ) → OfId (λ id. ⊥) o → OfId P o
OfId-absurd P none h = tt
OfId-absurd P (some id) h = When-absurd (P id) (is_pos id) h

without_ids :
    (active : ℤ → Option Shipping) (rows : List ShipmentRow)
    → All (λ row. OfId (λ id. ⊥) row.id) rows
    → All (IsAttached active) rows
without_ids active [] h = tt
without_ids active (row ∷ rows) (here, rest) =
    (OfId-absurd _ row.id here, without_ids active rows rest)

loaded-IsAttached :
    (active : ℤ → Option Shipping) (rows : List ShipmentRow) (ids : List ℤ)
    (o : Option (ℤ → Option Shipping))
    → shipment_ids (λ i. false) rows ≡ ids
    → Answers active ids o
    → All
        (IsAttached active)
        (elim o [ none ↦ rows | some by_shipment ↦ attach_rows by_shipment rows ])
loaded-IsAttached active rows ids none asked h = absurd h
loaded-IsAttached active rows ids (some by_shipment) asked h =
    attach_rows-IsAttached by_shipment active rows (
      shipment_ids-OfId (λ id. by_shipment id ≡ active id) (λ i. false) rows (λ id h. absurd cc)
        (λ id there. h id (subst (In id) asked there)))

pub attach_shippings-IsAttached :
    (active : ℤ → Option Shipping) (load : List ℤ → Option (ℤ → Option Shipping))
    (rows : List ShipmentRow)
    → ((ids : List ℤ) → Answers active ids (load ids))
    → All (IsAttached active) (attach_shippings (some load) rows)
unfolding attach_shippings
attach_shippings-IsAttached active load rows answers = on (shipment_ids (λ i. false) rows) refl
  where
    on :
        (ids : List ℤ)
        → shipment_ids (λ i. false) rows ≡ ids
        → All (IsAttached active) (
            if is_empty_ids ids
            then rows
            else elim (load ids) [ none ↦ rows | some by_shipment ↦ attach_rows by_shipment rows ])
    on [] asked = without_ids active rows (
        shipment_ids-OfId (λ id. ⊥) (λ i. false) rows (λ id h. absurd cc)
          (λ id there. subst (In id) asked there))
    on (i ∷ ids) asked =
        loaded-IsAttached active rows (i ∷ ids) (load (i ∷ ids)) asked (answers (i ∷ ids))
