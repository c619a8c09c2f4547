-- ===== src/Service/Ids.antt =====
-- internal/service: the loops that collect ids once each, behind a map `seen`. dedupeInt64s keeps
-- every id; the lookups of drivers and shipments skip an id that is not positive.
use mathlib.Core.Bool.{false≢true}
use mathlib.Core.List.{append-nil, append_assoc}
use geo.Base.Int.{ℤ, ◌==ℤ◌, ==ℤ_iff, is_pos}
use geo.Base.{
  Distinct, List, Bool, false, if◌then◌else◌, true, [], ◌∷◌, In, not, ◌≡◌, ◌++◌, sym, ◌↔◌,
  Bool-cases, inr, inl, ◌∙◌, ap, refl,
}

abbrev pub IdSet : Type 0
IdSet = ℤ → Bool

abbrev pub no_ids : IdSet
no_ids id = false

abbrev pub insert_id : ℤ → IdSet → IdSet
insert_id id s j = if id ==ℤ j then true else s j

-- `for _, id := range ids { if !keep {continue}; if seen[id] {continue}; … append }`
unfoldable pub collect_loop : (ℤ → Bool) → IdSet → List ℤ → List ℤ → List ℤ
collect_loop keep seen out [] = out
collect_loop keep seen out (id ∷ ids) =
    let skipped = collect_loop keep seen out ids in
    let taken = collect_loop keep (insert_id id seen) (out ++ id ∷ []) ids in
    if not (keep id) then skipped else if seen id then skipped else taken

-- dedupeInt64s
unfoldable pub dedupe_int64s : List ℤ → List ℤ
unfolding collect_loop
dedupe_int64s ids = collect_loop (λ id. true) no_ids [] ids

-- The ids greater than zero, once each.
pub positive_ids : List ℤ → List ℤ
unfolding collect_loop
positive_ids ids = collect_loop is_pos no_ids [] ids

-- What the loop adds to `out`.
fresh_ids : (ℤ → Bool) → IdSet → List ℤ → List ℤ
fresh_ids keep seen [] = []
fresh_ids keep seen (id ∷ ids) =
    let skipped = fresh_ids keep seen ids in
    let taken = id ∷ fresh_ids keep (insert_id id seen) ids in
    if not (keep id) then skipped else if seen id then skipped else taken

collect_loop-fresh_ids :
    (keep : ℤ → Bool) (seen : IdSet) (out ids : List ℤ)
    → collect_loop keep seen out ids ≡ out ++ fresh_ids keep seen ids
unfolding collect_loop fresh_ids
collect_loop-fresh_ids keep seen out [] = sym (append-nil out)
collect_loop-fresh_ids keep seen out (id ∷ ids) = elim (Bool-cases (keep id)) [
  | inr dropped ↦ rw dropped (collect_loop-fresh_ids keep seen out ids)
  | inl wanted ↦ elim (Bool-cases (seen id)) [
    | inl again ↦ rw (wanted, again) (collect_loop-fresh_ids keep seen out ids)
    | inr new ↦
        rw (wanted, new)
          (collect_loop-fresh_ids keep (insert_id id seen) (out ++ id ∷ []) ids
            ∙ append_assoc out (id ∷ []) (fresh_ids keep (insert_id id seen) ids))
  ]
]

-- An id is added exactly if it is in the list, is to be kept and has not been seen.
fresh_ids-In :
    (keep : ℤ → Bool) (seen : IdSet) (ids : List ℤ) (x : ℤ)
    → In x (fresh_ids keep seen ids) ↔ (In x ids × (keep x ≡ true) × (seen x ≡ false))
unfolding fresh_ids
fresh_ids-In keep seen [] x = ((λ h. absurd h), λ h. absurd h.0)
fresh_ids-In keep seen (id ∷ ids) x = elim (Bool-cases (keep id)) [
  | inr dropped ↦ rw dropped (
    (λ h. let r = (fresh_ids-In keep seen ids x).0 h in (inr r.0, r.1, r.2)),
    λ h. elim h.0 [
      | inl e ↦ cc (ap keep e, h.1)
      | inr m ↦ (fresh_ids-In keep seen ids x).1 (m, h.1, h.2)
    ],
  )
  | inl wanted ↦ elim (Bool-cases (seen id)) [
    | inl again ↦
        rw (wanted, again)
          (
            (λ h. let r = (fresh_ids-In keep seen ids x).0 h in (inr r.0, r.1, r.2)),
            λ h. elim h.0 [
              | inl e ↦ cc (ap seen e, h.2)
              | inr m ↦ (fresh_ids-In keep seen ids x).1 (m, h.1, h.2)
            ],
          )
    | inr new ↦
        rw (wanted, new)
          (
            (λ h. elim h [
              | inl e ↦ (inl e, sym (ap keep e) ∙ wanted, sym (ap seen e) ∙ new)
              | inr m ↦
                  let r = (fresh_ids-In keep (insert_id id seen) ids x).0 m in
                  (inr r.0, r.1, unseen r.2)
            ]),
            λ h. elim (Bool-cases (id ==ℤ x)) [
              | inl same ↦ inl ((==ℤ_iff id x).0 same)
              | inr other ↦ elim h.0 [
                | inl e ↦ inl e
                | inr m ↦
                    inr ((fresh_ids-In keep (insert_id id seen) ids x).1 (m, h.1, rw other h.2))
              ]
            ],
          )
  ]
]
  where
    unseen : (if id ==ℤ x then true else seen x) ≡ false → seen x ≡ false
    unseen h = elim (Bool-cases (id ==ℤ x)) [
      | inl same ↦ absurd (false≢true (sym (rw same at h)))
      | inr other ↦ rw other at h
    ]

fresh_ids-Distinct :
    (keep : ℤ → Bool) (seen : IdSet) (ids : List ℤ) → Distinct (fresh_ids keep seen ids)
unfolding fresh_ids
fresh_ids-Distinct keep seen [] = tt
fresh_ids-Distinct keep seen (id ∷ ids) = elim (Bool-cases (keep id)) [
  | inr dropped ↦ rw dropped (fresh_ids-Distinct keep seen ids)
  | inl wanted ↦ elim (Bool-cases (seen id)) [
    | inl again ↦ rw (wanted, again) (fresh_ids-Distinct keep seen ids)
    | inr new ↦
        rw (wanted, new)
          (
            (λ h.
                let unseen = ((fresh_ids-In keep (insert_id id seen) ids id).0 h).2 in
                absurd (false≢true (sym (rw ((==ℤ_iff id id).1 refl) at unseen)))),
            fresh_ids-Distinct keep (insert_id id seen) ids,
          )
  ]
]

-- The ids that are looked up: each id of the list that is greater than zero, and no other, once.
pub positive_ids_lem :
    (ids : List ℤ)
    → Distinct (positive_ids ids)
      × ((x : ℤ) → In x (positive_ids ids) ↔ (In x ids × (is_pos x ≡ true)))
unfolding positive_ids
positive_ids_lem ids = rw (collect_loop-fresh_ids is_pos no_ids [] ids) (
  fresh_ids-Distinct is_pos no_ids ids,
  λ x. (
    (λ h. let r = (fresh_ids-In is_pos no_ids ids x).0 h in (r.0, r.1)),
    λ h. (fresh_ids-In is_pos no_ids ids x).1 (h.0, h.1, refl),
  ),
)

-- Duplicates go, and nothing else does.
pub dedupe_int64s_lem :
    (ids : List ℤ) → Distinct (dedupe_int64s ids) × ((x : ℤ) → In x (dedupe_int64s ids) ↔ In x ids)
unfolding dedupe_int64s
dedupe_int64s_lem ids = rw (collect_loop-fresh_ids (λ id. true) no_ids [] ids) (
  fresh_ids-Distinct (λ id. true) no_ids ids,
  λ x. (
    (λ h. ((fresh_ids-In (λ id. true) no_ids ids x).0 h).0),
    λ h. (fresh_ids-In (λ id. true) no_ids ids x).1 (h, refl, refl),
  ),
)
