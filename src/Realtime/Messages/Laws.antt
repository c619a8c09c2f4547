-- ===== src/Realtime/Messages/Laws.antt =====
-- What a message must be for a search to start.
use text.Mathlib.Text.{◌==◌ as str_eq}
use mathlib.Core.Path.{subst}
use geo.Base.{
  Bool, true, false, not, Option, none, some, String, ◌≡◌, if_cases, Option-cases, inl, inr, sym,
  refl, ◌⊎◌,
}
use geo.Base.Int.{is_neg}
use geo.Base.Float.{Float}
use geo.Base.Result.{Result, ok, err}
use geo.Coords.{valid_coords}
use geo.Realtime.Messages.Refused.{FailsByData, subscribe_data_to_request-FailsByData}
use geo.Realtime.Messages.{
  NearbyShipmentRequest, SubscribeData, InboundMessage, ParseError, empty_message, invalid_json,
  requires_data, invalid_data, unsupported_role, invalid_coords, invalid_radius, invalid_limit,
  invalid_type, unsupported_message, Parsed, ping, subscribe, legacy, Texts, role_of,
  validate_nearby_request, validated, subscribe_data_to_request, try_legacy_nearby_request,
  legacy_or, parse_subscribe, parse_inbound,
}

true_lem : (b : Bool) → not b ≡ false → b ≡ true
true_lem true h = refl
true_lem false h = sym h

module _ {f : Float} (x : Texts f) where
  -- A request that the searches can rely on.
  pub record IsAccepted (req : NearbyShipmentRequest f) : Type 0 where
    pub coords : valid_coords f req.lat req.lng ≡ true
    pub radius : f.lt req.radius_km f.zero ≡ false
    pub limit : is_neg req.limit ≡ false
    pub role : (r : String) × (role_of x req.type ≡ some r)

  -- A request comes out only where it is accepted.
  abbrev IsSound : NearbyShipmentRequest f → Option ParseError → Type 0
  IsSound req none = IsAccepted req
  IsSound req (some e) = Unit

  validate_nearby_request-IsSound :
      (req : NearbyShipmentRequest f) → IsSound req (validate_nearby_request x req)
  unfolding validate_nearby_request
  validate_nearby_request-IsSound req =
      if_cases (IsSound req) (not (valid_coords f req.lat req.lng)) (λ _. tt)
        λ good.
          if_cases (IsSound req) (f.lt req.radius_km f.zero) (λ _. tt)
            λ radius.
              if_cases (IsSound req) (is_neg req.limit) (λ _. tt)
                λ limit. elim (Option-cases (role_of x req.type)) [
                  | inl unknown ↦ rw (unknown, validate_nearby_request) tt
                  | inr (r, known) ↦
                      rw (known, validate_nearby_request)
                        (record {
                          coords = true_lem (valid_coords f req.lat req.lng) good;
                          radius = radius;
                          limit = limit;
                          role = (r, known);
                        })
                ]

  -- The request that a client asks for with its data.
  abbrev pub AsksFor : SubscribeData f → NearbyShipmentRequest f → Type 0
  AsksFor sub req =
      (req.lat ≡ sub.lat)
      × (req.lng ≡ sub.lng)
      × (req.radius_km ≡ sub.radius_km)
      × (req.limit ≡ sub.limit)
      × (req.filter_vehicle_types ≡ sub.filter_vehicle_types)
      × (role_of x sub.role ≡ some req.type)

  abbrev Accepts : SubscribeData f → Result ParseError (NearbyShipmentRequest f) → Type 0
  Accepts sub (err e) = Unit
  Accepts sub (ok req) = IsAccepted req × AsksFor sub req

  validated-Accepts :
      (sub : SubscribeData f) (req : NearbyShipmentRequest f) (e : Option ParseError)
      → AsksFor sub req
      → IsSound req e
      → Accepts sub (validated x req e)
  validated-Accepts sub req none asks h = (h, asks)
  validated-Accepts sub req (some e) asks h = tt

  subscribe_data_to_request-Accepts :
      (sub : SubscribeData f) → Accepts sub (subscribe_data_to_request x sub)
  unfolding subscribe_data_to_request
  subscribe_data_to_request-Accepts sub = elim (Option-cases (role_of x sub.role)) [
    | inl unknown ↦ rw (unknown, subscribe_data_to_request) tt
    | inr (role, known) ↦
        rw (known, subscribe_data_to_request)
          (validated-Accepts sub _ _ (refl, refl, refl, refl, refl, known)
            (validate_nearby_request-IsSound _))
  ]

  -- The text is an envelope of this type.
  abbrev pub HasType : String → String → InboundMessage → Type 0
  HasType text type env =
      (x.envelope (x.trim text) ≡ some env) × (str_eq (x.upper (x.trim env.type)) type ≡ true)

  -- The text is no envelope, or one of neither type.
  abbrev pub IsNeither : String → Type 0
  IsNeither text =
      (x.envelope (x.trim text) ≡ none)
      ⊎ ((env : InboundMessage) × (x.envelope (x.trim text) ≡ some env)
          × (str_eq (x.upper (x.trim env.type)) "PING" ≡ false)
          × (str_eq (x.upper (x.trim env.type)) "SUBSCRIBE_LOCATION" ≡ false))

  abbrev pub IsSubscribe : String → InboundMessage → Type 0
  IsSubscribe text env =
      HasType text "SUBSCRIBE_LOCATION" env × (str_eq (x.upper (x.trim env.type)) "PING" ≡ false)

  -- The message that an accepted text must be, and what is wrong with a text that is refused.
  abbrev pub IsParsed : String → Bool → Result ParseError (Parsed f) → Type 0
  IsParsed text allow_legacy (ok ping) = (env : InboundMessage) × HasType text "PING" env
  IsParsed text allow_legacy (ok (subscribe payload req)) =
      IsAccepted req
      × ((env : InboundMessage) × (sub : SubscribeData f) × IsSubscribe text env
          × (payload ≡ env.payload)
          × (x.subscribe_data env.payload ≡ some sub)
          × AsksFor sub req)
  IsParsed text allow_legacy (ok (legacy req)) =
      IsAccepted req × (allow_legacy ≡ true) × (x.request (x.trim text) ≡ some req) × IsNeither text
  IsParsed text allow_legacy (err empty_message) = str_eq (x.trim text) "" ≡ true
  IsParsed text allow_legacy (err invalid_json) = x.envelope (x.trim text) ≡ none
  IsParsed text allow_legacy (err unsupported_message) = IsNeither text
  IsParsed text allow_legacy (err requires_data) =
      (env : InboundMessage) × IsSubscribe text env × (str_eq env.payload "" ≡ true)
  IsParsed text allow_legacy (err invalid_data) =
      (env : InboundMessage) × IsSubscribe text env × (x.subscribe_data env.payload ≡ none)
  IsParsed text allow_legacy (err e) =
      (env : InboundMessage) × (sub : SubscribeData f) × IsSubscribe text env
      × (x.subscribe_data env.payload ≡ some sub)
      × (subscribe_data_to_request x sub ≡ err e)

  abbrev IsLegacy : String → Option (NearbyShipmentRequest f) → Type 0
  IsLegacy raw none = Unit
  IsLegacy raw (some req) = IsAccepted req × (x.request raw ≡ some req)

  try_legacy_nearby_request-IsLegacy :
      (raw : String) → IsLegacy raw (try_legacy_nearby_request x raw)
  unfolding try_legacy_nearby_request
  try_legacy_nearby_request-IsLegacy raw = elim (Option-cases (x.request raw)) [
    | inl unread ↦ rw (unread, try_legacy_nearby_request) tt
    | inr (req, read) ↦ elim (Option-cases (validate_nearby_request x req)) [
      | inl fine ↦
          rw (read, try_legacy_nearby_request, fine)
            (subst (IsSound req) fine (validate_nearby_request-IsSound req), read)
      | inr (e', refused) ↦ rw (read, try_legacy_nearby_request, refused) tt
    ]
  ]

  allowed_lem :
      (text : String) (e : ParseError) (o : Option (NearbyShipmentRequest f))
      → IsNeither text
      → IsParsed text true (err e)
      → IsLegacy (x.trim text) o
      → IsParsed text true (elim o [ none ↦ err e | some req ↦ ok (legacy req) ])
  allowed_lem text e none other refused h = refused
  allowed_lem text e (some req) other refused (fine, read) = (fine, refl, read, other)

  refused_lem :
      (text : String) (allow_legacy : Bool) (e : ParseError)
      → IsParsed text true (err e)
      → IsParsed text allow_legacy (err e)
  refused_lem text true e h = h
  refused_lem text false empty_message h = h
  refused_lem text false invalid_json h = h
  refused_lem text false unsupported_message h = h
  refused_lem text false requires_data h = h
  refused_lem text false invalid_data h = h
  refused_lem text false unsupported_role h = h
  refused_lem text false invalid_coords h = h
  refused_lem text false invalid_radius h = h
  refused_lem text false invalid_limit h = h
  refused_lem text false invalid_type h = h

  legacy_or-IsParsed :
      (text : String) (allow_legacy : Bool) (e : ParseError)
      → IsNeither text
      → IsParsed text true (err e)
      → IsParsed text allow_legacy (legacy_or x allow_legacy (x.trim text) e)
  unfolding legacy_or
  legacy_or-IsParsed text false e other refused = refused_lem text false e refused
  legacy_or-IsParsed text true e other refused =
      allowed_lem text e (try_legacy_nearby_request x (x.trim text)) other refused
        (try_legacy_nearby_request-IsLegacy (x.trim text))

  answer_lem :
      (text : String) (allow_legacy : Bool) (env : InboundMessage) (sub : SubscribeData f)
      → IsSubscribe text env
      → x.subscribe_data env.payload ≡ some sub
      → (r : Result ParseError (NearbyShipmentRequest f)) → subscribe_data_to_request x sub ≡ r
      → Accepts sub r
      → FailsByData x r
      → IsParsed text allow_legacy
          (elim r [ err e ↦ err e | ok req ↦ ok (subscribe env.payload req) ])
  answer_lem text allow_legacy env sub is read (ok req) same (fine, asks) k =
      (fine, (env, sub, is, refl, read, asks))
  answer_lem text allow_legacy env sub is read (err unsupported_role) same h k =
      (env, sub, is, read, same)
  answer_lem text allow_legacy env sub is read (err invalid_coords) same h k =
      (env, sub, is, read, same)
  answer_lem text allow_legacy env sub is read (err invalid_radius) same h k =
      (env, sub, is, read, same)
  answer_lem text allow_legacy env sub is read (err invalid_limit) same h k =
      (env, sub, is, read, same)
  answer_lem text allow_legacy env sub is read (err invalid_type) same h k =
      (env, sub, is, read, same)
  answer_lem text allow_legacy env sub is read (err empty_message) same h k = absurd k
  answer_lem text allow_legacy env sub is read (err invalid_json) same h k = absurd k
  answer_lem text allow_legacy env sub is read (err requires_data) same h k = absurd k
  answer_lem text allow_legacy env sub is read (err invalid_data) same h k = absurd k
  answer_lem text allow_legacy env sub is read (err unsupported_message) same h k = absurd k

  parse_subscribe-IsParsed :
      (text : String) (allow_legacy : Bool) (env : InboundMessage)
      → IsSubscribe text env
      → IsParsed text allow_legacy (parse_subscribe x env.payload)
  unfolding parse_subscribe
  parse_subscribe-IsParsed text allow_legacy env is =
      if_cases (IsParsed text allow_legacy) (str_eq env.payload "") (λ empty. (env, is, empty))
        λ given. elim (Option-cases (x.subscribe_data env.payload)) [
          | inl unread ↦ rw (unread, parse_subscribe) (env, is, unread)
          | inr (sub, read) ↦
              rw (read, parse_subscribe)
                (answer_lem text allow_legacy env sub is read (subscribe_data_to_request x sub) refl
                  (subscribe_data_to_request-Accepts sub)
                  (subscribe_data_to_request-FailsByData x sub))
        ]

  -- A text is a ping or a subscription by the type of its envelope, in capitals and without the
  -- space around it, and else at most a legacy request, where those are allowed. A search starts
  -- only from a request with legal coordinates, no negative radius or limit and a role that is known;
  -- it is the one that the data of the text's own envelope ask for, or the legacy request that the
  -- text is. Each error is one that the text has: it is empty, it is no envelope, it is of neither
  -- type, its subscription has no data or data that cannot be read, or is refused for its data.
  pub parse_inbound-IsParsed :
      (text : String) (allow_legacy : Bool)
      → IsParsed text allow_legacy (parse_inbound x text allow_legacy)
  unfolding parse_inbound
  parse_inbound-IsParsed text allow_legacy =
      if_cases (IsParsed text allow_legacy) (str_eq (x.trim text) "") (λ empty. empty)
        λ given. elim (Option-cases (x.envelope (x.trim text))) [
          | inl unread ↦
              rw (unread, parse_inbound)
                (legacy_or-IsParsed text allow_legacy _ (inl unread) unread)
          | inr (env, read) ↦
              rw (read, parse_inbound)
                (if_cases (IsParsed text allow_legacy) (str_eq (x.upper (x.trim env.type)) "PING")
                  (λ is_ping. (env, (read, is_ping)))
                  λ no_ping.
                    if_cases (IsParsed text allow_legacy)
                      (str_eq (x.upper (x.trim env.type)) "SUBSCRIBE_LOCATION")
                      (λ is. parse_subscribe-IsParsed text allow_legacy env ((read, is), no_ping))
                      (λ other.
                        legacy_or-IsParsed text allow_legacy _ (inr (env, read, no_ping, other))
                          (inr (env, read, no_ping, other))))
        ]
