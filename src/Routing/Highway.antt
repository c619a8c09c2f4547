-- ===== src/Routing/Highway.antt =====
-- internal/routing/highway.go: the compact encoding of the OSM highway tag and its classes.
use text.Mathlib.Text.{◌==◌ as str_eq}
use text.Mathlib.TextEquality.{eq_iff}
use geo.Base.{
  ℕ, ◌≡◌, refl, ◌⊎◌, inr, String, Bool, true, false, not, List, [], ◌∷◌, none, some, arith,
  if◌then◌else◌, get_elem?, All,
}

-- The constants HWUnknown to HWTransfer; `code` is their uint8 value.
pub data HighwayKind : Type 0 where
  unknown motorway motorway_link trunk trunk_link primary primary_link secondary secondary_link
        tertiary tertiary_link unclassified residential living_street service track footway
        pedestrian path steps corridor crossing sidewalk platform rail subway light_rail
        narrow_gauge tram bus_route transfer :
      HighwayKind

pub code : HighwayKind → ℕ
code unknown = 0
code motorway = 1
code motorway_link = 2
code trunk = 3
code trunk_link = 4
code primary = 5
code primary_link = 6
code secondary = 7
code secondary_link = 8
code tertiary = 9
code tertiary_link = 10
code unclassified = 11
code residential = 12
code living_street = 13
code service = 14
code track = 15
code footway = 16
code pedestrian = 17
code path = 18
code steps = 19
code corridor = 20
code crossing = 21
code sidewalk = 22
code platform = 23
code rail = 24
code subway = 25
code light_rail = 26
code narrow_gauge = 27
code tram = 28
code bus_route = 29
code transfer = 30

-- hwKindStr
abbrev kind_strings : List String
kind_strings =
    "" ∷ "motorway" ∷ "motorway_link" ∷ "trunk" ∷ "trunk_link" ∷ "primary" ∷ "primary_link"
    ∷ "secondary" ∷ "secondary_link" ∷ "tertiary" ∷ "tertiary_link" ∷ "unclassified" ∷ "residential"
    ∷ "living_street" ∷ "service" ∷ "track" ∷ "footway" ∷ "pedestrian" ∷ "path" ∷ "steps"
    ∷ "corridor" ∷ "crossing" ∷ "sidewalk" ∷ "platform" ∷ "rail" ∷ "subway" ∷ "light_rail"
    ∷ "narrow_gauge" ∷ "tram" ∷ "bus_route" ∷ "transfer" ∷ []

abbrev all_kinds : List HighwayKind
all_kinds =
    unknown ∷ motorway ∷ motorway_link ∷ trunk ∷ trunk_link ∷ primary ∷ primary_link ∷ secondary
    ∷ secondary_link ∷ tertiary ∷ tertiary_link ∷ unclassified ∷ residential ∷ living_street
    ∷ service ∷ track ∷ footway ∷ pedestrian ∷ path ∷ steps ∷ corridor ∷ crossing ∷ sidewalk
    ∷ platform ∷ rail ∷ subway ∷ light_rail ∷ narrow_gauge ∷ tram ∷ bus_route ∷ transfer ∷ []

-- String: an index past the table gives the empty string.
pub string : ℕ → String
string h = elim (get_elem? kind_strings h) [ none ↦ "" | some s ↦ s ]

-- parseHighwayKindMap, built by `init` from the entries that are not empty.
tag_entries : List String → List HighwayKind → List (String × HighwayKind)
tag_entries [] ks = []
tag_entries (s ∷ ss) [] = []
tag_entries (s ∷ ss) (k ∷ ks) =
    if str_eq s "" then tag_entries ss ks else (s, k) ∷ tag_entries ss ks

find_tag : String → List (String × HighwayKind) → HighwayKind
find_tag s [] = unknown
find_tag s ((t, k) ∷ m) = if str_eq s t then k else find_tag s m

-- ParseHighwayKind
pub parse_highway_kind : String → HighwayKind
unfolding tag_entries find_tag
parse_highway_kind s = find_tag s (tag_entries kind_strings all_kinds)

-- IsLink
pub is_link : HighwayKind → Bool
is_link motorway_link = true
is_link trunk_link = true
is_link primary_link = true
is_link secondary_link = true
is_link tertiary_link = true
is_link _ = false

-- IsPedestrian
pub is_pedestrian : HighwayKind → Bool
is_pedestrian footway = true
is_pedestrian pedestrian = true
is_pedestrian path = true
is_pedestrian steps = true
is_pedestrian corridor = true
is_pedestrian crossing = true
is_pedestrian sidewalk = true
is_pedestrian platform = true
is_pedestrian _ = false

-- BlocksWalking
pub blocks_walking : HighwayKind → Bool
blocks_walking motorway = true
blocks_walking motorway_link = true
blocks_walking trunk = true
blocks_walking trunk_link = true
blocks_walking _ = false

-- AllowsPedestriansAgainstFlow
pub allows_pedestrians_against_flow : HighwayKind → Bool
allows_pedestrians_against_flow h = not (is_pedestrian h)

-- Printing a kind and parsing the text gives the kind back, for every kind.
pub parse-string : (k : HighwayKind) → parse_highway_kind (string (code k)) ≡ k
unfolding parse_highway_kind string code
parse-string unknown = refl
parse-string motorway = refl
parse-string motorway_link = refl
parse-string trunk = refl
parse-string trunk_link = refl
parse-string primary = refl
parse-string primary_link = refl
parse-string secondary = refl
parse-string secondary_link = refl
parse-string tertiary = refl
parse-string tertiary_link = refl
parse-string unclassified = refl
parse-string residential = refl
parse-string living_street = refl
parse-string service = refl
parse-string track = refl
parse-string footway = refl
parse-string pedestrian = refl
parse-string path = refl
parse-string steps = refl
parse-string corridor = refl
parse-string crossing = refl
parse-string sidewalk = refl
parse-string platform = refl
parse-string rail = refl
parse-string subway = refl
parse-string light_rail = refl
parse-string narrow_gauge = refl
parse-string tram = refl
parse-string bus_route = refl
parse-string transfer = refl

find_tag_sound :
    (s : String) (m : List (String × HighwayKind))
    → All (λ e. string (code e.1) ≡ e.0) m
    → (string (code (find_tag s m)) ≡ s) ⊎ (find_tag s m ≡ unknown)
unfolding find_tag
find_tag_sound s [] h = inr refl
find_tag_sound s ((t, k) ∷ m) h = ground (arith, eq_iff s t, find_tag_sound s m h.1)

-- Parsing invents no kind: a text either is the tag of the kind that it parses to, or it parses
-- to `unknown`.
pub string-parse :
    (s : String) → (string (code (parse_highway_kind s)) ≡ s) ⊎ (parse_highway_kind s ≡ unknown)
unfolding parse_highway_kind string code
string-parse s = find_tag_sound s (tag_entries kind_strings all_kinds) (
  refl,
  (
    refl,
    (
      refl,
      (
        refl,
        (
          refl,
          (
            refl,
            (
              refl,
              (
                refl,
                (
                  refl,
                  (
                    refl,
                    (
                      refl,
                      (
                        refl,
                        (
                          refl,
                          (
                            refl,
                            (
                              refl,
                              (
                                refl,
                                (
                                  refl,
                                  (
                                    refl,
                                    (
                                      refl,
                                      (
                                        refl,
                                        (
                                          refl,
                                          (
                                            refl,
                                            (
                                              refl,
                                              (
                                                refl,
                                                (refl, (refl, (refl, (refl, (refl, (refl, tt)))))),
                                              ),
                                            ),
                                          ),
                                        ),
                                      ),
                                    ),
                                  ),
                                ),
                              ),
                            ),
                          ),
                        ),
                      ),
                    ),
                  ),
                ),
              ),
            ),
          ),
        ),
      ),
    ),
  ),
)
