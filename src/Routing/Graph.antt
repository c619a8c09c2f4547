-- ===== src/Routing/Graph.antt =====
-- internal/routing/graph.go: the road network as an adjacency list, with its reverse adjacency,
-- the pool of street names and the access flags. The int64 ids of the data are not negative.
-- Go's maps are functions into `Option`; `ids` lists the keys of Nodes.
pub mod Names
pub mod Keys
use Prim.Native.Nat.{bit_and, bit_or}
use text.Mathlib.Text.{◌==◌ as str_eq}
use geo.Base.{
  ℕ, List, [], ◌∷◌, ◌++◌, Option, none, some, String, Bool, not, ◌&&◌, ◌==◌, if◌then◌else◌, length,
  get_elem?, set, ◌%◌, ◌^◌,
}
use geo.Base.Int.{ℤ, ◌==ℤ◌}
use geo.Base.Float.{Float}
use geo.Routing.Highway.{HighwayKind}

-- AccessFlags, a bitmask in a uint8, and Has.
pub has_flag : ℕ → ℕ → Bool
has_flag f flag = not (bit_and f flag == 0)

-- uint32(n)
unfoldable pub to_uint32 : ℕ → ℕ
to_uint32 n = n % 2 ^ 32

abbrev pub update {ℓ} : {A : Type ℓ} → (ℕ → A) → ℕ → A → ℕ → A
update m k v j = if k == j then v else m j

module _ (f : Float) where
  pub record Node : Type 0 where
    pub id : ℕ
    pub lat : f.F
    pub lng : f.F
    pub flags : ℕ

  pub record Edge : Type 0 where
    pub to : ℕ
    pub distance_km : f.F
    pub speed_kmh : f.F
    pub time_hours : f.F
    pub kind : HighwayKind
    pub flags : ℕ
    pub name_idx : ℕ

  pub record Graph : Type 0 where
    pub ids : List ℕ
    pub nodes : ℕ → Option Node
    pub edges : ℕ → List Edge
    pub rev_adj : Option (ℕ → List ℕ)
    pub grid : ℤ → ℤ → List Node
    pub name_pool : List String
    pub name_index : String → Option ℕ

  -- NewGraph
  unfoldable pub new_graph : Graph
  new_graph = record {
    ids = [];
    nodes = λ id. none;
    edges = λ id. [];
    rev_adj = some (λ id. []);
    grid = λ lat lng. [];
    name_pool = "" ∷ [];
    name_index = λ name. none;
  }

  -- InternName. The index is a uint32.
  pub intern_name : Graph → String → Graph × ℕ
  intern_name g name = if str_eq name "" then (g, 0) else elim (g.name_index name) [
    | some idx ↦ (g, idx)
    | none ↦
        let idx = to_uint32 (length g.name_pool) in
        (
          record g {
            name_pool = g.name_pool ++ name ∷ [];
            name_index = λ s. if str_eq name s then some idx else g.name_index s;
          },
          idx,
        )
  ]

  -- NameFor
  pub name_for : Graph → ℕ → String
  name_for g idx = elim (get_elem? g.name_pool idx) [ none ↦ "" | some name ↦ name ]

  -- SetEdgeName
  pub set_edge_name : Graph → ℕ → ℕ → String → Graph
  unfolding intern_name
  set_edge_name g from edge_idx name = elim (get_elem? (g.edges from) edge_idx) [
    | none ↦ g
    | some e ↦
        let (g', idx) = intern_name g name in
        record g' {
          edges = update g'.edges from (set (g'.edges from) edge_idx (record e { name_idx = idx }));
        }
  ]

  -- cellFor, with gridCellSizeDeg = 0.02.
  pub cell_for : f.F → f.F → ℤ × ℤ
  cell_for lat lng = (f.floor (f.div lat (f.lit 2 2)), f.floor (f.div lng (f.lit 2 2)))

  abbrev add_to_cell : (ℤ → ℤ → List Node) → ℤ → ℤ → Node → ℤ → ℤ → List Node
  add_to_cell grid a b n i j = if a ==ℤ i && b ==ℤ j then grid i j ++ n ∷ [] else grid i j

  -- AddNode. A node with an id that is there takes the place of the old one.
  pub add_node : Graph → Node → Graph
  add_node g n = record g {
    ids = elim (g.nodes n.id) [ none ↦ n.id ∷ g.ids | some old ↦ g.ids ];
    nodes = update g.nodes n.id (some n);
    grid = let (a, b) = cell_for n.lat n.lng in add_to_cell g.grid a b n;
  }

  -- n.Flags |= e.Flags, if the node is there
  pub mark : (ℕ → Option Node) → ℕ → ℕ → ℕ → Option Node
  mark nodes id flags = elim (nodes id) [
    | none ↦ nodes
    | some n ↦ update nodes id (some (record n { flags = bit_or n.flags flags }))
  ]

  -- AddEdge
  pub add_edge : Graph → ℕ → Edge → Graph
  unfolding mark
  add_edge g from e = record g {
    edges = update g.edges from (g.edges from ++ e ∷ []);
    nodes = mark (mark g.nodes from e.flags) e.to e.flags;
    rev_adj = elim g.rev_adj [
      | none ↦ none
      | some rev ↦ some (update rev e.to (rev e.to ++ from ∷ []))
    ];
  }
