-- ===== src/Dag.antt =====
-- pkg/dag/verify.go: the search for a cycle in the graphs of a ComponentGroup's tests and of a
-- NudgeConfig's nudges.
--
-- Depth-first search takes fuel: one more than the number of keys and neighbours is enough, since
-- each nested visit has one more text on the path and no text stands there twice.
-- A test graph is a map that is not nil (`maps.Clone` of a nil map would be nil).
mod Sorting
pub mod Walks
pub mod Trace
pub mod Visits
pub mod Scan
pub mod Verdict
pub mod Validation
mod Tests
unfoldable pub use Sorting.{sort_strings}
use mathlib.Core.Option
use Prim.Native.String.{◌++◌ as text_append}
use integration_service.Base.{
  Bool, List, Option, String, [], if◌then◌else◌, length, none, some, suc, zero, ℕ, ◌++◌, ◌==◌, ◌∷◌,
}
use integration_service.Base.Dict.{Dict, has_key, insert, keys, lookup}

pub data Color : Type 0 where
  white gray black : Color

pub record Search : Type 0 where
  pub color : String → Color
  pub parent : String → String

-- m[k] = v, for a map that is read with the zero value where a key is missing
abbrev pub assign {ℓ} : {V : Type ℓ} → String → V → (String → V) → String → V
assign k v f j = if k == j then v else f j

abbrev pub paint : String → Color → Search → Search
paint node c s = record s { color = assign node c s.color }

abbrev pub Graph : Type 0
Graph = Dict (List String)

-- adj[node], nil when it is missing
abbrev pub neighbors : Graph → String → List String
neighbors adj node = elim (lookup node adj) [ some l ↦ l | none ↦ [] ]

-- `exhausted` is out of fuel.
pub data Outcome : Type 0 where
  cycle : List String → Outcome
  clean : Search → Outcome
  exhausted : Outcome

abbrev pub and_then : Outcome → (Search → Outcome) → Outcome
and_then (clean s) f = f s
and_then (cycle c) f = cycle c
and_then exhausted f = exhausted

-- The loop of `traceCycle`.
pub trace_loop : ℕ → String → String → (String → String) → List String → Outcome
trace_loop zero cur to parent path = exhausted
trace_loop (suc f) cur to parent path =
    let rest = trace_loop f (parent cur) to parent (cur ∷ path) in
    if cur == to then cycle ((to ∷ path) ++ to ∷ []) else rest

pub trace_cycle : ℕ → String → String → (String → String) → Outcome
unfolding trace_loop
trace_cycle bound from to parent = trace_loop bound from to parent []

-- The loop over the neighbours of a node, for the visit that it makes.
pub scan : (String → Search → Outcome) → ℕ → String → List String → Search → Outcome
unfolding trace_cycle
scan visit bound node [] s = clean s
scan visit bound node (next ∷ rest) s = elim (s.color next) [
  | gray ↦ trace_cycle bound node next s.parent
  | white ↦
      and_then (visit next (record s { parent = assign next node s.parent }))
        (λ s'. scan visit bound node rest s')
  | black ↦ scan visit bound node rest s
]

pub dfs_visit : Graph → ℕ → ℕ → String → Search → Outcome
unfolding scan
dfs_visit adj bound zero node s = exhausted
dfs_visit adj bound (suc f) node s =
    and_then
      (scan (dfs_visit adj bound f) bound node (sort_strings (neighbors adj node))
        (paint node gray s))
      (λ s'. clean (paint node black s'))

-- The loop of `findCycleInAdjacencyList`.
pub search_from : Graph → ℕ → List String → Search → Outcome
unfolding dfs_visit
search_from adj bound [] s = clean s
search_from adj bound (node ∷ rest) s = elim (s.color node) [
  | white ↦ and_then (dfs_visit adj bound bound node s) (λ s'. search_from adj bound rest s')
  | _ ↦ search_from adj bound rest s
]

-- The texts of a graph: its keys and all neighbours.
abbrev pub texts : Graph → List String
texts [] = []
texts ((k, l) ∷ adj) = k ∷ (l ++ texts adj)

abbrev pub fresh_search : Search
fresh_search = record { color = λ k. white; parent = λ k. "" }

unfoldable pub find_cycle : Graph → Outcome
unfolding search_from sort_strings
find_cycle adj = search_from adj (suc (length (texts adj))) (sort_strings (keys adj)) fresh_search

-- strings.Join(path, " -> ")
unfoldable pub format_cycle_path : List String → String
format_cycle_path [] = ""
format_cycle_path (x ∷ []) = x
format_cycle_path (x ∷ y ∷ path) = text_append x (text_append " -> " (format_cycle_path (y ∷ path)))

-- An error, or `none` for nil. The code has no counterpart of a search that is exhausted.
unfoldable pub check_graph_for_cycles : Graph → Option String
unfolding find_cycle format_cycle_path
check_graph_for_cycles adj = elim (find_cycle adj) [
  | cycle path ↦ some (format_cycle_path path)
  | clean s ↦ none
  | exhausted ↦ some ""
]

pub record TestGraphNode : Type 0 where
  pub name : String
  pub fail_fast : Bool

abbrev pub TestGraph : Type 0
TestGraph = Dict (List TestGraphNode)

abbrev pub node_names : List TestGraphNode → List String
node_names [] = []
node_names (n ∷ nodes) = n.name ∷ node_names nodes

-- Every scenario has an entry in the copy of the graph.
unfoldable pub add_scenarios : List String → TestGraph → TestGraph
add_scenarios [] graph = graph
add_scenarios (scenario ∷ scenarios) graph =
    add_scenarios scenarios (if has_key scenario graph then graph else insert scenario [] graph)

-- A range over the map makes one entry from each, so the appends of one node follow one another.
unfoldable pub test_adjacency : TestGraph → Graph
test_adjacency [] = []
test_adjacency ((node, parents) ∷ graph) = (node, node_names parents) ∷ test_adjacency graph

unfoldable pub validate_test_graph : TestGraph → List String → Option String
unfolding check_graph_for_cycles add_scenarios test_adjacency
validate_test_graph graph scenarios =
    Option.map (λ path. text_append "invalid TestGraph - cycle detected: " path)
      (check_graph_for_cycles (test_adjacency (add_scenarios scenarios graph)))

pub record NudgeRelationship : Type 0 where
  pub from : String
  pub to : String
  pub mode : String

abbrev pub append_edge : String → String → Graph → Graph
append_edge from to adj = insert from (neighbors adj from ++ to ∷ []) adj

abbrev pub ensure_key : String → Graph → Graph
ensure_key node adj = if has_key node adj then adj else insert node [] adj

unfoldable pub nudge_adjacency : List NudgeRelationship → Graph → Graph
nudge_adjacency [] adj = adj
nudge_adjacency (n ∷ nudges) adj =
    nudge_adjacency nudges (ensure_key n.to (append_edge n.from n.to adj))

unfoldable pub validate_nudge_graph : List NudgeRelationship → Option String
unfolding check_graph_for_cycles nudge_adjacency
validate_nudge_graph [] = none
validate_nudge_graph (n ∷ nudges) =
    Option.map (λ path. text_append "invalid NudgeGraph - cycle detected: " path)
      (check_graph_for_cycles (nudge_adjacency (n ∷ nudges) []))
