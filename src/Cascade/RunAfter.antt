-- ===== src/Cascade/RunAfter.antt =====
-- GetRunAfterMapForTestGraphNodes: which of the given scenarios each node of the graph runs after.
use integration_service.Base.{
  ==_self, Bool-cases, List, Option, String, [], arith, contains, eq_of_==, if◌then◌else◌, inl, inr,
  none, some, subst, ◌&&◌, ◌==◌, ◌∷◌, ◌≡◌,
}
use integration_service.Base.Dict.{Dict, lookup}
use integration_service.Dag.{TestGraph, TestGraphNode}
use integration_service.NudgeConfig.{or_else}
use integration_service.Cascade.{has_parent}

-- The names of the parents that are among the scenarios.
abbrev pub names_among : List String → List TestGraphNode → List String
names_among scenarios [] = []
names_among scenarios (p ∷ parents) =
    let rest = names_among scenarios parents in
    if contains scenarios p.name then p.name ∷ rest else rest

abbrev run_after_from : List String → TestGraph → Dict (List String)
run_after_from scenarios [] = []
run_after_from scenarios ((node, parents) ∷ graph) =
    (node, if contains scenarios node then names_among scenarios parents else [])
    ∷ run_after_from scenarios graph

-- The scenarios may be nil.
unfoldable pub get_run_after_map_for_test_graph_nodes :
    TestGraph → Option (List String) → Dict (List String)
get_run_after_map_for_test_graph_nodes graph none = []
get_run_after_map_for_test_graph_nodes graph (some scenarios) = run_after_from scenarios graph

names_among-contains :
    (scenarios : List String) (parents : List TestGraphNode) (k : String)
    → contains (names_among scenarios parents) k ≡ (contains scenarios k && has_parent parents k)
unfolding has_parent
names_among-contains scenarios [] k = ground arith
names_among-contains scenarios (p ∷ parents) k = elim (Bool-cases (p.name == k)) [
  | inl e ↦
      subst
        (λ x.
          contains (names_among scenarios (p ∷ parents)) x
          ≡ (contains scenarios x && has_parent (p ∷ parents) x))
        (eq_of_== p.name k e)
        (ground (arith, ==_self p.name, names_among-contains scenarios parents p.name))
  | inr e ↦ ground (arith, e, names_among-contains scenarios parents k)
]

-- The list of a key, empty where it is missing.
abbrev pub list_at {ℓ} : {A : Type ℓ} → String → Dict (List A) → List A
list_at k m = or_else (lookup k m) []

-- A scenario is in the run-after list of a node exactly when both are among the given scenarios and
-- the scenario is a parent of the node in the graph.
pub get_run_after_map_for_test_graph_nodes-contains :
    (graph : TestGraph) (scenarios : List String) (node k : String)
    → contains (list_at node (get_run_after_map_for_test_graph_nodes graph (some scenarios))) k
      ≡ (contains scenarios node && (contains scenarios k && has_parent (list_at node graph) k))
unfolding get_run_after_map_for_test_graph_nodes has_parent
get_run_after_map_for_test_graph_nodes-contains [] scenarios node k = ground arith
get_run_after_map_for_test_graph_nodes-contains ((j, parents) ∷ graph) scenarios node k =
    elim (Bool-cases (j == node)) [
      | inr e ↦
          rw (e, list_at) (get_run_after_map_for_test_graph_nodes-contains graph scenarios node k)
      | inl e ↦
          rw (e, list_at)
            (subst
              (λ x.
                contains (if contains scenarios j then names_among scenarios parents else []) k
                ≡ (contains scenarios x && (contains scenarios k && has_parent parents k)))
              (eq_of_== j node e) (ground (arith, names_among-contains scenarios parents k)))
    ]
