-- ===== src/Cascade/Tests.antt =====
-- A graph of three tests, where one runs after another without fail-fast.
use integration_service.Base.{
  Bool, List, Option, String, [], contains, false, length, none, refl, some, true, ◌&&◌, ◌+◌, ◌∷◌,
  ◌≡◌,
}
use integration_service.Dag.{TestGraph, TestGraphNode}
use integration_service.TestStatus.{
  Status, Status-discrete, Statuses, get_scenario_status, is_final, pending, test_fail,
  update_test_status_if_changed,
}
use integration_service.Cascade.{
  cascade_fail_fast_dependents, drain, first_walk, has_parent, mark_child,
  should_fail_fast_for_scenarios_parent, visit_child, visit_children,
}
use integration_service.Cascade.Reach.{IsExplained, cascade_fail_fast_dependents-IsExplained}
use integration_service.Cascade.RunAfter.{
  get_run_after_map_for_test_graph_nodes, get_run_after_map_for_test_graph_nodes-contains, list_at,
}

abbrev after : String → Bool → List TestGraphNode
after name fail_fast = record { name = name; fail_fast = fail_fast } ∷ []

abbrev graph : TestGraph
graph =
    ("deep", after "smoke" true)
    ∷ ("deeper", after "deep" true)
    ∷ ("soft", after "smoke" false)
    ∷ []

abbrev fresh : Statuses
fresh = update_test_status_if_changed "deep" pending "" 1 (
    update_test_status_if_changed "deeper" pending "" 1
      (update_test_status_if_changed "soft" pending "" 1 (record { statuses = []; dirty = false })))

abbrev status_at : String → Statuses → Option Status
status_at k s = elim (get_scenario_status k s) [ some d ↦ some d.status | none ↦ none ]

cascade-statuses :
    (status_at "deep" (cascade_fail_fast_dependents graph 5 "smoke" fresh) ≡ some test_fail)
    × (status_at "deeper" (cascade_fail_fast_dependents graph 5 "smoke" fresh) ≡ some test_fail)
    × (status_at "soft" (cascade_fail_fast_dependents graph 5 "smoke" fresh) ≡ some pending)
unfolding cascade_fail_fast_dependents drain visit_children visit_child mark_child has_parent
    should_fail_fast_for_scenarios_parent get_scenario_status is_final update_test_status_if_changed
    Status-discrete
cascade-statuses = (refl, refl, refl)

cascade_fail_fast_dependents-IsExplained_example :
    ((drain graph 5 (length graph + 1) (first_walk "smoke" fresh)).queue ≡ [])
    × ((k : String)
        → IsExplained graph "smoke" fresh (cascade_fail_fast_dependents graph 5 "smoke" fresh) k)
cascade_fail_fast_dependents-IsExplained_example =
    cascade_fail_fast_dependents-IsExplained graph 5 "smoke" fresh

get_run_after_map_for_test_graph_nodes-contains_example :
    contains
      (list_at "deep" (get_run_after_map_for_test_graph_nodes graph (some ("deep" ∷ "smoke" ∷ []))))
      "smoke"
    ≡ (contains ("deep" ∷ "smoke" ∷ []) "deep"
        && (contains ("deep" ∷ "smoke" ∷ []) "smoke" && has_parent (list_at "deep" graph) "smoke"))
get_run_after_map_for_test_graph_nodes-contains_example =
    get_run_after_map_for_test_graph_nodes-contains graph ("deep" ∷ "smoke" ∷ []) "deep" "smoke"
