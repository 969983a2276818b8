-- ===== src/Dag/Tests.antt =====
-- Runs on small graphs, and the theorems at concrete inputs.
use integration_service.Base.{List, String, [], none, refl, some, true, ◌↔◌, ◌∷◌, ◌≡◌}
use integration_service.Dag.{
  NudgeRelationship, TestGraph, TestGraphNode, find_cycle, test_adjacency, validate_nudge_graph,
  validate_test_graph,
}
use integration_service.Dag.Verdict.{Verdict, find_cycle-Verdict}
use integration_service.Dag.Validation.{
  HasNoCycle, has_declared_parent, nudges_to, validate_nudge_graph_iff, validate_test_graph_iff,
}

abbrev nudge : String → String → NudgeRelationship
nudge from to = record { from = from; to = to; mode = "immediate" }

abbrev ring : List NudgeRelationship
ring = nudge "b" "c" ∷ nudge "a" "b" ∷ nudge "c" "a" ∷ []

abbrev diamond : List NudgeRelationship
diamond = nudge "a" "b" ∷ nudge "a" "c" ∷ nudge "b" "d" ∷ nudge "c" "d" ∷ []

program : Unit {0}
unfolding validate_nudge_graph validate_test_graph find_cycle
program = tt

ring_rejected :
    validate_nudge_graph ring ≡ some "invalid NudgeGraph - cycle detected: a -> b -> c -> a"
unfolding program
ring_rejected = refl

diamond_accepted : validate_nudge_graph diamond ≡ none
unfolding program
diamond_accepted = refl

abbrev after : String → TestGraphNode
after name = record { name = name; fail_fast = true }

abbrev tests : TestGraph
tests = ("e2e", after "unit" ∷ after "lint" ∷ []) ∷ ("unit", after "lint" ∷ []) ∷ []

tests_accepted : validate_test_graph tests ("lint" ∷ []) ≡ none
unfolding program
tests_accepted = refl

self_rejected :
    validate_test_graph (("e2e", after "e2e" ∷ []) ∷ []) []
    ≡ some "invalid TestGraph - cycle detected: e2e -> e2e"
unfolding program
self_rejected = refl

find_cycle-Verdict_example : Verdict (test_adjacency tests) (find_cycle (test_adjacency tests))
find_cycle-Verdict_example = find_cycle-Verdict (test_adjacency tests)

validate_nudge_graph_iff_example : (validate_nudge_graph ring ≡ none) ↔ HasNoCycle (nudges_to ring)
validate_nudge_graph_iff_example = validate_nudge_graph_iff ring

validate_test_graph_iff_example :
    (validate_test_graph tests ("lint" ∷ []) ≡ none) ↔ HasNoCycle (has_declared_parent tests)
validate_test_graph_iff_example = validate_test_graph_iff tests ("lint" ∷ [])
