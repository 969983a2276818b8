-- ===== src/Cascade.antt =====
-- pkg/dag/utils.go: what a test runs after, and the tests that fail because one of those has failed.
pub mod Reach
pub mod RunAfter
mod Tests
use Prim.Native.String.{◌++◌ as text_append}
use integration_service.Base.{
  Bool, List, String, [], contains, false, if◌then◌else◌, length, none, not, some, suc, zero, ℕ,
  ◌++◌, ◌+◌, ◌==◌, ◌||◌, ◌∷◌,
}
use integration_service.Base.Dict.{lookup}
use integration_service.Dag.{TestGraph, TestGraphNode}
use integration_service.TestStatus.{
  Statuses, get_scenario_status, is_final, test_fail, update_test_status_if_changed,
}

unfoldable pub has_parent : List TestGraphNode → String → Bool
has_parent [] parent_name = false
has_parent (p ∷ parents) parent_name = p.name == parent_name || has_parent parents parent_name

-- The failFast option of the first parent with the name.
abbrev pub fail_fast_of : String → List TestGraphNode → Bool
fail_fast_of parent_name [] = false
fail_fast_of parent_name (p ∷ parents) =
    if p.name == parent_name then p.fail_fast else fail_fast_of parent_name parents

unfoldable pub should_fail_fast_for_scenarios_parent : TestGraph → String → String → Bool
should_fail_fast_for_scenarios_parent graph scenario_name parent_name =
    elim (lookup scenario_name graph) [
      | some parents ↦ fail_fast_of parent_name parents
      | none ↦ false
    ]

-- The variables of CascadeFailFastDependents.
pub record Walk : Type 0 where
  pub statuses : Statuses
  pub queue : List String
  pub seen : List String

abbrev pub cancelled_message : String → String
cancelled_message parent =
    text_append "Cancelled on account of required " (text_append parent " failing")

-- Marks a child that is not final, and queues it if it is new.
unfoldable pub mark_child : ℕ → String → String → Walk → Walk
mark_child now parent child w = record {
  statuses =
      update_test_status_if_changed child test_fail (cancelled_message parent) now w.statuses;
  queue = if contains w.seen child then w.queue else w.queue ++ child ∷ [];
  seen = if contains w.seen child then w.seen else child ∷ w.seen;
}

-- One round of the inner loop.
unfoldable pub visit_child : TestGraph → ℕ → String → String → List TestGraphNode → Walk → Walk
unfolding mark_child
visit_child graph now parent child parents w =
    if not (has_parent parents parent)
    then w
    else if not (should_fail_fast_for_scenarios_parent graph child parent)
    then w
    else elim (get_scenario_status child w.statuses) [
      | none ↦ w
      | some d ↦ if is_final d.status then w else mark_child now parent child w
    ]

unfoldable pub visit_children : TestGraph → ℕ → String → TestGraph → Walk → Walk
unfolding visit_child
visit_children graph now parent [] w = w
visit_children graph now parent ((child, parents) ∷ rest) w =
    visit_children graph now parent rest (visit_child graph now parent child parents w)

-- The outer loop.
unfoldable pub drain : TestGraph → ℕ → ℕ → Walk → Walk
unfolding visit_children
drain graph now zero w = w
drain graph now (suc f) w = elim w.queue [
  | [] ↦ w
  | parent ∷ rest ↦
      drain graph now f (visit_children graph now parent graph (record w { queue = rest }))
]

abbrev pub first_walk : String → Statuses → Walk
first_walk failed s = record { statuses = s; queue = failed ∷ []; seen = failed ∷ [] }

unfoldable pub cascade_fail_fast_dependents : TestGraph → ℕ → String → Statuses → Statuses
unfolding drain
cascade_fail_fast_dependents graph now failed s =
    (drain graph now (length graph + 1) (first_walk failed s)).statuses
