-- ===== src/TestStatus/Ops.antt =====
-- The operations of integration_test_status.go as data, to speak of any sequence of calls.
use integration_service.Base.{ℕ, String, Bool, Option, none, some, List, [], ◌∷◌}
use integration_service.Base.Dict.{Dict}
use integration_service.TestStatus.{
  Status, Statuses, Scenario, update_test_status_if_changed, set_test_detail_optional,
  set_test_detail_run_after_list, update_test_pipeline_run_name, reset_status, delete_status,
  init_statuses, reset_dirty,
}

pub data Op : Type 0 where
  update : String → Status → String → Op
  set_optional : String → Bool → Op
  set_run_after : String → List String → Op
  set_pipeline_run_name : String → String → Op
  reset : String → Bool → Op
  delete : String → Op
  init : List Scenario → Dict (List String) → Op
  clear_dirty : Op

-- An error leaves the statuses as they are.
abbrev pub or_same : Statuses → Option Statuses → Statuses
or_same s none = s
or_same s (some s') = s'

unfoldable pub apply : Op → ℕ → Statuses → Statuses
apply (update name status details) now s = update_test_status_if_changed name status details now s
apply (set_optional name optional) now s = set_test_detail_optional name optional s
apply (set_run_after name run_after) now s = set_test_detail_run_after_list name run_after s
apply (set_pipeline_run_name name run) now s = or_same s (update_test_pipeline_run_name name run s)
apply (reset name optional) now s = or_same s (reset_status name optional now s)
apply (delete name) now s = delete_status name s
apply (init scenarios run_after_map) now s = init_statuses scenarios run_after_map now s
apply clear_dirty now s = reset_dirty s

-- Calls in turn, each with the time that it reads.
unfoldable pub run : List (Op × ℕ) → Statuses → Statuses
run [] s = s
run ((op, now) ∷ rest) s = run rest (apply op now s)
