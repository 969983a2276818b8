-- ===== src/TestStatus/Entries.antt =====
-- integration_test_status.go: the details, and the operations on one scenario.
use integration_service.Base.{
  ite, bool_eq, ℕ, String, Bool, true, false, ◌&&◌, Option, none, some, List, [], ◌∷◌, ◌==◌,
  if◌then◌else◌,
}
use integration_service.Base.Dict.{Dict, lookup, insert, remove, has_key}

-- `undefined` is the value -1 of a detail that has just been made.
pub data Status : Type 0 where
  pending in_progress deleted environment_provision_error deployment_error : Status
  test_fail test_passed test_invalid test_warning build_plr_in_progress : Status
  snapshot_creation_failed build_plr_failed group_snapshot_creation_failed undefined : Status

unfoldable pub Status-discrete : Discrete Status
Status-discrete = hlevel

pub record Detail : Type 0 where
  pub scenario_name : String
  pub status : Status
  pub last_update_time : ℕ
  pub details : String
  pub start_time : Option ℕ
  pub completion_time : Option ℕ
  pub test_pipeline_run_name : String
  pub is_optional_scenario : Bool
  pub run_after : List String

pub record Statuses : Type 0 where
  pub statuses : Dict Detail
  pub dirty : Bool

unfoldable pub is_final : Status → Bool
is_final deleted = true
is_final deployment_error = true
is_final environment_provision_error = true
is_final test_fail = true
is_final test_passed = true
is_final test_invalid = true
is_final test_warning = true
is_final _ = false

unfoldable pub is_passed : Status → Bool
is_passed test_passed = true
is_passed test_warning = true
is_passed _ = false

-- The `switch` on a status that has changed.
abbrev pub set_times : Status → ℕ → Detail → Detail
set_times in_progress now d = record d { start_time = some now; completion_time = none }
set_times pending now d = record d { start_time = none; completion_time = none }
set_times build_plr_in_progress now d = record d { start_time = none; completion_time = none }
set_times undefined now d = d
set_times _ now d = record d { completion_time = some now }

-- The detail with whether it was changed.
abbrev pub Marked : Type 0
Marked = Detail × Bool

unfoldable pub change_status : Status → ℕ → Marked → Marked
change_status status now (d, dirty) =
    ite (Status-discrete d.status status) (d, dirty)
      (set_times status now (record d { status = status; last_update_time = now }), true)

unfoldable pub change_details : String → ℕ → Marked → Marked
change_details details now (d, dirty) =
    if d.details == details
    then (d, dirty)
    else (record d { details = details; last_update_time = now }, true)

unfoldable pub fresh_detail : String → String → ℕ → Detail
fresh_detail name details now = record {
  scenario_name = name;
  status = undefined;
  last_update_time = now;
  details = details;
  start_time = none;
  completion_time = none;
  test_pipeline_run_name = "";
  is_optional_scenario = false;
  run_after = [];
}

-- The entry that an update begins with: the one that is there, or a fresh one.
unfoldable pub begin_update : String → String → ℕ → Statuses → Marked
begin_update name details now s = elim (lookup name s.statuses) [
  | some d ↦ (d, s.dirty)
  | none ↦ (fresh_detail name details now, true)
]

unfoldable pub write_back : String → Marked → Statuses → Statuses
write_back name (d, dirty) s = record { statuses = insert name d s.statuses; dirty = dirty }

-- The entry as an update leaves it.
unfoldable pub updated_entry : String → Status → String → ℕ → Statuses → Marked
unfolding begin_update change_status change_details fresh_detail
updated_entry name status details now s =
    change_details details now (change_status status now (begin_update name details now s))

unfoldable pub update_test_status_if_changed : String → Status → String → ℕ → Statuses → Statuses
unfolding updated_entry write_back
update_test_status_if_changed name status details now s =
    write_back name (updated_entry name status details now s) s

unfoldable pub is_dirty : Statuses → Bool
is_dirty s = s.dirty

unfoldable pub reset_dirty : Statuses → Statuses
reset_dirty s = record s { dirty = false }

-- What becomes of the entry at a name, if there is one.
abbrev pub alter : String → (Marked → Marked) → Statuses → Statuses
alter name f s = elim (lookup name s.statuses) [
  | some d ↦ write_back name (f (d, s.dirty)) s
  | none ↦ s
]

unfoldable pub put_optional : Bool → Marked → Marked
put_optional optional (d, dirty) =
    if bool_eq d.is_optional_scenario optional
    then (d, dirty)
    else (record d { is_optional_scenario = optional }, true)

unfoldable pub set_test_detail_optional : String → Bool → Statuses → Statuses
unfolding put_optional write_back
set_test_detail_optional name optional = alter name (put_optional optional)

-- `slices.Equal` at texts
unfoldable pub texts_equal : List String → List String → Bool
texts_equal [] [] = true
texts_equal (x ∷ xs) (y ∷ ys) = x == y && texts_equal xs ys
texts_equal _ _ = false

-- A nil slice is the empty list, so the case of two empty slices is one of `slices.Equal`.
unfoldable pub run_after_equal : List String → List String → Bool
unfolding texts_equal
run_after_equal existing updated = texts_equal existing updated

unfoldable pub put_run_after : List String → Marked → Marked
put_run_after run_after (d, dirty) =
    if run_after_equal d.run_after run_after
    then (d, dirty)
    else (record d { run_after = run_after }, true)

unfoldable pub set_test_detail_run_after_list : String → List String → Statuses → Statuses
unfolding put_run_after run_after_equal write_back
set_test_detail_run_after_list name run_after = alter name (put_run_after run_after)

-- The pointer that it returns is read here; writes through it are those of the callers.
unfoldable pub get_scenario_status : String → Statuses → Option Detail
get_scenario_status name s = lookup name s.statuses

unfoldable pub put_pipeline_run_name : String → Marked → Marked
put_pipeline_run_name pipeline_run_name (d, dirty) =
    if d.test_pipeline_run_name == pipeline_run_name
    then (d, dirty)
    else (record d { test_pipeline_run_name = pipeline_run_name }, true)

-- `none` is the error of a scenario that is not there.
unfoldable pub update_test_pipeline_run_name : String → String → Statuses → Option Statuses
unfolding put_pipeline_run_name get_scenario_status write_back
update_test_pipeline_run_name name pipeline_run_name s = elim (get_scenario_status name s) [
  | some d ↦ some (write_back name (put_pipeline_run_name pipeline_run_name (d, s.dirty)) s)
  | none ↦ none
]

-- `none` is the fault of writing through a nil pointer.
unfoldable pub reset_status : String → Bool → ℕ → Statuses → Option Statuses
unfolding update_test_status_if_changed write_back
reset_status name optional now s =
    let s' = update_test_status_if_changed name pending "Pending" now s in
    elim (lookup name s'.statuses) [
      | some d ↦ some (
          write_back name
            (record d { test_pipeline_run_name = ""; is_optional_scenario = optional }, true) s')
      | none ↦ none
    ]

unfoldable pub delete_status : String → Statuses → Statuses
delete_status name s =
    if has_key name s.statuses
    then record { statuses = remove name s.statuses; dirty = true }
    else s
