-- ===== src/Conditions/Machine.antt =====
-- What the marks on a Snapshot mean: the verdict of its tests, the phase of its integration, and two
-- flags; and the marks as the events of that machine.
use integration_service.Base.{
  Bool, List, Option, String, [], false, if◌then◌else◌, none, some, true, ◌==◌, ◌∷◌, ◌≡◌,
}
use integration_service.Conditions.{
  Condition, Library, app_studio_integration_status_condition, app_studio_test_succeeded_condition,
  condition, legacy_integration_status_condition, legacy_test_succeeded_condition,
  mark_snapshot_as_auto_released, mark_snapshot_as_canceled, mark_snapshot_as_failed,
  mark_snapshot_as_invalid, mark_snapshot_as_passed, mark_snapshot_integration_status_as_finished,
  mark_snapshot_integration_status_as_in_progress, parent_snapshots_created_condition,
  reset_snapshot_status_conditions, set_parent_snapshots_created_condition,
  set_snapshot_integration_status_as_error, snapshot_auto_released_condition,
}

pub data Verdict : Type 0 where
  untested : Verdict
  undecided : String → Verdict
  passed : String → Verdict
  failed : String → Verdict

pub data Phase : Type 0 where
  not_begun : Phase
  in_progress : String → Phase
  finished : String → Phase
  canceled : String → Phase
  invalid : String → Phase
  errored : String → Phase

pub record State : Type 0 where
  pub verdict : Verdict
  pub phase : Phase
  pub released : Option String
  pub parents : Option (String × String × String)

abbrev pub fresh : State
fresh = record { verdict = untested; phase = not_begun; released = none; parents = none }

pub data Mark : Type 0 where
  pass : String → Mark
  fail : String → Mark
  cancel : String → Mark
  invalidate : String → Mark
  set_error : String → Mark
  begin : String → Mark
  finish : String → Mark
  release : String → Mark
  set_parents : String → String → String → Mark
  reset : String → Mark

abbrev pub is_tested : Verdict → Bool
is_tested untested = false
is_tested (undecided m) = false
is_tested (passed m) = true
is_tested (failed m) = true

abbrev pub step : Mark → State → State
step (pass m) s = record s { verdict = passed m }
step (fail m) s = record s { verdict = failed m }
step (cancel m) s = record s { phase = canceled m }
step (invalidate m) s = record s { phase = invalid m }
step (set_error m) s = record s { phase = errored m }
step (begin m) s = record s { phase = in_progress m }
step (finish m) s = record s { phase = finished m }
step (release m) s = record s { released = some m }
step (set_parents status reason m) s = record s { parents = some (status, reason, m) }
step (reset m) s =
    if is_tested s.verdict then record s { verdict = undecided m; phase = in_progress m } else s

abbrev pub run : List Mark → State → State
run [] s = s
run (m ∷ marks) s = run marks (step m s)

-- The function of the code that a mark stands for, where every patch is answered in the same way.
abbrev pub apply_mark : Library → Bool → Mark → List Condition → List Condition
apply_mark lib patched (pass m) l = (mark_snapshot_as_passed lib patched m l).0
apply_mark lib patched (fail m) l = (mark_snapshot_as_failed lib patched m l).0
apply_mark lib patched (cancel m) l = (mark_snapshot_as_canceled lib patched m l).0
apply_mark lib patched (invalidate m) l = (mark_snapshot_as_invalid lib patched m l).0
apply_mark lib patched (set_error m) l = set_snapshot_integration_status_as_error lib m l
apply_mark lib patched (begin m) l =
    (mark_snapshot_integration_status_as_in_progress lib patched m l).0
apply_mark lib patched (finish m) l =
    (mark_snapshot_integration_status_as_finished lib patched m l).0
apply_mark lib patched (release m) l = (mark_snapshot_as_auto_released lib patched m l).0
apply_mark lib patched (set_parents status reason m) l =
    set_parent_snapshots_created_condition lib status reason m l
apply_mark lib patched (reset m) l = (reset_snapshot_status_conditions lib patched m l).0

-- Each mark with the answer to its patch.
abbrev pub apply_marks : Library → List (Mark × Bool) → List Condition → List Condition
apply_marks lib [] l = l
apply_marks lib ((m, patched) ∷ marks) l = apply_marks lib marks (apply_mark lib patched m l)

abbrev pub marks_of : List (Mark × Bool) → List Mark
marks_of [] = []
marks_of ((m, patched) ∷ marks) = m ∷ marks_of marks

abbrev pub verdict_condition : Verdict → Option Condition
verdict_condition untested = none
verdict_condition (undecided m) =
    some (condition app_studio_test_succeeded_condition "Unknown" "InProgress" m)
verdict_condition (passed m) =
    some (condition app_studio_test_succeeded_condition "True" "Passed" m)
verdict_condition (failed m) =
    some (condition app_studio_test_succeeded_condition "False" "Failed" m)

abbrev pub phase_condition : Phase → Option Condition
phase_condition not_begun = none
phase_condition (in_progress m) =
    some (condition app_studio_integration_status_condition "Unknown" "InProgress" m)
phase_condition (finished m) =
    some (condition app_studio_integration_status_condition "True" "Finished" m)
phase_condition (canceled m) =
    some (condition app_studio_integration_status_condition "True" "Canceled" m)
phase_condition (invalid m) =
    some (condition app_studio_integration_status_condition "False" "Invalid" m)
phase_condition (errored m) =
    some (condition app_studio_integration_status_condition "False" "ErrorOccured" m)

abbrev pub released_condition : Option String → Option Condition
released_condition none = none
released_condition (some m) =
    some (condition snapshot_auto_released_condition "True" "AutoReleased" m)

abbrev pub parents_condition : Option (String × String × String) → Option Condition
parents_condition none = none
parents_condition (some (status, reason, m)) =
    some (condition parent_snapshots_created_condition status reason m)

-- What apimachinery's meta package promises: a condition that is set is found as it is set and leaves
-- those of other types, and it is true when it is found with the status True.
pub record IsLibrary (lib : Library) : Type 0 where
  pub find-empty : (t : String) → lib.find_status_condition [] t ≡ none
  pub find-set :
      (c : Condition) (l : List Condition) (t : String)
      → lib.find_status_condition (lib.set_status_condition c l) t
        ≡ (if c.type == t then some c else lib.find_status_condition l t)
  pub true-find :
      (l : List Condition) (t : String)
      → lib.is_status_condition_true l t
        ≡ elim (lib.find_status_condition l t) [ none ↦ false | some c ↦ c.status == "True" ]

-- The conditions are those of the state, and there are none of the legacy types.
abbrev pub Represents : Library → List Condition → State → Type 0
Represents lib l s =
    (lib.find_status_condition l app_studio_test_succeeded_condition ≡ verdict_condition s.verdict)
    × (lib.find_status_condition l legacy_test_succeeded_condition ≡ none)
    × (lib.find_status_condition l app_studio_integration_status_condition
        ≡ phase_condition s.phase)
    × (lib.find_status_condition l legacy_integration_status_condition ≡ none)
    × (lib.find_status_condition l snapshot_auto_released_condition ≡ released_condition s.released)
    × (lib.find_status_condition l parent_snapshots_created_condition ≡ parents_condition s.parents)
