-- ===== src/Conditions.antt =====
-- gitops/snapshot.go: the status conditions of a Snapshot, its labels, and what is read off them.
--
-- A patch that fails leaves the conditions of the Snapshot in memory as they were set, and is an error.
-- The time of a condition's last transition is left out.
pub mod Machine
pub mod Observed
pub mod Agreement
pub mod Promotion
pub mod Decision
mod Tests
use integration_service.Base.{
  Bool, List, Option, String, false, if◌then◌else◌, none, not, some, true, ◌&&◌, ◌==◌, ◌||◌,
}
use integration_service.Base.Dict.{Dict}

pub record Condition : Type 0 where
  pub type : String
  pub status : String
  pub reason : String
  pub message : String

-- meta.FindStatusCondition, SetStatusCondition and IsStatusConditionTrue, and metadata.HasLabel and
-- HasLabelWithValue.
pub record Library : Type 0 where
  pub find_status_condition : List Condition → String → Option Condition
  pub set_status_condition : Condition → List Condition → List Condition
  pub is_status_condition_true : List Condition → String → Bool
  pub has_label : Dict String → String → Bool
  pub has_label_with_value : Dict String → String → String → Bool

abbrev pub app_studio_test_succeeded_condition : String
app_studio_test_succeeded_condition = "AppStudioTestSucceeded"

abbrev pub legacy_test_succeeded_condition : String
legacy_test_succeeded_condition = "HACBSStudioTestSucceeded"

abbrev pub app_studio_integration_status_condition : String
app_studio_integration_status_condition = "AppStudioIntegrationStatus"

abbrev pub legacy_integration_status_condition : String
legacy_integration_status_condition = "HACBSIntegrationStatus"

abbrev pub snapshot_auto_released_condition : String
snapshot_auto_released_condition = "AutoReleased"

abbrev pub parent_snapshots_created_condition : String
parent_snapshots_created_condition = "ParentSnapshotsCreated"

abbrev pub or_legacy : Option Condition → Option Condition → Option Condition
or_legacy (some c) legacy = some c
or_legacy none legacy = legacy

abbrev pub matches : String → String → Option Condition → Bool
matches status reason none = false
matches status reason (some c) = c.status == status && (reason == "" || reason == c.reason)

-- The conditions after the patch, and whether there was no error.
abbrev pub Patched : Type 0
Patched = List Condition × Bool

abbrev pub condition : String → String → String → String → Condition
condition type status reason message = record {
  type = type;
  status = status;
  reason = reason;
  message = message;
}

module _ (lib : Library) where
  unfoldable pub is_condition_set : List Condition → String → String → String → Bool
  is_condition_set l type status reason =
      let current = lib.find_status_condition l type in
      let legacy =
        if type == app_studio_test_succeeded_condition
        then lib.find_status_condition l legacy_test_succeeded_condition
        else if type == app_studio_integration_status_condition
        then lib.find_status_condition l legacy_integration_status_condition
        else none in
      matches status reason (or_legacy current legacy)

  unfoldable pub is_snapshot_marked_as_passed : List Condition → Bool
  unfolding is_condition_set
  is_snapshot_marked_as_passed l = is_condition_set l app_studio_test_succeeded_condition "True" ""

  unfoldable pub is_snapshot_marked_as_failed : List Condition → Bool
  unfolding is_condition_set
  is_snapshot_marked_as_failed l = is_condition_set l app_studio_test_succeeded_condition "False" ""

  unfoldable pub is_marked_as_canceled : List Condition → Bool
  unfolding is_condition_set
  is_marked_as_canceled l =
      is_condition_set l app_studio_integration_status_condition "True" "Canceled"

  unfoldable pub is_snapshot_marked_as_invalid : List Condition → Bool
  unfolding is_condition_set
  is_snapshot_marked_as_invalid l =
      is_condition_set l app_studio_integration_status_condition "False" "Invalid"

  unfoldable pub is_snapshot_integration_status_marked_as_finished : List Condition → Bool
  unfolding is_condition_set
  is_snapshot_integration_status_marked_as_finished l =
      is_condition_set l app_studio_integration_status_condition "True" "Finished"
      || is_condition_set l app_studio_integration_status_condition "True" "Canceled"

  unfoldable pub is_snapshot_marked_as_auto_released : List Condition → Bool
  unfolding is_condition_set
  is_snapshot_marked_as_auto_released l =
      is_condition_set l snapshot_auto_released_condition "True" ""

  unfoldable pub parent_snapshots_created : List Condition → Bool
  unfolding is_condition_set
  parent_snapshots_created l = is_condition_set l parent_snapshots_created_condition "True" ""

  abbrev pub integration_status : List Condition → Option Condition
  integration_status l =
      or_legacy (lib.find_status_condition l app_studio_integration_status_condition)
        (lib.find_status_condition l legacy_integration_status_condition)

  unfoldable pub is_snapshot_not_started : List Condition → Bool
  is_snapshot_not_started l = elim (integration_status l) [
    | none ↦ true
    | some c ↦ not (c.reason == "InProgress")
  ]

  -- Go panics where neither condition is set: `none`.
  unfoldable pub is_snapshot_error : List Condition → Option Bool
  is_snapshot_error l = elim (integration_status l) [
    | none ↦ none
    | some c ↦ some (c.reason == "ErrorOccured")
  ]

  unfoldable pub is_snapshot_valid : List Condition → Bool
  is_snapshot_valid l = elim (integration_status l) [
    | none ↦ true
    | some c ↦ not (c.reason == "Invalid")
  ]

  abbrev pub is_decided : Option Condition → Bool
  is_decided none = false
  is_decided (some c) = not (c.status == "Unknown")

  unfoldable pub have_app_studio_tests_finished : List Condition → Bool
  have_app_studio_tests_finished l =
      elim (lib.find_status_condition l app_studio_test_succeeded_condition) [
        | none ↦ is_decided (lib.find_status_condition l legacy_test_succeeded_condition)
        | some c ↦ is_decided (some c)
      ]

  unfoldable pub have_app_studio_tests_succeeded : List Condition → Bool
  have_app_studio_tests_succeeded l =
      elim (lib.find_status_condition l app_studio_test_succeeded_condition) [
        | none ↦ lib.is_status_condition_true l legacy_test_succeeded_condition
        | some c ↦ lib.is_status_condition_true l app_studio_test_succeeded_condition
      ]

  -- The condition and whether the tests are decided.
  unfoldable pub get_test_succeeded_condition : List Condition → Option Condition × Bool
  get_test_succeeded_condition l =
      let c =
        or_legacy (lib.find_status_condition l app_studio_test_succeeded_condition)
          (lib.find_status_condition l legacy_test_succeeded_condition) in
      (c, is_decided c)

  unfoldable pub mark_snapshot_as_passed : Bool → String → List Condition → Patched
  mark_snapshot_as_passed patched message l = (
    lib.set_status_condition (condition app_studio_test_succeeded_condition "True" "Passed" message)
        l,
    patched,
  )

  unfoldable pub mark_snapshot_as_failed : Bool → String → List Condition → Patched
  mark_snapshot_as_failed patched message l = (
    lib.set_status_condition
        (condition app_studio_test_succeeded_condition "False" "Failed" message) l,
    patched,
  )

  unfoldable pub mark_snapshot_as_canceled : Bool → String → List Condition → Patched
  mark_snapshot_as_canceled patched message l = (
    lib.set_status_condition
        (condition app_studio_integration_status_condition "True" "Canceled" message) l,
    patched,
  )

  unfoldable pub set_snapshot_integration_status_as_invalid :
      String → List Condition → List Condition
  set_snapshot_integration_status_as_invalid message =
      lib.set_status_condition
        (condition app_studio_integration_status_condition "False" "Invalid" message)

  unfoldable pub mark_snapshot_as_invalid : Bool → String → List Condition → Patched
  unfolding set_snapshot_integration_status_as_invalid
  mark_snapshot_as_invalid patched message l =
      (set_snapshot_integration_status_as_invalid message l, patched)

  unfoldable pub set_snapshot_integration_status_as_error : String → List Condition → List Condition
  set_snapshot_integration_status_as_error message =
      lib.set_status_condition
        (condition app_studio_integration_status_condition "False" "ErrorOccured" message)

  unfoldable pub mark_snapshot_integration_status_as_in_progress :
      Bool → String → List Condition → Patched
  mark_snapshot_integration_status_as_in_progress patched message l = (
    lib.set_status_condition
        (condition app_studio_integration_status_condition "Unknown" "InProgress" message) l,
    patched,
  )

  unfoldable pub mark_snapshot_integration_status_as_finished :
      Bool → String → List Condition → Patched
  mark_snapshot_integration_status_as_finished patched message l = (
    lib.set_status_condition
        (condition app_studio_integration_status_condition "True" "Finished" message) l,
    patched,
  )

  unfoldable pub mark_snapshot_as_auto_released : Bool → String → List Condition → Patched
  mark_snapshot_as_auto_released patched message l = (
    lib.set_status_condition
        (condition snapshot_auto_released_condition "True" "AutoReleased" message) l,
    patched,
  )

  unfoldable pub set_parent_snapshots_created_condition :
      String → String → String → List Condition → List Condition
  set_parent_snapshots_created_condition status reason message =
      lib.set_status_condition (condition parent_snapshots_created_condition status reason message)

  unfoldable pub reset_snapshot_status_conditions : Bool → String → List Condition → Patched
  unfolding have_app_studio_tests_finished
  reset_snapshot_status_conditions patched message l =
      if have_app_studio_tests_finished l
      then (
        lib.set_status_condition
            (condition app_studio_test_succeeded_condition "Unknown" "InProgress" message)
            (lib.set_status_condition
              (condition app_studio_integration_status_condition "Unknown" "InProgress" message) l),
        patched,
      )
      else (l, true)
