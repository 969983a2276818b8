-- ===== src/Conditions/Promotion.antt =====
-- gitops/snapshot.go: the kind of a Snapshot by its labels and annotations, whether it can be promoted,
-- and the test scenarios that apply to it.
use Prim.Native.String.{len, slice}
use text.Mathlib.Text.{starts_with}
use integration_service.Base.{
  Bool, List, String, [], contains, false, if◌then◌else◌, is_none, none, not, some, true, ◌&&◌,
  ◌++◌, ◌==◌, ◌||◌, ◌∷◌,
}
use integration_service.Base.Dict.{Dict, lookup}
use integration_service.Conditions.{
  Condition, Library, have_app_studio_tests_finished, have_app_studio_tests_succeeded,
  is_snapshot_valid,
}

pub record Meta : Type 0 where
  pub labels : Dict String
  pub annotations : Dict String

-- strings.TrimPrefix
abbrev pub trim_prefix : String → String → String
trim_prefix s prefix = if starts_with s prefix then slice s (len prefix) (len s) else s

-- A missing key of a Go map reads as the empty string.
abbrev pub value_of : String → Dict String → String
value_of k m = elim (lookup k m) [ some v ↦ v | none ↦ "" ]

abbrev pub event_type_label : String
event_type_label = "pac.test.appstudio.openshift.io/event-type"

abbrev pub source_branch_annotation : String
source_branch_annotation = "pac.test.appstudio.openshift.io/source-branch"

abbrev pub target_branch_annotation : String
target_branch_annotation = "pac.test.appstudio.openshift.io/branch"

abbrev pub pull_request_annotation : String
pull_request_annotation = "pac.test.appstudio.openshift.io/pull-request"

abbrev pub snapshot_type_label : String
snapshot_type_label = "test.appstudio.openshift.io/type"

abbrev pub auto_release_label : String
auto_release_label = "release.appstudio.openshift.io/auto-release"

abbrev pub git_ref_branch_prefix : String
git_ref_branch_prefix = "refs/heads/"

unfoldable pub is_pac_push_style_git_ops_comment : String → String → String → Bool
is_pac_push_style_git_ops_comment event target source =
    if target == ""
      || source == ""
      || not (trim_prefix target git_ref_branch_prefix == trim_prefix source git_ref_branch_prefix)
    then false
    else contains
        ("test-comment" ∷ "test-all-comment" ∷ "retest-comment" ∷ "retest-all-comment"
          ∷ "cancel-comment" ∷ "cancel-all-comment" ∷ "on-comment" ∷ [])
        event

unfoldable pub is_snapshot_created_by_pac_merge_queue_event : Meta → Bool
is_snapshot_created_by_pac_merge_queue_event s =
    elim (lookup source_branch_annotation s.annotations) [
      | none ↦ false
      | some branch ↦ starts_with (trim_prefix branch git_ref_branch_prefix) "gh-readonly-queue/"
    ]

-- Whether two Snapshots have the same event type, or both none.
unfoldable pub is_snapshot_created_by_same_pac_event : Meta → Meta → Bool
is_snapshot_created_by_same_pac_event s t =
    let first = lookup event_type_label s.labels in
    let second = lookup event_type_label t.labels in
    elim first [ none ↦ is_none second | some a ↦ elim second [ none ↦ false | some b ↦ a == b ] ]

module _ (lib : Library) where
  unfoldable pub is_override_snapshot : Meta → Bool
  is_override_snapshot s = lib.has_label_with_value s.labels snapshot_type_label "override"

  unfoldable pub is_component_snapshot : Meta → Bool
  is_component_snapshot s = lib.has_label_with_value s.labels snapshot_type_label "component"

  unfoldable pub is_group_snapshot : Meta → Bool
  is_group_snapshot s = lib.has_label_with_value s.labels snapshot_type_label "group"

  unfoldable pub is_snapshot_created_by_pac_push_event : Meta → Bool
  unfolding is_snapshot_created_by_pac_merge_queue_event is_group_snapshot
      is_pac_push_style_git_ops_comment
  is_snapshot_created_by_pac_push_event s =
      if is_snapshot_created_by_pac_merge_queue_event s || is_group_snapshot s
      then false
      else lib.has_label_with_value s.labels event_type_label "push"
        || lib.has_label_with_value s.labels event_type_label "Push"
        || not (lib.has_label s.labels event_type_label)
        || not (lib.has_label s.labels pull_request_annotation)
        || is_pac_push_style_git_ops_comment (value_of event_type_label s.labels)
            (value_of target_branch_annotation s.annotations)
            (value_of source_branch_annotation s.annotations)

  unfoldable pub is_snapshot_auto_release_disabled : Meta → Bool
  is_snapshot_auto_release_disabled s = lib.has_label_with_value s.labels auto_release_label "false"

  -- Each test that fails clears the flag and adds its reason.
  abbrev pub unless : Bool → String → Bool × List String → Bool × List String
  unless ok reason (promoted, reasons) =
      if ok then (promoted, reasons) else (false, reasons ++ reason ∷ [])

  unfoldable pub can_snapshot_be_promoted : Meta → List Condition → Bool × List String
  unfolding have_app_studio_tests_finished have_app_studio_tests_succeeded is_snapshot_valid
      is_snapshot_created_by_pac_push_event is_snapshot_auto_release_disabled is_group_snapshot
  can_snapshot_be_promoted s l =
      if not (have_app_studio_tests_finished lib l)
      then (false, "the Snapshot has not yet finished testing" ∷ [])
      else unless (not (is_group_snapshot s)) "the Snapshot is group snapshot" (
          unless (not (is_snapshot_auto_release_disabled s))
            "the Snapshot 'release.appstudio.openshift.io/auto-release' label is 'false'"
            (unless (is_snapshot_created_by_pac_push_event s)
              "the Snapshot was created for a PaC pull request event"
              (unless (is_snapshot_valid lib l) "the Snapshot is invalid" (
                unless (have_app_studio_tests_succeeded lib l)
                  "the Snapshot hasn't passed all required integration tests" (true, [])))))

  unfoldable pub is_context_valid_for_snapshot : String → Meta → Bool
  unfolding is_component_snapshot is_group_snapshot is_override_snapshot
      is_snapshot_created_by_pac_push_event
  is_context_valid_for_snapshot context s =
      if context == "application" || context == "all"
      then true
      else if context == "component" && is_component_snapshot s
      then true
      else if starts_with context "component_"
      then lib.has_label_with_value s.labels "appstudio.openshift.io/component"
          (trim_prefix context "component_")
      else if context == "group" && is_group_snapshot s
      then true
      else if context == "override" && is_override_snapshot s
      then true
      else if context == "push" && is_snapshot_created_by_pac_push_event s
      then true
      else context == "pull_request" && not (is_snapshot_created_by_pac_push_event s)

  unfoldable pub any_context_valid : List String → Meta → Bool
  unfolding is_context_valid_for_snapshot
  any_context_valid [] s = false
  any_context_valid (context ∷ contexts) s =
      is_context_valid_for_snapshot context s || any_context_valid contexts s

  -- With the contexts of a scenario.
  unfoldable pub is_scenario_applicable_to_snapshots_context : List String → Meta → Bool
  unfolding any_context_valid
  is_scenario_applicable_to_snapshots_context [] s = true
  is_scenario_applicable_to_snapshots_context (context ∷ contexts) s =
      any_context_valid (context ∷ contexts) s

  -- The scenarios by their names and contexts.
  unfoldable pub filter_integration_test_scenarios_with_context :
      List (String × List String) → Meta → List (String × List String)
  unfolding is_scenario_applicable_to_snapshots_context
  filter_integration_test_scenarios_with_context [] s = []
  filter_integration_test_scenarios_with_context ((name, contexts) ∷ scenarios) s =
      let rest = filter_integration_test_scenarios_with_context scenarios s in
      if is_scenario_applicable_to_snapshots_context contexts s
      then (name, contexts) ∷ rest
      else rest

  unfoldable pub has_snapshot_testing_changed_to_finished : List Condition → List Condition → Bool
  unfolding have_app_studio_tests_finished
  has_snapshot_testing_changed_to_finished before after =
      not (have_app_studio_tests_finished lib before) && have_app_studio_tests_finished lib after
