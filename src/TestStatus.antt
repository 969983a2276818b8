-- ===== src/TestStatus.antt =====
-- pkg/integrationteststatus/integration_test_status.go: the status of each test scenario of a
-- snapshot. A pointer to a detail is a write to the entry that holds it. Every operation that reads
-- the clock takes `now`. The JSON codec is not modelled: `load` starts at the decoded list.
mod Entries
pub mod Ops
pub mod Invariant
pub mod Init
pub mod Dirty
pub mod Updates
pub mod Contents
pub mod Retention
pub mod RoundTrip
mod Tests
unfoldable pub use Entries.*
use integration_service.Base.{
  ite, bool_eq, ℕ, String, Bool, true, false, ◌&&◌, Option, none, some, List, [], ◌∷◌, ◌==◌,
  if◌then◌else◌, contains,
}
use integration_service.Base.Dict.{Dict, lookup, insert, remove, has_key, keys}

-- What `InitStatuses` reads of an integration test scenario.
pub record Scenario : Type 0 where
  pub name : String
  pub labels : Dict String

-- helpers.IsIntegrationTestScenarioOptional
unfoldable pub is_scenario_optional : Scenario → Bool
is_scenario_optional scenario =
    elim (lookup "test.appstudio.openshift.io/optional" scenario.labels) [
      | some value ↦ value == "true"
      | none ↦ false
    ]

pub create_missing : String → ℕ → Statuses → Statuses
unfolding update_test_status_if_changed
create_missing name now s =
    if has_key name s.statuses
    then s
    else update_test_status_if_changed name pending "Pending" now s

pub give_run_after : String → Option (List String) → Statuses → Statuses
unfolding set_test_detail_run_after_list
give_run_after name (some run_after) s = set_test_detail_run_after_list name run_after s
give_run_after name none s = s

-- The body of the loop over the scenarios.
pub init_one : Dict (List String) → ℕ → Scenario → Statuses → Statuses
unfolding create_missing set_test_detail_optional give_run_after is_scenario_optional
init_one run_after_map now scenario s =
    give_run_after scenario.name (lookup scenario.name run_after_map) (
      set_test_detail_optional scenario.name (is_scenario_optional scenario)
        (create_missing scenario.name now s))

pub init_all : Dict (List String) → ℕ → List Scenario → Statuses → Statuses
unfolding init_one
init_all run_after_map now [] s = s
init_all run_after_map now (scenario ∷ scenarios) s =
    init_all run_after_map now scenarios (init_one run_after_map now scenario s)

abbrev pub names : List Scenario → List String
names [] = []
names (scenario ∷ scenarios) = scenario.name ∷ names scenarios

pub delete_unexpected : List String → Option Detail → Statuses → Statuses
unfolding delete_status
delete_unexpected expected (some d) s =
    if contains expected d.scenario_name then s else delete_status d.scenario_name s
delete_unexpected expected none s = s

-- One entry of the range over the map. An entry that the loop has deleted before is not produced.
pub prune_one : List String → String → Statuses → Statuses
unfolding delete_unexpected
prune_one expected key s = delete_unexpected expected (lookup key s.statuses) s

pub prune_all : List String → List String → Statuses → Statuses
unfolding prune_one
prune_all expected [] s = s
prune_all expected (key ∷ rest) s = prune_all expected rest (prune_one expected key s)

pub init_statuses : List Scenario → Dict (List String) → ℕ → Statuses → Statuses
unfolding init_all prune_all
init_statuses scenarios run_after_map now s =
    let s' = init_all run_after_map now scenarios s in
    prune_all (names scenarios) (keys s'.statuses) s'

pub values : Dict Detail → List Detail
values [] = []
values ((k, d) ∷ m) = d ∷ values m

pub get_statuses : Statuses → List Detail
unfolding values
get_statuses s = values s.statuses

-- The loop at the end of `UnmarshalJSON`, over the decoded details.
pub load_details : List Detail → Dict Detail → Dict Detail
load_details [] m = m
load_details (d ∷ rest) m = load_details rest (insert d.scenario_name d m)

-- NewSnapshotIntegrationTestStatuses, from the details that its text decodes to. The empty text,
-- which is not decoded, is the empty list.
pub new_statuses : List Detail → Statuses
unfolding load_details
new_statuses decoded = record { statuses = load_details decoded []; dirty = false }
