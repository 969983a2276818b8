-- ===== src/TestStatus/Tests.antt =====
-- Runs on concrete statuses, and the theorems at concrete inputs.
use mathlib.Core.Option
use integration_service.Base.{
  List, String, [], contains, false, if◌then◌else◌, refl, some, true, ℕ, ◌==◌, ◌∷◌, ◌≡◌, ◌⊎◌,
}
use integration_service.Base.Dict.{has_key}
use integration_service.TestStatus.{
  Detail, Scenario, Status-discrete, Statuses, delete_status, get_scenario_status, get_statuses,
  in_progress, init_statuses, is_dirty, is_scenario_optional, names, new_statuses, reset_dirty,
  reset_status, set_test_detail_optional, set_test_detail_run_after_list, test_fail, test_passed,
  update_test_pipeline_run_name, update_test_status_if_changed,
}
use integration_service.TestStatus.Ops.{
  Op, apply, clear_dirty, init, run, set_optional, set_pipeline_run_name, update,
}
use integration_service.TestStatus.Invariant.{IsValid}
use integration_service.TestStatus.Init.{run-IsValid}
use integration_service.TestStatus.Dirty.{at_last_reset, run_clean}
use integration_service.TestStatus.Updates.{Differs, update_sets, update_stamps}
use integration_service.TestStatus.Contents.{init_statuses-has_key}
use integration_service.TestStatus.Retention.{init_statuses-outcome_of, outcome_of, pending_outcome}
use integration_service.TestStatus.RoundTrip.{new-get_statuses}

abbrev smoke : Scenario
smoke = record { name = "smoke"; labels = [] }

abbrev deep : Scenario
deep = record { name = "deep"; labels = ("test.appstudio.openshift.io/optional", "true") ∷ [] }

abbrev empty : Statuses
empty = record { statuses = []; dirty = false }

abbrev script : List (Op × ℕ)
script =
    (init (smoke ∷ deep ∷ []) (("deep", "smoke" ∷ []) ∷ []), 1)
    ∷ (update "smoke" in_progress "running", 2)
    ∷ (update "smoke" test_passed "ok", 3)
    ∷ (set_pipeline_run_name "smoke" "run-1", 4)
    ∷ (init (smoke ∷ []) [], 5)
    ∷ []

program : Unit {0}
unfolding run apply init_statuses reset_dirty update_test_status_if_changed set_test_detail_optional
    set_test_detail_run_after_list update_test_pipeline_run_name is_dirty get_scenario_status
    reset_status delete_status is_scenario_optional new_statuses get_statuses Status-discrete
program = tt

script_result :
    get_scenario_status "smoke" (run script empty)
    ≡ some (record {
      scenario_name = "smoke";
      status = test_passed;
      last_update_time = 3;
      details = "ok";
      start_time = some 2;
      completion_time = some 3;
      test_pipeline_run_name = "run-1";
      is_optional_scenario = false;
      run_after = [];
    })
unfolding program
script_result = refl

abbrev smoke_detail : Detail
smoke_detail = record {
  scenario_name = "smoke";
  status = test_passed;
  last_update_time = 3;
  details = "ok";
  start_time = some 2;
  completion_time = some 3;
  test_pipeline_run_name = "run-1";
  is_optional_scenario = false;
  run_after = [];
}

abbrev done : Statuses
done = record { statuses = ("smoke", smoke_detail) ∷ []; dirty = false }

done-IsValid : IsValid done
done-IsValid = (record { named = refl; times = λ h. cc }, tt)

run-IsValid_example : IsValid (run script empty)
run-IsValid_example = run-IsValid script empty (tt, ((λ h. cc), ((λ h. cc), (tt, (tt, tt))))) tt

-- A change that is written, and two calls that change nothing after it.
abbrev written : List (Op × ℕ)
written =
    (update "smoke" test_fail "no", 8)
    ∷ (clear_dirty, 8)
    ∷ (update "smoke" test_fail "no", 9)
    ∷ (set_optional "smoke" false, 10)
    ∷ []

written_is_clean : is_dirty (run written done) ≡ false
unfolding program
written_is_clean = refl

run_clean_example : run written done ≡ at_last_reset written done
run_clean_example = run_clean written done written_is_clean

update_sets_example :
    (d : Detail) × (get_scenario_status "deep"
        (update_test_status_if_changed "deep" test_fail "no" 7 done)
      ≡ some d)
    × (d.status ≡ test_fail)
    × (d.details ≡ "no")
    × ((other : String)
        → ("deep" == other) ≡ false
        → get_scenario_status other (update_test_status_if_changed "deep" test_fail "no" 7 done)
          ≡ get_scenario_status other done)
update_sets_example = update_sets "deep" test_fail "no" 7 done

smoke_found : get_scenario_status "smoke" done ≡ some smoke_detail
unfolding get_scenario_status
smoke_found = refl

update_stamps_example :
    (update_test_status_if_changed "smoke" test_fail "no" 7 done ≡ done)
      × (smoke_detail.status ≡ test_fail)
      × (smoke_detail.details ≡ "no")
    ⊎ Differs test_fail "no" smoke_detail
      × (Option.map
            (λ (x : Detail). x.last_update_time)
            (get_scenario_status "smoke"
              (update_test_status_if_changed "smoke" test_fail "no" 7 done))
          ≡ some 7)
      × (is_dirty (update_test_status_if_changed "smoke" test_fail "no" 7 done) ≡ true)
update_stamps_example = update_stamps "smoke" test_fail "no" 7 done smoke_detail smoke_found

init_statuses-has_key_example :
    has_key "smoke" (init_statuses (deep ∷ []) [] 8 done).statuses
    ≡ contains (names (deep ∷ [])) "smoke"
init_statuses-has_key_example = init_statuses-has_key (deep ∷ []) [] 8 done "smoke" done-IsValid

init_statuses-outcome_of_example :
    outcome_of "smoke" (init_statuses (smoke ∷ deep ∷ []) [] 8 done)
    ≡ (if has_key "smoke" done.statuses then outcome_of "smoke" done else some (pending_outcome 8))
init_statuses-outcome_of_example =
    init_statuses-outcome_of (smoke ∷ deep ∷ []) [] 8 done "smoke" done-IsValid refl

new-get_statuses_example :
    (get_scenario_status "smoke" (new_statuses (get_statuses done))
      ≡ get_scenario_status "smoke" done)
    × (is_dirty (new_statuses (get_statuses done)) ≡ false)
new-get_statuses_example = new-get_statuses done "smoke" done-IsValid (refl, tt)
