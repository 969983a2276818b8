-- ===== src/Outcome/Tests.antt =====
-- A PipelineRun of two tasks, one of which runs twice, and with a child that is no TaskRun.
use integration_service.Base.{
  Bool, List, Option, String, [], false, if◌then◌else◌, is_none, none, refl, some, true, ℕ, ◌&&◌,
  ◌==◌, ◌∷◌, ◌≡◌,
}
use integration_service.Base.Dict.{Dict}
use integration_service.Base.Sort.{insertion_sort, insertion_sort-Keeps, insertion_sort-Orders}
use integration_service.Outcome.{
  ChildReference, IntegrationPipelineRunOutcome, IntegrationTestTaskResult, Libraries, PipelineRun,
  TaskRun, TaskRunStatus, get_integration_pipeline_run_outcome,
  get_integration_pipeline_run_outcome_from_task_runs, has_pipeline_run_passed_testing,
  has_pipeline_run_succeeded, less, load_task_runs, provided_task_runs, test_output,
  validation_error,
}
use integration_service.Outcome.Loading.{
  get_integration_pipeline_run_outcome_from_task_runs_lem, misses, provided,
}
use integration_service.Outcome.Latest.{IsLatestOutput}
use integration_service.Outcome.Passing.{IsPassing, has_pipeline_run_passed_testing-IsPassing}

-- Texts stand for their parsed results, and "bad" does not parse.
abbrev parse : String → String → String → IntegrationTestTaskResult
parse task name value =
    if value == "bad"
    then validation_error "bad"
    else test_output (record {
      result = value;
      namespace = "";
      timestamp = "";
      note = "";
      successes = 1;
      failures = 0;
      warnings = 0;
    })

abbrev libraries : Libraries
libraries = record { parse_test_output = parse; sort = insertion_sort }

abbrev status : ℕ → String → TaskRunStatus
status start value = record { start_time = some start; results = ("TEST_OUTPUT", value) ∷ [] }

abbrev task_runs : Dict (Option TaskRunStatus)
task_runs =
    ("late", some (status 9 "SUCCESS"))
    ∷ ("early", some (status 3 "FAILURE"))
    ∷ ("other", some (status 5 "WARNING"))
    ∷ []

abbrev child : String → String → ChildReference
child name task = record { name = name; kind = ""; pipeline_task_name = task }

abbrev pipeline_run : PipelineRun
pipeline_run = record {
  name = "plr";
  succeeded = some (record { status = "True"; last_transition_time = 10 });
  completion_time = none;
  child_references =
      child "late" "unit"
      ∷ record { name = "custom"; kind = "CustomRun"; pipeline_task_name = "unit" }
      ∷ child "early" "unit"
      ∷ child "other" "lint"
      ∷ [];
}

-- The failure of the earlier run of a task is hidden by its later success.
abbrev passed_testing : Option IntegrationPipelineRunOutcome → Bool
passed_testing none = false
passed_testing (some o) = has_pipeline_run_passed_testing o

hidden_failure :
    passed_testing
      (get_integration_pipeline_run_outcome_from_task_runs libraries task_runs pipeline_run)
    ≡ true
unfolding get_integration_pipeline_run_outcome_from_task_runs has_pipeline_run_passed_testing less
    insertion_sort
hidden_failure = refl

abbrev get : String → Option TaskRunStatus
get name = provided task_runs name

abbrev runs : List TaskRun
runs =
    record {
      pipeline_task_name = "unit";
      start_time = some 9;
      results = ("TEST_OUTPUT", "SUCCESS") ∷ [];
    }
    ∷ record {
      pipeline_task_name = "unit";
      start_time = some 3;
      results = ("TEST_OUTPUT", "FAILURE") ∷ [];
    }
    ∷ record {
      pipeline_task_name = "lint";
      start_time = some 5;
      results = ("TEST_OUTPUT", "WARNING") ∷ [];
    }
    ∷ []

get_integration_pipeline_run_outcome_from_task_runs_example :
    (get_integration_pipeline_run_outcome_from_task_runs libraries task_runs pipeline_run
      ≡ get_integration_pipeline_run_outcome libraries get pipeline_run)
    × (is_none (get_integration_pipeline_run_outcome libraries get pipeline_run)
        ≡ (has_pipeline_run_succeeded pipeline_run && misses get pipeline_run.child_references))
get_integration_pipeline_run_outcome_from_task_runs_example =
    get_integration_pipeline_run_outcome_from_task_runs_lem libraries get task_runs pipeline_run
      (λ name. refl) insertion_sort-Keeps

has_pipeline_run_passed_testing-IsPassing_example :
    (o : IntegrationPipelineRunOutcome) × (latest : String → Option IntegrationTestTaskResult)
    × (get_integration_pipeline_run_outcome libraries get pipeline_run ≡ some o)
    × ((task : String) → IsLatestOutput libraries task runs (latest task))
    × (has_pipeline_run_passed_testing o ≡ true → (task : String) → IsPassing (latest task))
    × (((task : String) → IsPassing (latest task)) → has_pipeline_run_passed_testing o ≡ true)
unfolding load_task_runs has_pipeline_run_succeeded
has_pipeline_run_passed_testing-IsPassing_example =
    has_pipeline_run_passed_testing-IsPassing libraries get pipeline_run runs insertion_sort-Keeps
      insertion_sort-Orders refl refl

-- A TaskRun that is missing, and one that is nil, are errors; a child of another kind is not.
missing_task_runs :
    (get_integration_pipeline_run_outcome_from_task_runs libraries [] pipeline_run ≡ none)
    × (get_integration_pipeline_run_outcome_from_task_runs libraries
          (("late", none) ∷ task_runs)
          pipeline_run
        ≡ none)
    × (load_task_runs libraries get pipeline_run.child_references ≡ some runs)
    × (provided_task_runs libraries task_runs pipeline_run.child_references [] ≡ some runs)
unfolding get_integration_pipeline_run_outcome_from_task_runs load_task_runs provided_task_runs
missing_task_runs = (refl, refl, refl, refl)
