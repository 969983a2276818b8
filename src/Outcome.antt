-- ===== src/Outcome.antt =====
-- helpers/integration.go: the outcome of an integration PipelineRun, from the results of its TaskRuns.
--
-- A time is a count of seconds, with 0 the zero time.
pub mod Loading
pub mod Latest
pub mod Passing
mod Tests
use Prim.Native.String.{◌++◌ as text_append}
use integration_service.Base.{
  Bool, List, Option, String, [], false, if◌then◌else◌, ltb, nat_eq, none, not, some, true, ℕ, ◌&&◌,
  ◌++◌, ◌+◌, ◌==◌, ◌||◌, ◌∷◌,
}
use integration_service.Base.Dict.{Dict, insert, lookup}

-- A TaskRun with its pipeline task, its start time, if it has one, and its results by name.
pub record TaskRun : Type 0 where
  pub pipeline_task_name : String
  pub start_time : Option ℕ
  pub results : List (String × String)

pub record AppStudioTestResult : Type 0 where
  pub result : String
  pub namespace : String
  pub timestamp : String
  pub note : String
  pub successes : ℕ
  pub failures : ℕ
  pub warnings : ℕ

pub data IntegrationTestTaskResult : Type 0 where
  test_output : AppStudioTestResult → IntegrationTestTaskResult
  validation_error : String → IntegrationTestTaskResult

pub record ChildReference : Type 0 where
  pub name : String
  pub kind : String
  pub pipeline_task_name : String

-- The condition Succeeded of the status, `none` where it is not set, and its last transition.
pub record SucceededCondition : Type 0 where
  pub status : String
  pub last_transition_time : ℕ

pub record PipelineRun : Type 0 where
  pub name : String
  pub succeeded : Option SucceededCondition
  pub completion_time : Option ℕ
  pub child_references : List ChildReference

-- A TaskRun of the API server: what its status has.
pub record TaskRunStatus : Type 0 where
  pub start_time : Option ℕ
  pub results : List (String × String)

-- json.Unmarshal and the validation by the schema, with the error that they give for the result of a
-- task; and sort.Sort with a test of which element is less.
pub record Libraries : Type 0 where
  pub parse_test_output : String → String → String → IntegrationTestTaskResult
  pub sort : (TaskRun → TaskRun → Bool) → List TaskRun → List TaskRun

pub record IntegrationPipelineRunOutcome : Type 0 where
  pub pipeline_run_succeeded : Bool
  pub results : Dict IntegrationTestTaskResult

-- A condition that is not set is neither true nor false: it is unknown.
unfoldable pub has_pipeline_run_succeeded : PipelineRun → Bool
has_pipeline_run_succeeded p = elim p.succeeded [ none ↦ false | some c ↦ c.status == "True" ]

unfoldable pub has_pipeline_run_finished : PipelineRun → Bool
has_pipeline_run_finished p = elim p.succeeded [
  | none ↦ false
  | some c ↦ not (c.status == "Unknown")
]

unfoldable pub is_task_run_child_reference : ChildReference → Bool
is_task_run_child_reference c = not (c.name == "") && (c.kind == "" || c.kind == "TaskRun")

unfoldable pub task_run_child_reference_names : List ChildReference → List String
unfolding is_task_run_child_reference
task_run_child_reference_names [] = []
task_run_child_reference_names (c ∷ l) =
    let rest = task_run_child_reference_names l in
    if is_task_run_child_reference c then c.name ∷ rest else rest

unfoldable pub pipeline_run_completed_at : PipelineRun → Option ℕ
pipeline_run_completed_at p =
    let transition : Option ℕ = elim p.succeeded [
      | none ↦ none
      | some c ↦ if nat_eq c.last_transition_time 0 then none else some c.last_transition_time
    ] in
    elim p.completion_time [
      | some t ↦ if nat_eq t 0 then transition else some t
      | none ↦ transition
    ]

-- A time that lies ahead is within every grace period.
unfoldable pub task_runs_resolution_within_grace : ℕ → PipelineRun → ℕ → Bool
unfolding pipeline_run_completed_at
task_runs_resolution_within_grace now p grace_period = elim (pipeline_run_completed_at p) [
  | none ↦ false
  | some t ↦ ltb now (t + grace_period)
]

unfoldable pub get_start_time : TaskRun → ℕ
get_start_time t = elim t.start_time [ none ↦ 0 | some s ↦ s ]

unfoldable pub less : TaskRun → TaskRun → Bool
unfolding get_start_time
less s t = ltb (get_start_time s) (get_start_time t)

-- sort.Sort(SortTaskRunsByStartTime(taskRuns))
unfoldable pub sort_by_start_time : Libraries → List TaskRun → List TaskRun
unfolding less
sort_by_start_time libs l = libs.sort less l

abbrev pub new_task_run : String → TaskRunStatus → TaskRun
new_task_run task status = record {
  pipeline_task_name = task;
  start_time = status.start_time;
  results = status.results;
}

module _ (libs : Libraries) where
  -- The loop of GetTestResult over the results of the task.
  unfoldable pub first_test_output :
      String → List (String × String) → Option IntegrationTestTaskResult
  first_test_output task [] = none
  first_test_output task ((name, value) ∷ results) =
      let rest = first_test_output task results in
      if name == "HACBS_TEST_OUTPUT" || name == "TEST_OUTPUT"
      then some (libs.parse_test_output task name value)
      else rest

  unfoldable pub get_test_result : TaskRun → Option IntegrationTestTaskResult
  unfolding first_test_output
  get_test_result t = first_test_output t.pipeline_task_name t.results

  unfoldable pub collect_results :
      List TaskRun → Dict IntegrationTestTaskResult → Dict IntegrationTestTaskResult
  unfolding get_test_result
  collect_results [] m = m
  collect_results (t ∷ l) m = elim (get_test_result t) [
    | none ↦ collect_results l m
    | some r ↦ collect_results l (insert t.pipeline_task_name r m)
  ]

  unfoldable pub integration_test_task_results : List TaskRun → Dict IntegrationTestTaskResult
  unfolding collect_results
  integration_test_task_results l = collect_results l []

  -- The loop over the child references of GetAllChildTaskRunsForPipelineRun, `none` where the TaskRun
  -- of one cannot be read.
  unfoldable pub load_task_runs :
      (String → Option TaskRunStatus) → List ChildReference → Option (List TaskRun)
  unfolding is_task_run_child_reference
  load_task_runs get [] = some []
  load_task_runs get (c ∷ l) =
      let rest = load_task_runs get l in
      if is_task_run_child_reference c
      then elim (get c.name) [
        | none ↦ none
        | some status ↦ elim rest [
          | none ↦ none
          | some runs ↦ some (new_task_run c.pipeline_task_name status ∷ runs)
        ]
      ]
      else rest

  -- No child references give nil.
  unfoldable pub get_all_child_task_runs_for_pipeline_run :
      (String → Option TaskRunStatus) → List ChildReference → Option (List TaskRun)
  unfolding load_task_runs sort_by_start_time
  get_all_child_task_runs_for_pipeline_run get [] = some []
  get_all_child_task_runs_for_pipeline_run get (c ∷ l) = elim (load_task_runs get (c ∷ l)) [
    | none ↦ none
    | some runs ↦ some (sort_by_start_time libs runs)
  ]

  unfoldable pub get_integration_test_task_results :
      (String → Option TaskRunStatus)
      → List ChildReference
      → Option (Dict IntegrationTestTaskResult)
  unfolding get_all_child_task_runs_for_pipeline_run integration_test_task_results
  get_integration_test_task_results get l = elim (get_all_child_task_runs_for_pipeline_run get l) [
    | none ↦ none
    | some runs ↦ some (integration_test_task_results runs)
  ]

  -- The loop of GetIntegrationPipelineRunOutcomeFromTaskRuns, which appends to the TaskRuns found so
  -- far; `none` where one is not provided or is nil.
  unfoldable pub provided_task_runs :
      Dict (Option TaskRunStatus) → List ChildReference → List TaskRun → Option (List TaskRun)
  unfolding is_task_run_child_reference
  provided_task_runs task_runs [] found = some found
  provided_task_runs task_runs (c ∷ l) found =
      if not (is_task_run_child_reference c)
      then provided_task_runs task_runs l found
      else elim (lookup c.name task_runs) [
        | none ↦ none
        | some none ↦ none
        | some (some status) ↦
            provided_task_runs task_runs l (found ++ new_task_run c.pipeline_task_name status ∷ [])
      ]

  abbrev pub outcome : Bool → Dict IntegrationTestTaskResult → IntegrationPipelineRunOutcome
  outcome succeeded results = record { pipeline_run_succeeded = succeeded; results = results }

  -- With the answers of the API server; `none` is an error.
  unfoldable pub get_integration_pipeline_run_outcome :
      (String → Option TaskRunStatus) → PipelineRun → Option IntegrationPipelineRunOutcome
  unfolding has_pipeline_run_succeeded get_integration_test_task_results
  get_integration_pipeline_run_outcome get p =
      if not (has_pipeline_run_succeeded p)
      then some (outcome false [])
      else elim p.child_references [
        | [] ↦ some (outcome true [])
        | c ∷ l ↦ elim (get_integration_test_task_results get (c ∷ l)) [
          | none ↦ none
          | some results ↦ some (outcome true results)
        ]
      ]

  -- With the TaskRuns by name that are loaded already, of which one may be nil.
  unfoldable pub get_integration_pipeline_run_outcome_from_task_runs :
      Dict (Option TaskRunStatus) → PipelineRun → Option IntegrationPipelineRunOutcome
  unfolding has_pipeline_run_succeeded provided_task_runs integration_test_task_results
      sort_by_start_time
  get_integration_pipeline_run_outcome_from_task_runs task_runs p =
      if not (has_pipeline_run_succeeded p)
      then some (outcome false [])
      else elim (provided_task_runs task_runs p.child_references []) [
        | none ↦ none
        | some runs ↦
            some (outcome true (integration_test_task_results (sort_by_start_time libs runs)))
      ]

-- Whether no result failed to parse.
unfoldable pub all_valid : Dict IntegrationTestTaskResult → Bool
all_valid [] = true
all_valid ((task, test_output o) ∷ m) = all_valid m
all_valid ((task, validation_error e) ∷ m) = false

unfoldable pub has_pipeline_run_valid_test_outputs : IntegrationPipelineRunOutcome → Bool
unfolding all_valid
has_pipeline_run_valid_test_outputs o = all_valid o.results

abbrev pub is_passing : String → Bool
is_passing r = r == "SUCCESS" || r == "SKIPPED" || r == "WARNING"

-- The code reads the output of each result only once all are valid.
unfoldable pub all_passing : Dict IntegrationTestTaskResult → Bool
all_passing [] = true
all_passing ((task, test_output o) ∷ m) = is_passing o.result && all_passing m
all_passing ((task, validation_error e) ∷ m) = false

unfoldable pub has_pipeline_run_passed_testing : IntegrationPipelineRunOutcome → Bool
unfolding has_pipeline_run_valid_test_outputs all_passing
has_pipeline_run_passed_testing o =
    o.pipeline_run_succeeded && has_pipeline_run_valid_test_outputs o && all_passing o.results

unfoldable pub any_warning : Dict IntegrationTestTaskResult → Bool
any_warning [] = false
any_warning ((task, test_output o) ∷ m) = o.result == "WARNING" || any_warning m
any_warning ((task, validation_error e) ∷ m) = any_warning m

unfoldable pub has_pipeline_run_warning_testing : IntegrationPipelineRunOutcome → Bool
unfolding has_pipeline_run_valid_test_outputs any_warning
has_pipeline_run_warning_testing o =
    o.pipeline_run_succeeded && has_pipeline_run_valid_test_outputs o && any_warning o.results

unfoldable pub get_validation_errors_list : Dict IntegrationTestTaskResult → List String
get_validation_errors_list [] = []
get_validation_errors_list ((task, test_output o) ∷ m) = get_validation_errors_list m
get_validation_errors_list ((task, validation_error e) ∷ m) =
    text_append "Invalid result: " e ∷ get_validation_errors_list m
