-- ===== src/Outcome/Passing.antt =====
-- What it takes for an integration PipelineRun to pass.
use integration_service.Base.{
  ==_self, Bool, Bool-cases, IsNodup, List, Option, Option-cases, String, [], arith, contains,
  eq_of_==, false, inl, inr, none, refl, some, subst, sym, true, ◌==◌, ◌∙◌, ◌∷◌, ◌≡◌,
}
use integration_service.Base.Dict.{
  Dict, IsNodup-insert, insert, keys, lookup, lookup-eq_of_absent, lookup-insert,
}
use integration_service.Base.Sort.{Keeps, Orders, sort-nil}
use integration_service.Outcome.{
  IntegrationPipelineRunOutcome, IntegrationTestTaskResult, Libraries, PipelineRun, TaskRun,
  TaskRunStatus, all_passing, all_valid, collect_results, get_integration_pipeline_run_outcome,
  get_start_time, get_test_result, has_pipeline_run_passed_testing, has_pipeline_run_succeeded,
  integration_test_task_results, is_passing, less, load_task_runs, outcome, sort_by_start_time,
  test_output, validation_error,
}
use integration_service.Outcome.Loading.{outcome_of_runs}
use integration_service.Outcome.Latest.{
  IsLatestOutput, IsLatestOutput-unsorted, last_output, last_output-IsLatestOutput,
  less-IsWeakOrder,
}

abbrev pub IsPassing : Option IntegrationTestTaskResult → Type 0
IsPassing none = Unit
IsPassing (some (test_output o)) = is_passing o.result ≡ true
IsPassing (some (validation_error e)) = Bool.false ≡ true

abbrev or_older :
    Option IntegrationTestTaskResult
    → Option IntegrationTestTaskResult
    → Option IntegrationTestTaskResult
or_older (some r) old = some r
or_older none old = old

older_absent :
    (libs : Libraries) (task : String) (t : TaskRun) (l : List TaskRun)
    (old : Option IntegrationTestTaskResult)
    → get_test_result libs t ≡ none
    → or_older (last_output libs task l) old ≡ or_older (last_output libs task (t ∷ l)) old
older_absent libs task t l old absent = elim (Option-cases (last_output libs task l)) [
  | inr (r, later) ↦ rw later refl
  | inl nothing ↦
      rw (nothing, absent)
        (elim (Bool-cases (t.pipeline_task_name == task)) [
          | inl same ↦ rw same refl
          | inr other ↦ rw other refl
        ])
]

older_given :
    (libs : Libraries) (task : String) (t : TaskRun) (l : List TaskRun)
    (r : IntegrationTestTaskResult) (m : Dict IntegrationTestTaskResult)
    → get_test_result libs t ≡ some r
    → or_older (last_output libs task l) (lookup task (insert t.pipeline_task_name r m))
      ≡ or_older (last_output libs task (t ∷ l)) (lookup task m)
older_given libs task t l r m given = elim (Option-cases (last_output libs task l)) [
  | inr (r', later) ↦ rw later refl
  | inl nothing ↦
      rw (nothing, given, lookup-insert t.pipeline_task_name task r m)
        (elim (Bool-cases (t.pipeline_task_name == task)) [
          | inl same ↦ rw same refl
          | inr other ↦ rw other refl
        ])
]

or_older-none : (r : Option IntegrationTestTaskResult) → or_older r none ≡ r
or_older-none none = refl
or_older-none (some r) = refl

lookup-collect_results :
    (libs : Libraries) (task : String) (l : List TaskRun) (m : Dict IntegrationTestTaskResult)
    → lookup task (collect_results libs l m) ≡ or_older (last_output libs task l) (lookup task m)
unfolding collect_results
lookup-collect_results libs task [] m = refl
lookup-collect_results libs task (t ∷ l) m = elim (Option-cases (get_test_result libs t)) [
  | inl absent ↦
      rw (collect_results, absent)
        (lookup-collect_results libs task l m ∙ older_absent libs task t l (lookup task m) absent)
  | inr (r, given) ↦
      rw (collect_results, given)
        (lookup-collect_results libs task l (insert t.pipeline_task_name r m)
          ∙ older_given libs task t l r m given)
]

IsNodup-collect_results :
    (libs : Libraries) (l : List TaskRun) (m : Dict IntegrationTestTaskResult)
    → IsNodup (keys m)
    → IsNodup (keys (collect_results libs l m))
unfolding collect_results
IsNodup-collect_results libs [] m h = h
IsNodup-collect_results libs (t ∷ l) m h = elim (Option-cases (get_test_result libs t)) [
  | inl absent ↦ rw (collect_results, absent) (IsNodup-collect_results libs l m h)
  | inr (r, given) ↦
      rw (collect_results, given)
        (IsNodup-collect_results libs l (insert t.pipeline_task_name r m)
          (IsNodup-insert t.pipeline_task_name r m h))
]

IsPassing-lookup :
    (task : String) (m : Dict IntegrationTestTaskResult)
    → all_passing m ≡ true
    → IsPassing (lookup task m)
unfolding all_passing
IsPassing-lookup task [] h = tt
IsPassing-lookup task ((j, test_output o) ∷ m) h = elim (Bool-cases (j == task)) [
  | inl same ↦ rw same (ground arith)
  | inr other ↦ rw other (IsPassing-lookup task m (ground arith))
]
IsPassing-lookup task ((j, validation_error e) ∷ m) h = cc

lookup_head :
    (j : String) (r : IntegrationTestTaskResult) (m : Dict IntegrationTestTaskResult)
    → lookup j ((j, r) ∷ m) ≡ some r
lookup_head j r m = rw (==_self j) refl

lookup_tail :
    (j task : String) (r : IntegrationTestTaskResult) (m : Dict IntegrationTestTaskResult)
    → (j == task) ≡ false
    → lookup task ((j, r) ∷ m) ≡ lookup task m
lookup_tail j task r m other = rw other refl

IsPassing-tail :
    (j : String) (r : IntegrationTestTaskResult) (m : Dict IntegrationTestTaskResult)
    → contains (keys m) j ≡ false
    → ((task : String) → IsPassing (lookup task ((j, r) ∷ m)))
    → (task : String) → IsPassing (lookup task m)
IsPassing-tail j r m absent h task = elim (Bool-cases (j == task)) [
  | inl same ↦
      subst IsPassing
        (sym (
          lookup-eq_of_absent task m
            (subst (λ x. contains (keys m) x ≡ false) (eq_of_== j task same) absent)))
        tt
  | inr other ↦ subst IsPassing (lookup_tail j task r m other) (h task)
]

all_passing-of_IsPassing :
    (m : Dict IntegrationTestTaskResult)
    → IsNodup (keys m)
    → ((task : String) → IsPassing (lookup task m))
    → all_passing m ≡ true
unfolding all_passing
all_passing-of_IsPassing [] nodup h = refl
all_passing-of_IsPassing ((j, test_output o) ∷ m) nodup h =
    let first : is_passing o.result ≡ true =
      subst IsPassing (lookup_head j (test_output o) m) (h j) in
    rw (first, all_passing-of_IsPassing m nodup.1 (IsPassing-tail j (test_output o) m nodup.0 h))
      refl
all_passing-of_IsPassing ((j, validation_error e) ∷ m) nodup h =
    subst IsPassing (lookup_head j (validation_error e) m) (h j)

all_valid-of_all_passing :
    (m : Dict IntegrationTestTaskResult) → all_passing m ≡ true → all_valid m ≡ true
unfolding all_passing all_valid
all_valid-of_all_passing [] h = refl
all_valid-of_all_passing ((j, test_output o) ∷ m) h = all_valid-of_all_passing m (ground arith)
all_valid-of_all_passing ((j, validation_error e) ∷ m) h = cc

-- A PipelineRun that succeeded, whose TaskRuns can all be read, has an outcome. There is for every
-- task a test output that counts, if one of its TaskRuns has one: that of a TaskRun that started no
-- earlier than the others. The PipelineRun has passed testing exactly when, for every task, the output
-- that counts is valid and has the result SUCCESS, SKIPPED or WARNING.
pub has_pipeline_run_passed_testing-IsPassing :
    (libs : Libraries) (get : String → Option TaskRunStatus) (p : PipelineRun) (runs : List TaskRun)
    → Keeps libs.sort
    → Orders libs.sort
    → has_pipeline_run_succeeded p ≡ true
    → load_task_runs libs get p.child_references ≡ some runs
    → (o : IntegrationPipelineRunOutcome) × (latest : String → Option IntegrationTestTaskResult)
      × (get_integration_pipeline_run_outcome libs get p ≡ some o)
      × ((task : String) → IsLatestOutput libs task runs (latest task))
      × (has_pipeline_run_passed_testing o ≡ true → (task : String) → IsPassing (latest task))
      × (((task : String) → IsPassing (latest task)) → has_pipeline_run_passed_testing o ≡ true)
unfolding integration_test_task_results has_pipeline_run_passed_testing sort_by_start_time less
    get_start_time
has_pipeline_run_passed_testing-IsPassing libs get p runs keeps orders succeeded loaded =
    let sorted = libs.sort less runs in
    let results = collect_results libs sorted [] in
    let found = λ (task : String).
      lookup-collect_results libs task sorted [] ∙ or_older-none (last_output libs task sorted) in
    (
      outcome libs true results,
      (λ task. last_output libs task sorted),
      outcome_of_runs libs get (sort-nil libs.sort less keeps) p succeeded ∙ rw loaded refl,
      (λ task.
          IsLatestOutput-unsorted libs task runs (last_output libs task sorted) keeps (
            last_output-IsLatestOutput libs task sorted
              (orders.orders less less-IsWeakOrder runs))),
      (λ passed.
          λ task. subst IsPassing (found task) (IsPassing-lookup task results (ground arith))),
      (λ each.
          let all =
            all_passing-of_IsPassing results (IsNodup-collect_results libs sorted [] tt)
              (λ task. subst IsPassing (sym (found task)) (each task)) in
          rw (all, all_valid-of_all_passing results all) refl),
    )
