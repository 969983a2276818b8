-- ===== src/Outcome/Loading.antt =====
-- The outcome from TaskRuns that are loaded already is that from the API server, and when it fails.
use integration_service.Base.{
  Bool, Bool-cases, List, Option, Option-cases, String, [], ap, false, inl, inr, is_none, none, not,
  refl, some, sym, true, ◌&&◌, ◌++◌, ◌==◌, ◌||◌, ◌∙◌, ◌∷◌, ◌≡◌,
}
use integration_service.Base.Dict.{Dict, lookup}
use integration_service.Base.Sort.{Keeps, sort-nil}
use integration_service.Outcome.{
  ChildReference, Libraries, PipelineRun, TaskRun, TaskRunStatus,
  get_integration_pipeline_run_outcome, get_integration_pipeline_run_outcome_from_task_runs,
  get_integration_test_task_results, has_pipeline_run_succeeded, integration_test_task_results,
  is_task_run_child_reference, less, load_task_runs, new_task_run, outcome, provided_task_runs,
  sort_by_start_time,
}

module _ (libs : Libraries) (get : String → Option TaskRunStatus)
    (empty : sort_by_start_time libs [] ≡ []) where
  -- The outcome of a PipelineRun that succeeded, whether it has child references or not.
  pub outcome_of_runs :
      (p : PipelineRun)
      → has_pipeline_run_succeeded p ≡ true
      → get_integration_pipeline_run_outcome libs get p
        ≡ elim (load_task_runs libs get p.child_references) [
          | none ↦ none
          | some runs ↦ some (
              outcome libs true (integration_test_task_results libs (sort_by_start_time libs runs)))
        ]
  unfolding get_integration_pipeline_run_outcome
  outcome_of_runs p succeeded =
      rw (get_integration_pipeline_run_outcome, succeeded) (go p.child_references)
    where
      go :
          (l : List ChildReference)
          → elim l [
            | [] ↦ some (outcome libs true [])
            | c ∷ rest ↦ elim (get_integration_test_task_results libs get (c ∷ rest)) [
              | none ↦ none
              | some results ↦ some (outcome libs true results)
            ]
          ]
            ≡ elim (load_task_runs libs get l) [
              | none ↦ none
              | some runs ↦ some (
                  outcome libs true
                    (integration_test_task_results libs (sort_by_start_time libs runs)))
            ]
      go [] =
          ap (λ runs. some (outcome libs true (integration_test_task_results libs runs)))
            (sym empty)
      go (c ∷ l) = elim (Option-cases (load_task_runs libs get (c ∷ l))) [
        | inl missing ↦ rw missing refl
        | inr (runs, loaded) ↦ rw loaded refl
      ]

-- What the map of loaded TaskRuns provides: neither a missing nor a nil entry.
abbrev pub provided : Dict (Option TaskRunStatus) → String → Option TaskRunStatus
provided task_runs name = elim (lookup name task_runs) [ none ↦ none | some status ↦ status ]

abbrev prepend : List TaskRun → Option (List TaskRun) → Option (List TaskRun)
prepend found none = none
prepend found (some runs) = some (found ++ runs)

prepend_snoc :
    (found : List TaskRun) (t : TaskRun) (rest : Option (List TaskRun))
    → prepend (found ++ t ∷ []) rest
      ≡ prepend found (elim rest [ none ↦ none | some runs ↦ some (t ∷ runs) ])
prepend_snoc found t none = refl
prepend_snoc found t (some runs) = ap (λ l. some l) (snoc found)
  where
    snoc : (l : List TaskRun) → ((l ++ t ∷ []) ++ runs) ≡ (l ++ t ∷ runs)
    snoc [] = refl
    snoc (x ∷ l) = ap (λ r. x ∷ r) (snoc l)

append-nil : (l : List TaskRun) → (l ++ []) ≡ l
append-nil [] = refl
append-nil (x ∷ l) = ap (λ r. x ∷ r) (append-nil l)

prepend-nil : (rest : Option (List TaskRun)) → prepend [] rest ≡ rest
prepend-nil none = refl
prepend-nil (some runs) = refl

-- The loop over the provided TaskRuns finds what the loop over the API server's answers finds.
provided_task_runs_lem :
    (libs : Libraries) (task_runs : Dict (Option TaskRunStatus)) (l : List ChildReference)
    (found : List TaskRun)
    → provided_task_runs libs task_runs l found
      ≡ prepend found (load_task_runs libs (provided task_runs) l)
unfolding provided_task_runs load_task_runs
provided_task_runs_lem libs task_runs [] found = ap (λ l. some l) (sym (append-nil found))
provided_task_runs_lem libs task_runs (c ∷ l) found =
    elim (Bool-cases (is_task_run_child_reference c)) [
      | inr skipped ↦
          rw (provided_task_runs, load_task_runs, skipped)
            (provided_task_runs_lem libs task_runs l found)
      | inl counted ↦ elim (Option-cases (lookup c.name task_runs)) [
        | inl missing ↦ rw (provided_task_runs, load_task_runs, counted, missing) refl
        | inr (entry, there) ↦ elim (Option-cases entry) [
          | inl is_nil ↦ rw (provided_task_runs, load_task_runs, counted, there, is_nil) refl
          | inr (status, given) ↦
              rw (provided_task_runs, load_task_runs, counted, there, given)
                (provided_task_runs_lem libs task_runs l
                    (found ++ new_task_run c.pipeline_task_name status ∷ [])
                  ∙ prepend_snoc found (new_task_run c.pipeline_task_name status)
                      (load_task_runs libs (provided task_runs) l))
        ]
      ]
    ]

-- Whether a child reference that names a TaskRun, by its kind or for lack of one, has none.
abbrev pub misses : (String → Option TaskRunStatus) → List ChildReference → Bool
misses get [] = false
misses get (c ∷ l) =
    not (c.name == "") && (c.kind == "" || c.kind == "TaskRun") && is_none (get c.name)
    || misses get l

load_task_runs-is_none :
    (libs : Libraries) (get : String → Option TaskRunStatus) (l : List ChildReference)
    → is_none (load_task_runs libs get l) ≡ misses get l
unfolding load_task_runs is_task_run_child_reference
load_task_runs-is_none libs get [] = refl
load_task_runs-is_none libs get (c ∷ l) =
    let later = load_task_runs-is_none libs get l in
    elim (Bool-cases (is_task_run_child_reference c)) [
      | inr skipped ↦ rw (load_task_runs, skipped) later
      | inl counted ↦ elim (Option-cases (get c.name)) [
        | inl missing ↦ rw (load_task_runs, counted, missing) refl
        | inr (status, there) ↦ elim (Option-cases (load_task_runs libs get l)) [
          | inl fails ↦ rw (load_task_runs, counted, there, fails) (ap is_none (sym fails) ∙ later)
          | inr (runs, loaded) ↦
              rw (load_task_runs, counted, there, loaded) (ap is_none (sym loaded) ∙ later)
        ]
      ]
    ]

outcome-is_none :
    (libs : Libraries) (loaded : Option (List TaskRun))
    → is_none (elim loaded [
      | none ↦ none
      | some runs ↦
          some
            (outcome libs true (integration_test_task_results libs (sort_by_start_time libs runs)))
    ])
      ≡ is_none loaded
outcome-is_none libs none = refl
outcome-is_none libs (some runs) = refl

from_loaded :
    (libs : Libraries) (task_runs : Dict (Option TaskRunStatus)) (p : PipelineRun)
    → has_pipeline_run_succeeded p ≡ true
    → get_integration_pipeline_run_outcome_from_task_runs libs task_runs p
      ≡ elim (load_task_runs libs (provided task_runs) p.child_references) [
        | none ↦ none
        | some runs ↦
            some (
              outcome libs true (integration_test_task_results libs (sort_by_start_time libs runs)))
      ]
unfolding get_integration_pipeline_run_outcome_from_task_runs
from_loaded libs task_runs p succeeded =
    rw
      (
        get_integration_pipeline_run_outcome_from_task_runs,
        succeeded,
        provided_task_runs_lem libs task_runs p.child_references [],
        prepend-nil (load_task_runs libs (provided task_runs) p.child_references),
      )
      refl

-- Whatever TaskRuns are loaded, if a lookup in them gives what the API server has, and the sort keeps
-- every element, both ways to evaluate a PipelineRun give the same; and that is an error exactly if
-- the PipelineRun succeeded and a child reference with a name, of the kind TaskRun or of none, has no
-- TaskRun.
pub get_integration_pipeline_run_outcome_from_task_runs_lem :
    (libs : Libraries) (get : String → Option TaskRunStatus)
    (task_runs : Dict (Option TaskRunStatus)) (p : PipelineRun)
    → ((name : String) → get name ≡ provided task_runs name)
    → Keeps libs.sort
    → (get_integration_pipeline_run_outcome_from_task_runs libs task_runs p
        ≡ get_integration_pipeline_run_outcome libs get p)
      × (is_none (get_integration_pipeline_run_outcome libs get p)
          ≡ (has_pipeline_run_succeeded p && misses get p.child_references))
unfolding get_integration_pipeline_run_outcome_from_task_runs get_integration_pipeline_run_outcome
    sort_by_start_time
get_integration_pipeline_run_outcome_from_task_runs_lem libs get task_runs p same keeps =
    let empty = sort-nil libs.sort less keeps in
    elim (Bool-cases (has_pipeline_run_succeeded p)) [
      | inr other ↦
          rw
            (
              get_integration_pipeline_run_outcome_from_task_runs,
              get_integration_pipeline_run_outcome, other,
            )
            (refl, refl)
      | inl succeeded ↦ (
        from_loaded libs task_runs p succeeded
            ∙ ap
                (λ g. elim (load_task_runs libs g p.child_references) [
                  | none ↦ none
                  | some runs ↦ some (
                      outcome libs true
                        (integration_test_task_results libs (sort_by_start_time libs runs)))
                ])
                (λ i. λ name. sym (same name) i)
            ∙ sym (outcome_of_runs libs get empty p succeeded),
        ap is_none (outcome_of_runs libs get empty p succeeded)
            ∙ outcome-is_none libs (load_task_runs libs get p.child_references)
            ∙ load_task_runs-is_none libs get p.child_references
            ∙ rw succeeded refl,
      )
    ]
