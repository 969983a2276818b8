-- ===== src/TestStatus/Init.antt =====
-- `InitStatuses` and sequences of calls keep the statuses well formed.
use integration_service.Base.{
  Bool-cases, List, Option, String, [], contains, inl, inr, none, some, ℕ, ◌∷◌, ◌≢◌,
}
use integration_service.Base.Dict.{Dict, has_key, keys, lookup}
use integration_service.TestStatus.{
  Detail, Scenario, Statuses, create_missing, delete_unexpected, give_run_after, init_all, init_one,
  init_statuses, is_scenario_optional, names, pending, prune_all, prune_one, reset_dirty,
  set_test_detail_optional, undefined,
}
use integration_service.TestStatus.Ops.{
  Op, apply, clear_dirty, delete, init, reset, run, set_optional, set_pipeline_run_name,
  set_run_after, update,
}
use integration_service.TestStatus.Invariant.{
  IsValid, delete_status-IsValid, reset_status-IsValid, set_optional-IsValid,
  set_pipeline_run_name-IsValid, set_run_after-IsValid, update-IsValid,
}

create_missing-IsValid :
    (name : String) (now : ℕ) (s : Statuses) → IsValid s → IsValid (create_missing name now s)
unfolding create_missing
create_missing-IsValid name now s v = elim (Bool-cases (has_key name s.statuses)) [
  | inl there ↦ rw there v
  | inr absent ↦ rw absent (update-IsValid name pending "Pending" now s (λ h. cc) v)
]

give_run_after-IsValid :
    (name : String) (o : Option (List String)) (s : Statuses)
    → IsValid s
    → IsValid (give_run_after name o s)
unfolding give_run_after
give_run_after-IsValid name (some run_after) s v = set_run_after-IsValid name run_after s v
give_run_after-IsValid name none s v = v

pub init_all-IsValid :
    (run_after_map : Dict (List String)) (now : ℕ) (scenarios : List Scenario) (s : Statuses)
    → IsValid s
    → IsValid (init_all run_after_map now scenarios s)
unfolding init_all init_one
init_all-IsValid run_after_map now [] s v = v
init_all-IsValid run_after_map now (scenario ∷ scenarios) s v =
    let name = scenario.name in
    let s₁ = create_missing name now s in
    let s₂ = set_test_detail_optional name (is_scenario_optional scenario) s₁ in
    let s₃ = give_run_after name (lookup name run_after_map) s₂ in
    init_all-IsValid run_after_map now scenarios s₃ (
      give_run_after-IsValid name (lookup name run_after_map) s₂ (
        set_optional-IsValid name (is_scenario_optional scenario) s₁
          (create_missing-IsValid name now s v)))

delete_unexpected-IsValid :
    (expected : List String) (o : Option Detail) (s : Statuses)
    → IsValid s
    → IsValid (delete_unexpected expected o s)
unfolding delete_unexpected
delete_unexpected-IsValid expected none s v = v
delete_unexpected-IsValid expected (some d) s v =
    elim (Bool-cases (contains expected d.scenario_name)) [
      | inl wanted ↦ rw wanted v
      | inr old ↦ rw old (delete_status-IsValid d.scenario_name s v)
    ]

pub prune_one-IsValid :
    (expected : List String) (key : String) (s : Statuses)
    → IsValid s
    → IsValid (prune_one expected key s)
unfolding prune_one
prune_one-IsValid expected key s v = delete_unexpected-IsValid expected (lookup key s.statuses) s v

prune_all-IsValid :
    (expected rest : List String) (s : Statuses) → IsValid s → IsValid (prune_all expected rest s)
unfolding prune_all
prune_all-IsValid expected [] s v = v
prune_all-IsValid expected (key ∷ rest) s v =
    prune_all-IsValid expected rest (prune_one expected key s) (prune_one-IsValid expected key s v)

pub init_statuses-IsValid :
    (scenarios : List Scenario) (run_after_map : Dict (List String)) (now : ℕ) (s : Statuses)
    → IsValid s
    → IsValid (init_statuses scenarios run_after_map now s)
unfolding init_statuses
init_statuses-IsValid scenarios run_after_map now s v =
    let s' = init_all run_after_map now scenarios s in
    prune_all-IsValid (names scenarios) (keys s'.statuses) s'
      (init_all-IsValid run_after_map now scenarios s v)

-- No call asks for the status of a detail that has just been made.
abbrev pub IsProper : Op → Type 0
IsProper (update name status details) = status ≢ undefined
IsProper _ = Unit

apply-IsValid :
    (op : Op) (now : ℕ) (s : Statuses) → IsProper op → IsValid s → IsValid (apply op now s)
unfolding apply reset_dirty
apply-IsValid (update name status details) now s p v = update-IsValid name status details now s p v
apply-IsValid (set_optional name optional) now s p v = set_optional-IsValid name optional s v
apply-IsValid (set_run_after name run_after) now s p v = set_run_after-IsValid name run_after s v
apply-IsValid (set_pipeline_run_name name value) now s p v =
    set_pipeline_run_name-IsValid name value s v
apply-IsValid (reset name optional) now s p v = reset_status-IsValid name optional now s v
apply-IsValid (delete name) now s p v = delete_status-IsValid name s v
apply-IsValid (init scenarios run_after_map) now s p v =
    init_statuses-IsValid scenarios run_after_map now s v
apply-IsValid clear_dirty now s p v = v

abbrev pub AllProper : List (Op × ℕ) → Type 0
AllProper [] = Unit
AllProper ((op, now) ∷ rest) = IsProper op × AllProper rest

-- After any sequence of calls on well-formed statuses, in which no update asks for the value -1,
-- every entry stands under its own scenario's name and its times fit its status: a running test has
-- a start and no completion, one that has not begun has neither, and any other has a completion.
pub run-IsValid :
    (ops : List (Op × ℕ)) (s : Statuses) → AllProper ops → IsValid s → IsValid (run ops s)
unfolding run
run-IsValid [] s p v = v
run-IsValid ((op, now) ∷ rest) s p v =
    run-IsValid rest (apply op now s) p.1 (apply-IsValid op now s p.0 v)
