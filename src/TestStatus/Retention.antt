-- ===== src/TestStatus/Retention.antt =====
-- `InitStatuses` keeps what the tests have written into the entries.
use mathlib.Core.Option
use integration_service.Base.{
  Bool, Bool-cases, List, Option, Option-cases, String, [], ap, arith, bool_eq, contains, eq_iff,
  eq_of_==, false, if◌then◌else◌, inl, inr, none, refl, some, subst, true, ℕ, ◌==◌, ◌||◌, ◌∙◌, ◌∷◌,
  ◌≡◌,
}
use integration_service.Base.Dict.{Dict, has_key, keys, lookup, lookup-eq_of_absent, lookup-remove}
use integration_service.TestStatus.{
  Detail, Marked, Scenario, Status, Statuses, alter, change_details, create_missing, delete_status,
  delete_unexpected, fresh_detail, give_run_after, init_all, init_one, init_statuses,
  is_scenario_optional, names, pending, prune_all, prune_one, put_optional, put_run_after,
  run_after_equal, set_test_detail_optional, set_test_detail_run_after_list,
  update_test_status_if_changed, updated_entry, write_back,
}
use integration_service.TestStatus.Invariant.{IsValid, change_status_ne, lookup-write_back}
use integration_service.TestStatus.Init.{init_all-IsValid, prune_one-IsValid}
use integration_service.TestStatus.Dirty.{begin_update_missing}
use integration_service.TestStatus.Updates.{lookup-write_back_ne}
use integration_service.TestStatus.Contents.{init_all-has_key}

-- What a test run has written into a scenario's entry.
pub record Outcome : Type 0 where
  pub status : Status
  pub details : String
  pub last_update_time : ℕ
  pub start_time : Option ℕ
  pub completion_time : Option ℕ
  pub test_pipeline_run_name : String

abbrev pub outcome : Detail → Outcome
outcome d = record {
  status = d.status;
  details = d.details;
  last_update_time = d.last_update_time;
  start_time = d.start_time;
  completion_time = d.completion_time;
  test_pipeline_run_name = d.test_pipeline_run_name;
}

abbrev pub outcome_of : String → Statuses → Option Outcome
outcome_of name s = Option.map outcome (lookup name s.statuses)

abbrev pub pending_outcome : ℕ → Outcome
pending_outcome now = record {
  status = pending;
  details = "Pending";
  last_update_time = now;
  start_time = none;
  completion_time = none;
  test_pipeline_run_name = "";
}

abbrev KeepsOutcome : (Marked → Marked) → Type 0
KeepsOutcome f = (m : Marked) → outcome (f m).0 ≡ outcome m.0

alter-outcome_of :
    (name k : String) (f : Marked → Marked) (s : Statuses)
    → KeepsOutcome f
    → outcome_of k (alter name f s) ≡ outcome_of k s
alter-outcome_of name k f s keeps = elim (Option-cases (lookup name s.statuses)) [
  | inl missing ↦ rw (missing, alter) refl
  | inr (d, found) ↦
      let m = f (d, s.dirty) in
      rw (found, alter)
        (elim (Bool-cases (name == k)) [
          | inl same ↦
              let e = eq_of_== name k same in
              subst
                (λ j. Option.map outcome (lookup j (write_back name m s).statuses) ≡ outcome_of j s)
                e (rw (lookup-write_back name m s) (rw found (ap some (keeps (d, s.dirty)))))
          | inr other ↦ rw (lookup-write_back_ne name k m s other) refl
        ])
]

put_optional-KeepsOutcome : (optional : Bool) → KeepsOutcome (put_optional optional)
unfolding put_optional
put_optional-KeepsOutcome optional (d, dirty) =
    elim (Bool-cases (bool_eq d.is_optional_scenario optional)) [
      | inl same ↦ rw same refl
      | inr other ↦ rw other refl
    ]

put_run_after-KeepsOutcome : (run_after : List String) → KeepsOutcome (put_run_after run_after)
unfolding put_run_after
put_run_after-KeepsOutcome run_after (d, dirty) =
    elim (Bool-cases (run_after_equal d.run_after run_after)) [
      | inl same ↦ rw same refl
      | inr other ↦ rw other refl
    ]

fresh-outcome :
    (name : String) (now : ℕ) (s : Statuses)
    → lookup name s.statuses ≡ none
    → outcome (updated_entry name pending "Pending" now s).0 ≡ pending_outcome now
unfolding updated_entry change_details fresh_detail
fresh-outcome name now s missing =
    rw (begin_update_missing name "Pending" now s missing)
      (rw (change_status_ne pending now (fresh_detail name "Pending" now) true (λ h. cc)) refl)

give_run_after-outcome_of :
    (k name : String) (o : Option (List String)) (s : Statuses)
    → outcome_of k (give_run_after name o s) ≡ outcome_of k s
unfolding give_run_after set_test_detail_run_after_list
give_run_after-outcome_of k name (some run_after) s =
    alter-outcome_of name k (put_run_after run_after) s (put_run_after-KeepsOutcome run_after)
give_run_after-outcome_of k name none s = refl

outcome_of_absent :
    (k : String) (s : Statuses)
    → outcome_of k s ≡ (if has_key k s.statuses then outcome_of k s else none)
outcome_of_absent k s = elim (Bool-cases (has_key k s.statuses)) [
  | inl there ↦ rw there refl
  | inr absent ↦ rw (absent, lookup-eq_of_absent k s.statuses absent) refl
]

create_missing-outcome_of :
    (name k : String) (now : ℕ) (s : Statuses)
    → outcome_of k (create_missing name now s) ≡ (
        if has_key k s.statuses
        then outcome_of k s
        else if name == k
        then some (pending_outcome now)
        else none)
unfolding create_missing update_test_status_if_changed
create_missing-outcome_of name k now s = elim (Bool-cases (has_key name s.statuses)) [
  | inl there ↦ rw there (elim (Bool-cases (name == k)) [
    | inl same ↦
        let e = eq_of_== name k same in
        let there' : has_key k s.statuses ≡ true =
          subst (λ j. has_key j s.statuses ≡ true) e there in
        rw there' refl
    | inr other ↦ rw other (outcome_of_absent k s)
  ])
  | inr absent ↦ rw absent (elim (Bool-cases (name == k)) [
    | inl same ↦
        let e = eq_of_== name k same in
        let absent' : has_key k s.statuses ≡ false =
          subst (λ j. has_key j s.statuses ≡ false) e absent in
        rw (absent', same)
          (subst
            (λ j.
              Option.map outcome
                (lookup j (write_back name (updated_entry name pending "Pending" now s) s).statuses)
              ≡ some (pending_outcome now))
            e
            (rw (lookup-write_back name (updated_entry name pending "Pending" now s) s)
              (ap some (fresh-outcome name now s (lookup-eq_of_absent name s.statuses absent)))))
    | inr other ↦
        rw (lookup-write_back_ne name k (updated_entry name pending "Pending" now s) s other, other)
          (outcome_of_absent k s)
  ])
]

init_one-outcome_of :
    (k : String) (run_after_map : Dict (List String)) (now : ℕ) (scenario : Scenario) (s : Statuses)
    → outcome_of k (init_one run_after_map now scenario s)
      ≡ outcome_of k (create_missing scenario.name now s)
unfolding init_one set_test_detail_optional
init_one-outcome_of k run_after_map now scenario s =
    let name = scenario.name in
    let optional = is_scenario_optional scenario in
    let s₁ = create_missing name now s in
    give_run_after-outcome_of k name (lookup name run_after_map)
      (alter name (put_optional optional) s₁)
    ∙ alter-outcome_of name k (put_optional optional) s₁ (put_optional-KeepsOutcome optional)

init_one-has_key :
    (k : String) (run_after_map : Dict (List String)) (now : ℕ) (scenario : Scenario) (s : Statuses)
    → has_key k (init_one run_after_map now scenario s).statuses
      ≡ (scenario.name == k || has_key k s.statuses)
unfolding init_all
init_one-has_key k run_after_map now scenario s =
    ground (arith, init_all-has_key k run_after_map now (scenario ∷ []) s)

init_all-outcome_of :
    (k : String) (run_after_map : Dict (List String)) (now : ℕ) (scenarios : List Scenario)
    (s : Statuses)
    → outcome_of k (init_all run_after_map now scenarios s) ≡ (
        if has_key k s.statuses
        then outcome_of k s
        else if contains (names scenarios) k
        then some (pending_outcome now)
        else none)
unfolding init_all
init_all-outcome_of k run_after_map now [] s = outcome_of_absent k s
init_all-outcome_of k run_after_map now (scenario ∷ scenarios) s = ground (
  arith,
  init_all-outcome_of k run_after_map now scenarios (init_one run_after_map now scenario s),
  init_one-has_key k run_after_map now scenario s,
  init_one-outcome_of k run_after_map now scenario s,
  create_missing-outcome_of scenario.name k now s,
)

delete_unexpected-outcome_of :
    (expected : List String) (k : String) (d : Detail) (s : Statuses)
    → contains expected k ≡ true
    → outcome_of k (delete_unexpected expected (some d) s) ≡ outcome_of k s
unfolding delete_unexpected delete_status
delete_unexpected-outcome_of expected k d s h =
    elim (Bool-cases (contains expected d.scenario_name)) [
      | inl wanted ↦ rw wanted refl
      | inr old ↦ rw old (elim (Bool-cases (has_key d.scenario_name s.statuses)) [
        | inl there ↦ rw there (rw lookup-remove (rw (other_key old) refl))
        | inr absent ↦ rw absent refl
      ])
    ]
  where
    other_key : contains expected d.scenario_name ≡ false → (d.scenario_name == k) ≡ false
    other_key old = ground (arith, eq_iff d.scenario_name k)

prune_one-outcome_of :
    (expected : List String) (key k : String) (s : Statuses)
    → contains expected k ≡ true
    → outcome_of k (prune_one expected key s) ≡ outcome_of k s
unfolding prune_one
prune_one-outcome_of expected key k s h = elim (Option-cases (lookup key s.statuses)) [
  | inl missing ↦ rw missing (unfold delete_unexpected in refl)
  | inr (d, found) ↦ rw found (delete_unexpected-outcome_of expected k d s h)
]

prune_all-outcome_of :
    (expected rest : List String) (k : String) (s : Statuses)
    → IsValid s
    → contains expected k ≡ true
    → outcome_of k (prune_all expected rest s) ≡ outcome_of k s
unfolding prune_all
prune_all-outcome_of expected [] k s v h = refl
prune_all-outcome_of expected (key ∷ rest) k s v h =
    prune_all-outcome_of expected rest k (prune_one expected key s)
      (prune_one-IsValid expected key s v) h
    ∙ prune_one-outcome_of expected key k s h

-- `InitStatuses` on well-formed statuses, for a name of a given scenario: what the tests have written
-- into an entry that was there stays as it was, timestamps included, and an entry that was not there
-- is pending since `now` and has no times and no pipeline run.
pub init_statuses-outcome_of :
    (scenarios : List Scenario) (run_after_map : Dict (List String)) (now : ℕ) (s : Statuses)
    (k : String)
    → IsValid s
    → contains (names scenarios) k ≡ true
    → outcome_of k (init_statuses scenarios run_after_map now s)
      ≡ (if has_key k s.statuses then outcome_of k s else some (pending_outcome now))
unfolding init_statuses
init_statuses-outcome_of scenarios run_after_map now s k v h =
    let s' = init_all run_after_map now scenarios s in
    prune_all-outcome_of (names scenarios) (keys s'.statuses) k s'
      (init_all-IsValid run_after_map now scenarios s v) h
    ∙ init_all-outcome_of k run_after_map now scenarios s
    ∙ rw h refl
