-- ===== src/Conditions/Agreement.antt =====
-- The tests that the code makes on the conditions, as the machine has them.
use integration_service.Base.{
  Bool, List, Option, String, [], ap, arith, false, none, not, refl, some, true, ◌==◌, ◌||◌, ◌∙◌,
  ◌≡◌,
}
use integration_service.Conditions.{
  Condition, Library, app_studio_test_succeeded_condition, get_test_succeeded_condition,
  have_app_studio_tests_finished, have_app_studio_tests_succeeded, integration_status, is_decided,
  is_marked_as_canceled, is_snapshot_error, is_snapshot_integration_status_marked_as_finished,
  is_snapshot_marked_as_auto_released, is_snapshot_marked_as_failed, is_snapshot_marked_as_invalid,
  is_snapshot_marked_as_passed, is_snapshot_not_started, is_snapshot_valid,
  legacy_integration_status_condition, legacy_test_succeeded_condition, matches, or_legacy,
  parent_snapshots_created,
}
use integration_service.Conditions.Machine.{
  IsLibrary, Mark, Phase, Represents, State, Verdict, apply_marks, canceled, errored, failed,
  finished, fresh, in_progress, invalid, is_tested, marks_of, not_begun, parents_condition, passed,
  phase_condition, released_condition, run, undecided, untested, verdict_condition,
}
use integration_service.Conditions.Observed.{
  Represents-apply_marks, Represents-fresh, finished-is_tested,
}

abbrev pub is_passed : Verdict → Bool
is_passed (passed m) = true
is_passed _ = false

abbrev pub is_failed : Verdict → Bool
is_failed (failed m) = true
is_failed _ = false

abbrev pub is_in_progress : Phase → Bool
is_in_progress (in_progress m) = true
is_in_progress _ = false

abbrev pub is_canceled : Phase → Bool
is_canceled (canceled m) = true
is_canceled _ = false

abbrev pub is_invalid : Phase → Bool
is_invalid (invalid m) = true
is_invalid _ = false

-- Finished or canceled.
abbrev pub is_over : Phase → Bool
is_over (finished m) = true
is_over (canceled m) = true
is_over _ = false

-- There is nothing to read before the first mark.
abbrev pub error_of : Phase → Option Bool
error_of not_begun = none
error_of (errored m) = some true
error_of _ = some false

abbrev pub is_released : Option String → Bool
is_released none = false
is_released (some m) = true

abbrev pub are_created : Option (String × String × String) → Bool
are_created none = false
are_created (some (status, reason, m)) = status == "True"

abbrev pub Agrees : Library → List Condition → State → Type 0
Agrees lib l s =
    (is_snapshot_marked_as_passed lib l ≡ is_passed s.verdict)
    × (is_snapshot_marked_as_failed lib l ≡ is_failed s.verdict)
    × (have_app_studio_tests_finished lib l ≡ is_tested s.verdict)
    × (have_app_studio_tests_succeeded lib l ≡ is_passed s.verdict)
    × ((get_test_succeeded_condition lib l).1 ≡ is_tested s.verdict)
    × (is_snapshot_not_started lib l ≡ not (is_in_progress s.phase))
    × (is_snapshot_error lib l ≡ error_of s.phase)
    × (is_snapshot_valid lib l ≡ not (is_invalid s.phase))
    × (is_snapshot_marked_as_invalid lib l ≡ is_invalid s.phase)
    × (is_marked_as_canceled lib l ≡ is_canceled s.phase)
    × (is_snapshot_integration_status_marked_as_finished lib l ≡ is_over s.phase)
    × (is_snapshot_marked_as_auto_released lib l ≡ is_released s.released)
    × (parent_snapshots_created lib l ≡ are_created s.parents)

abbrev is_true : Option Condition → Bool
is_true none = false
is_true (some c) = c.status == "True"

or_legacy-none : (c : Option Condition) → or_legacy c none ≡ c
or_legacy-none none = refl
or_legacy-none (some c) = refl

module _ (lib : Library) (laws : IsLibrary lib) (l : List Condition) (s : State)
    (h : Represents lib l s) where
  tests_now :
      or_legacy
        (lib.find_status_condition l app_studio_test_succeeded_condition)
        (lib.find_status_condition l legacy_test_succeeded_condition)
      ≡ verdict_condition s.verdict
  tests_now =
      ap (λ c. or_legacy c (lib.find_status_condition l legacy_test_succeeded_condition)) h.0
      ∙ ap (or_legacy (verdict_condition s.verdict)) h.1
      ∙ or_legacy-none (verdict_condition s.verdict)

  phase_now : integration_status lib l ≡ phase_condition s.phase
  phase_now =
      ap (λ c. or_legacy c (lib.find_status_condition l legacy_integration_status_condition)) h.2
      ∙ ap (or_legacy (phase_condition s.phase)) h.3
      ∙ or_legacy-none (phase_condition s.phase)

  passed-eq : is_snapshot_marked_as_passed lib l ≡ is_passed s.verdict
  unfolding is_snapshot_marked_as_passed
  passed-eq = ap (λ (c : Option Condition). matches "True" "" c) tests_now ∙ go s.verdict
    where
      go : (x : Verdict) → matches "True" "" (verdict_condition x) ≡ is_passed x
      go untested = refl
      go (undecided m) = refl
      go (passed m) = refl
      go (failed m) = refl

  failed-eq : is_snapshot_marked_as_failed lib l ≡ is_failed s.verdict
  unfolding is_snapshot_marked_as_failed
  failed-eq = ap (λ (c : Option Condition). matches "False" "" c) tests_now ∙ go s.verdict
    where
      go : (x : Verdict) → matches "False" "" (verdict_condition x) ≡ is_failed x
      go untested = refl
      go (undecided m) = refl
      go (passed m) = refl
      go (failed m) = refl

  decided-eq : (get_test_succeeded_condition lib l).1 ≡ is_tested s.verdict
  unfolding get_test_succeeded_condition
  decided-eq = ap (λ (c : Option Condition). is_decided lib c) tests_now ∙ go s.verdict
    where
      go : (x : Verdict) → is_decided lib (verdict_condition x) ≡ is_tested x
      go untested = refl
      go (undecided m) = refl
      go (passed m) = refl
      go (failed m) = refl

  not_started-eq : is_snapshot_not_started lib l ≡ not (is_in_progress s.phase)
  unfolding is_snapshot_not_started
  not_started-eq =
      ap
        (λ (c : Option Condition). elim c [ none ↦ true | some d ↦ not (d.reason == "InProgress") ])
        phase_now
      ∙ go s.phase
    where
      go :
          (x : Phase)
          → elim (phase_condition x) [ none ↦ true | some d ↦ not (d.reason == "InProgress") ]
            ≡ not (is_in_progress x)
      go not_begun = refl
      go (in_progress m) = refl
      go (finished m) = refl
      go (canceled m) = refl
      go (invalid m) = refl
      go (errored m) = refl

  error-eq : is_snapshot_error lib l ≡ error_of s.phase
  unfolding is_snapshot_error
  error-eq =
      ap
        (λ (c : Option Condition). elim c [
          | none ↦ none
          | some d ↦ some (d.reason == "ErrorOccured")
        ])
        phase_now
      ∙ go s.phase
    where
      go :
          (x : Phase)
          → elim (phase_condition x) [ none ↦ none | some d ↦ some (d.reason == "ErrorOccured") ]
            ≡ error_of x
      go not_begun = refl
      go (in_progress m) = refl
      go (finished m) = refl
      go (canceled m) = refl
      go (invalid m) = refl
      go (errored m) = refl

  valid-eq : is_snapshot_valid lib l ≡ not (is_invalid s.phase)
  unfolding is_snapshot_valid
  valid-eq =
      ap (λ (c : Option Condition). elim c [ none ↦ true | some d ↦ not (d.reason == "Invalid") ])
        phase_now
      ∙ go s.phase
    where
      go :
          (x : Phase)
          → elim (phase_condition x) [ none ↦ true | some d ↦ not (d.reason == "Invalid") ]
            ≡ not (is_invalid x)
      go not_begun = refl
      go (in_progress m) = refl
      go (finished m) = refl
      go (canceled m) = refl
      go (invalid m) = refl
      go (errored m) = refl

  invalid-eq : is_snapshot_marked_as_invalid lib l ≡ is_invalid s.phase
  unfolding is_snapshot_marked_as_invalid
  invalid-eq = ap (λ (c : Option Condition). matches "False" "Invalid" c) phase_now ∙ go s.phase
    where
      go : (x : Phase) → matches "False" "Invalid" (phase_condition x) ≡ is_invalid x
      go not_begun = refl
      go (in_progress m) = refl
      go (finished m) = refl
      go (canceled m) = refl
      go (invalid m) = refl
      go (errored m) = refl

  canceled-eq : is_marked_as_canceled lib l ≡ is_canceled s.phase
  unfolding is_marked_as_canceled
  canceled-eq = ap (λ (c : Option Condition). matches "True" "Canceled" c) phase_now ∙ go s.phase
    where
      go : (x : Phase) → matches "True" "Canceled" (phase_condition x) ≡ is_canceled x
      go not_begun = refl
      go (in_progress m) = refl
      go (finished m) = refl
      go (canceled m) = refl
      go (invalid m) = refl
      go (errored m) = refl

  over-eq : is_snapshot_integration_status_marked_as_finished lib l ≡ is_over s.phase
  unfolding is_snapshot_integration_status_marked_as_finished
  over-eq =
      ap (λ (c : Option Condition). (matches "True" "Finished" c || matches "True" "Canceled" c))
        phase_now
      ∙ go s.phase
    where
      go :
          (x : Phase)
          → (matches "True" "Finished" (phase_condition x)
              || matches "True" "Canceled" (phase_condition x))
            ≡ is_over x
      go not_begun = refl
      go (in_progress m) = refl
      go (finished m) = refl
      go (canceled m) = refl
      go (invalid m) = refl
      go (errored m) = refl

  released-eq : is_snapshot_marked_as_auto_released lib l ≡ is_released s.released
  unfolding is_snapshot_marked_as_auto_released
  released-eq =
      ap (λ (c : Option Condition). matches "True" "" c)
        (ap (λ c. or_legacy c none) h.4 ∙ or_legacy-none (released_condition s.released))
      ∙ go s.released
    where
      go : (x : Option String) → matches "True" "" (released_condition x) ≡ is_released x
      go none = refl
      go (some m) = refl

  parents-eq : parent_snapshots_created lib l ≡ are_created s.parents
  unfolding parent_snapshots_created
  parents-eq =
      ap (λ (c : Option Condition). matches "True" "" c)
        (ap (λ c. or_legacy c none) h.5 ∙ or_legacy-none (parents_condition s.parents))
      ∙ go s.parents
    where
      go :
          (x : Option (String × String × String))
          → matches "True" "" (parents_condition x) ≡ are_created x
      go none = refl
      go (some (status, reason, m)) = ground arith

  succeeded-eq : have_app_studio_tests_succeeded lib l ≡ is_passed s.verdict
  unfolding have_app_studio_tests_succeeded
  succeeded-eq = rw (have_app_studio_tests_succeeded, h.0) (go s.verdict h.0)
    where
      go :
          (v : Verdict)
          → lib.find_status_condition l app_studio_test_succeeded_condition ≡ verdict_condition v
          → elim (verdict_condition v) [
            | none ↦ lib.is_status_condition_true l legacy_test_succeeded_condition
            | some c ↦ lib.is_status_condition_true l app_studio_test_succeeded_condition
          ]
            ≡ is_passed v
      go untested e = laws.true-find l legacy_test_succeeded_condition ∙ ap is_true h.1
      go (undecided m) e = laws.true-find l app_studio_test_succeeded_condition ∙ ap is_true e
      go (passed m) e = laws.true-find l app_studio_test_succeeded_condition ∙ ap is_true e
      go (failed m) e = laws.true-find l app_studio_test_succeeded_condition ∙ ap is_true e

  pub Agrees-of_Represents : Agrees lib l s
  Agrees-of_Represents = (
    passed-eq,
    failed-eq,
    finished-is_tested lib laws l s h,
    succeeded-eq,
    decided-eq,
    not_started-eq,
    error-eq,
    valid-eq,
    invalid-eq,
    canceled-eq,
    over-eq,
    released-eq,
    parents-eq,
  )

-- After any sequence of marks on a Snapshot without conditions, whatever the patches answer, each test
-- of the code on the conditions says what the state of the machine after these marks does.
pub apply_marks-Agrees :
    (lib : Library) (marks : List (Mark × Bool))
    → IsLibrary lib
    → Agrees lib (apply_marks lib marks []) (run (marks_of marks) fresh)
apply_marks-Agrees lib marks laws =
    Agrees-of_Represents lib laws (apply_marks lib marks []) (run (marks_of marks) fresh)
      (Represents-apply_marks lib laws marks [] fresh (Represents-fresh lib laws))
