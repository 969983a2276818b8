-- ===== src/Conditions/Decision.antt =====
-- Whether a Snapshot can be promoted, and the contexts that it is in.
use integration_service.Base.{
  Bool, Bool-cases, List, String, [], arith, false, inl, inr, not, refl, sym, true, ◌&&◌, ◌++◌, ◌∙◌,
  ◌∷◌, ◌≡◌,
}
use integration_service.Conditions.{
  Condition, Library, have_app_studio_tests_finished, have_app_studio_tests_succeeded,
  is_snapshot_valid,
}
use integration_service.Conditions.Machine.{
  IsLibrary, Mark, State, Verdict, apply_marks, failed, fresh, is_tested, marks_of, passed, run,
  undecided, untested,
}
use integration_service.Conditions.Agreement.{apply_marks-Agrees, is_invalid, is_passed}
use integration_service.Conditions.Promotion.{
  Meta, can_snapshot_be_promoted, is_context_valid_for_snapshot, is_group_snapshot,
  is_snapshot_auto_release_disabled, is_snapshot_created_by_pac_push_event, unless,
}

abbrev pub is_empty : List String → Bool
is_empty [] = true
is_empty (r ∷ l) = false

is_empty-append_one : (l : List String) (r : String) → is_empty (l ++ r ∷ []) ≡ false
is_empty-append_one [] r = refl
is_empty-append_one (s ∷ l) r = refl

abbrev auto_release_reason : String
auto_release_reason = "the Snapshot 'release.appstudio.openshift.io/auto-release' label is 'false'"

abbrev pull_request_reason : String
pull_request_reason = "the Snapshot was created for a PaC pull request event"

abbrev tests_reason : String
tests_reason = "the Snapshot hasn't passed all required integration tests"

module _ (lib : Library) where
  -- A result whose flag says whether it has no reasons.
  abbrev Tells : Bool → Bool × List String → Type 0
  Tells b x = (x.0 ≡ b) × (is_empty x.1 ≡ b)

  Tells-unless :
      (ok b : Bool) (reason : String) (x : Bool × List String)
      → Tells b x
      → Tells (ok && b) (unless lib ok reason x)
  Tells-unless true b reason x h = h
  Tells-unless false b reason x h = (refl, is_empty-append_one x.1 reason)

  -- The tests that matter once the tests of the Snapshot are finished.
  abbrev pub is_promotable : Meta → Bool
  is_promotable s =
      is_snapshot_created_by_pac_push_event lib s && not (is_snapshot_auto_release_disabled lib s)

  pub group-push :
      (s : Meta)
      → is_group_snapshot lib s ≡ true
      → is_snapshot_created_by_pac_push_event lib s ≡ false
  unfolding is_snapshot_created_by_pac_push_event
  group-push s group = rw (is_snapshot_created_by_pac_push_event, group) (ground arith)

  pub can_snapshot_be_promoted_lem :
      (s : Meta) (l : List Condition)
      → Tells
          (have_app_studio_tests_finished lib l
            && (not (is_group_snapshot lib s)
                && (not (is_snapshot_auto_release_disabled lib s)
                    && (is_snapshot_created_by_pac_push_event lib s
                        && (is_snapshot_valid lib l
                            && (have_app_studio_tests_succeeded lib l && true))))))
          (can_snapshot_be_promoted lib s l)
  unfolding can_snapshot_be_promoted
  can_snapshot_be_promoted_lem s l = elim (Bool-cases (have_app_studio_tests_finished lib l)) [
    | inr unfinished ↦ rw unfinished (refl, refl)
    | inl done ↦ rw done (
        Tells-unless (not (is_group_snapshot lib s))
          (not (is_snapshot_auto_release_disabled lib s)
            && (is_snapshot_created_by_pac_push_event lib s
                && (is_snapshot_valid lib l && (have_app_studio_tests_succeeded lib l && true))))
          "the Snapshot is group snapshot"
          (unless lib (not (is_snapshot_auto_release_disabled lib s)) auto_release_reason (
            unless lib (is_snapshot_created_by_pac_push_event lib s) pull_request_reason (
              unless lib (is_snapshot_valid lib l) "the Snapshot is invalid"
                (unless lib (have_app_studio_tests_succeeded lib l) tests_reason (true, [])))))
          (Tells-unless (not (is_snapshot_auto_release_disabled lib s))
            (is_snapshot_created_by_pac_push_event lib s
              && (is_snapshot_valid lib l && (have_app_studio_tests_succeeded lib l && true)))
            auto_release_reason
            (unless lib (is_snapshot_created_by_pac_push_event lib s) pull_request_reason (
              unless lib (is_snapshot_valid lib l) "the Snapshot is invalid"
                (unless lib (have_app_studio_tests_succeeded lib l) tests_reason (true, []))))
            (Tells-unless (is_snapshot_created_by_pac_push_event lib s)
              (is_snapshot_valid lib l && (have_app_studio_tests_succeeded lib l && true))
              pull_request_reason
              (unless lib (is_snapshot_valid lib l) "the Snapshot is invalid"
                (unless lib (have_app_studio_tests_succeeded lib l) tests_reason (true, [])))
              (Tells-unless (is_snapshot_valid lib l)
                (have_app_studio_tests_succeeded lib l && true) "the Snapshot is invalid"
                (unless lib (have_app_studio_tests_succeeded lib l) tests_reason (true, []))
                (Tells-unless (have_app_studio_tests_succeeded lib l) true tests_reason (true, [])
                  (refl, refl))))))
  ]

abbrev pub IsExact : Library → Meta → State → Bool × List String → Type 0
IsExact lib s m x =
    (x.0 ≡ (is_passed m.verdict && not (is_invalid m.phase) && is_promotable lib s))
    × (is_empty x.1 ≡ x.0)

decision :
    (v : Verdict) (group disabled push bad : Bool)
    → (group ≡ true → push ≡ false)
    → (is_tested v && (not group && (not disabled && (push && (not bad && (is_passed v && true))))))
      ≡ (is_passed v && not bad && (push && not disabled))
decision untested group disabled push bad h = refl
decision (undecided m) group disabled push bad h = refl
decision (passed m) true disabled push bad h = rw (h refl) (ground arith)
decision (passed m) false disabled push bad h = ground arith
decision (failed m) group disabled push bad h = ground arith

-- After any sequence of marks on a Snapshot without conditions: it can be promoted exactly when the last
-- verdict is that its tests passed, its phase is not invalid, it is from a push event, and its auto
-- release is not disabled; and a reason is given exactly when it cannot.
pub can_snapshot_be_promoted-IsExact :
    (lib : Library) (s : Meta) (marks : List (Mark × Bool))
    → IsLibrary lib
    → IsExact lib s
        (run (marks_of marks) fresh)
        (can_snapshot_be_promoted lib s (apply_marks lib marks []))
can_snapshot_be_promoted-IsExact lib s marks laws =
    let state = run (marks_of marks) fresh in
    let l = apply_marks lib marks [] in
    let agrees = apply_marks-Agrees lib marks laws in
    let told = can_snapshot_be_promoted_lem lib s l in
    let decided =
      told.0
      ∙ rw (agrees.2, agrees.3, agrees.7)
          (decision state.verdict (is_group_snapshot lib s)
            (is_snapshot_auto_release_disabled lib s) (is_snapshot_created_by_pac_push_event lib s)
            (is_invalid state.phase) (group-push lib s)) in
    (decided, told.1 ∙ sym told.0)

-- Every Snapshot is in exactly one of the contexts push and pull_request.
pub is_context_valid_for_snapshot-push :
    (lib : Library) (s : Meta)
    → is_context_valid_for_snapshot lib "pull_request" s
      ≡ not (is_context_valid_for_snapshot lib "push" s)
unfolding is_context_valid_for_snapshot
is_context_valid_for_snapshot-push lib s =
    elim (Bool-cases (is_snapshot_created_by_pac_push_event lib s)) [
      | inl push ↦ rw push refl
      | inr pull ↦ rw pull refl
    ]
