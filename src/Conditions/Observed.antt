-- ===== src/Conditions/Observed.antt =====
-- After any marks, what the code reads off the conditions is what the machine says.
use integration_service.Base.{
  Bool, Bool-cases, List, Option, String, [], ap, false, inl, inr, none, refl, some, subst, sym,
  true, ◌∙◌, ◌∷◌, ◌≡◌,
}
use integration_service.Conditions.{
  Condition, Library, app_studio_integration_status_condition, app_studio_test_succeeded_condition,
  condition, have_app_studio_tests_finished, is_decided, legacy_integration_status_condition,
  legacy_test_succeeded_condition, mark_snapshot_as_auto_released, mark_snapshot_as_canceled,
  mark_snapshot_as_failed, mark_snapshot_as_invalid, mark_snapshot_as_passed,
  mark_snapshot_integration_status_as_finished, mark_snapshot_integration_status_as_in_progress,
  parent_snapshots_created_condition, reset_snapshot_status_conditions,
  set_parent_snapshots_created_condition, set_snapshot_integration_status_as_error,
  snapshot_auto_released_condition,
}
use integration_service.Conditions.Machine.{
  IsLibrary, Mark, Phase, Represents, State, Verdict, apply_mark, apply_marks, begin, cancel,
  canceled, errored, fail, failed, finish, finished, fresh, in_progress, invalid, invalidate,
  is_tested, marks_of, parents_condition, pass, passed, phase_condition, release,
  released_condition, reset, run, set_error, set_parents, step, undecided, untested,
  verdict_condition,
}

module _ (lib : Library) (laws : IsLibrary lib) where
  pub finished-is_tested :
      (l : List Condition) (s : State)
      → Represents lib l s
      → have_app_studio_tests_finished lib l ≡ is_tested s.verdict
  unfolding have_app_studio_tests_finished
  finished-is_tested l s h =
      rw (have_app_studio_tests_finished, h.0)
        (go s.verdict (lib.find_status_condition l legacy_test_succeeded_condition) h.1)
    where
      go :
          (v : Verdict) (legacy : Option Condition)
          → legacy ≡ none
          → elim (verdict_condition v) [
            | none ↦ is_decided lib legacy
            | some c ↦ is_decided lib (some c)
          ]
            ≡ is_tested v
      go untested legacy e = ap (is_decided lib) e
      go (undecided m) legacy e = refl
      go (passed m) legacy e = refl
      go (failed m) legacy e = refl

  -- Setting a condition of a current type changes what is found for that type alone.
  set_verdict :
      (l : List Condition) (s : State) (status reason m : String) (v : Verdict)
      → some (condition app_studio_test_succeeded_condition status reason m) ≡ verdict_condition v
      → Represents lib l s
      → Represents lib
          (lib.set_status_condition
            (condition app_studio_test_succeeded_condition status reason m)
            l)
          (record s { verdict = v })
  set_verdict l s status reason m v value h = (
    laws.find-set (condition app_studio_test_succeeded_condition status reason m) l
          app_studio_test_succeeded_condition
        ∙ value,
    laws.find-set (condition app_studio_test_succeeded_condition status reason m) l
          legacy_test_succeeded_condition
        ∙ h.1,
    laws.find-set (condition app_studio_test_succeeded_condition status reason m) l
          app_studio_integration_status_condition
        ∙ h.2,
    laws.find-set (condition app_studio_test_succeeded_condition status reason m) l
          legacy_integration_status_condition
        ∙ h.3,
    laws.find-set (condition app_studio_test_succeeded_condition status reason m) l
          snapshot_auto_released_condition
        ∙ h.4,
    laws.find-set (condition app_studio_test_succeeded_condition status reason m) l
          parent_snapshots_created_condition
        ∙ h.5,
  )

  set_phase :
      (l : List Condition) (s : State) (status reason m : String) (v : Phase)
      → some (condition app_studio_integration_status_condition status reason m) ≡ phase_condition v
      → Represents lib l s
      → Represents lib
          (lib.set_status_condition
            (condition app_studio_integration_status_condition status reason m)
            l)
          (record s { phase = v })
  set_phase l s status reason m v value h = (
    laws.find-set (condition app_studio_integration_status_condition status reason m) l
          app_studio_test_succeeded_condition
        ∙ h.0,
    laws.find-set (condition app_studio_integration_status_condition status reason m) l
          legacy_test_succeeded_condition
        ∙ h.1,
    laws.find-set (condition app_studio_integration_status_condition status reason m) l
          app_studio_integration_status_condition
        ∙ value,
    laws.find-set (condition app_studio_integration_status_condition status reason m) l
          legacy_integration_status_condition
        ∙ h.3,
    laws.find-set (condition app_studio_integration_status_condition status reason m) l
          snapshot_auto_released_condition
        ∙ h.4,
    laws.find-set (condition app_studio_integration_status_condition status reason m) l
          parent_snapshots_created_condition
        ∙ h.5,
  )

  set_released :
      (l : List Condition) (s : State) (status reason m : String) (v : Option String)
      → some (condition snapshot_auto_released_condition status reason m) ≡ released_condition v
      → Represents lib l s
      → Represents lib
          (lib.set_status_condition (condition snapshot_auto_released_condition status reason m) l)
          (record s { released = v })
  set_released l s status reason m v value h = (
    laws.find-set (condition snapshot_auto_released_condition status reason m) l
          app_studio_test_succeeded_condition
        ∙ h.0,
    laws.find-set (condition snapshot_auto_released_condition status reason m) l
          legacy_test_succeeded_condition
        ∙ h.1,
    laws.find-set (condition snapshot_auto_released_condition status reason m) l
          app_studio_integration_status_condition
        ∙ h.2,
    laws.find-set (condition snapshot_auto_released_condition status reason m) l
          legacy_integration_status_condition
        ∙ h.3,
    laws.find-set (condition snapshot_auto_released_condition status reason m) l
          snapshot_auto_released_condition
        ∙ value,
    laws.find-set (condition snapshot_auto_released_condition status reason m) l
          parent_snapshots_created_condition
        ∙ h.5,
  )

  set_parent_flag :
      (l : List Condition) (s : State) (status reason m : String)
      (v : Option (String × String × String))
      → some (condition parent_snapshots_created_condition status reason m) ≡ parents_condition v
      → Represents lib l s
      → Represents lib
          (lib.set_status_condition
            (condition parent_snapshots_created_condition status reason m)
            l)
          (record s { parents = v })
  set_parent_flag l s status reason m v value h = (
    laws.find-set (condition parent_snapshots_created_condition status reason m) l
          app_studio_test_succeeded_condition
        ∙ h.0,
    laws.find-set (condition parent_snapshots_created_condition status reason m) l
          legacy_test_succeeded_condition
        ∙ h.1,
    laws.find-set (condition parent_snapshots_created_condition status reason m) l
          app_studio_integration_status_condition
        ∙ h.2,
    laws.find-set (condition parent_snapshots_created_condition status reason m) l
          legacy_integration_status_condition
        ∙ h.3,
    laws.find-set (condition parent_snapshots_created_condition status reason m) l
          snapshot_auto_released_condition
        ∙ h.4,
    laws.find-set (condition parent_snapshots_created_condition status reason m) l
          parent_snapshots_created_condition
        ∙ value,
  )

  reset-eq_of_tested :
      (m : String) (patched : Bool) (l : List Condition)
      → have_app_studio_tests_finished lib l ≡ true
      → (reset_snapshot_status_conditions lib patched m l).0
        ≡ lib.set_status_condition
            (condition app_studio_test_succeeded_condition "Unknown" "InProgress" m)
            (lib.set_status_condition
              (condition app_studio_integration_status_condition "Unknown" "InProgress" m)
              l)
  unfolding reset_snapshot_status_conditions
  reset-eq_of_tested m patched l done = rw (reset_snapshot_status_conditions, done) refl

  reset-eq_of_open :
      (m : String) (patched : Bool) (l : List Condition)
      → have_app_studio_tests_finished lib l ≡ false
      → (reset_snapshot_status_conditions lib patched m l).0 ≡ l
  unfolding reset_snapshot_status_conditions
  reset-eq_of_open m patched l not_done = rw (reset_snapshot_status_conditions, not_done) refl

  Represents-apply_mark :
      (m : Mark) (patched : Bool) (l : List Condition) (s : State)
      → Represents lib l s
      → Represents lib (apply_mark lib patched m l) (step m s)
  unfolding mark_snapshot_as_passed mark_snapshot_as_failed mark_snapshot_as_canceled
      mark_snapshot_as_invalid set_snapshot_integration_status_as_error
      mark_snapshot_integration_status_as_in_progress mark_snapshot_integration_status_as_finished
      mark_snapshot_as_auto_released set_parent_snapshots_created_condition
  Represents-apply_mark (pass m) patched l s h = set_verdict l s "True" "Passed" m (passed m) refl h
  Represents-apply_mark (fail m) patched l s h =
      set_verdict l s "False" "Failed" m (failed m) refl h
  Represents-apply_mark (cancel m) patched l s h =
      set_phase l s "True" "Canceled" m (canceled m) refl h
  Represents-apply_mark (invalidate m) patched l s h =
      set_phase l s "False" "Invalid" m (invalid m) refl h
  Represents-apply_mark (set_error m) patched l s h =
      set_phase l s "False" "ErrorOccured" m (errored m) refl h
  Represents-apply_mark (begin m) patched l s h =
      set_phase l s "Unknown" "InProgress" m (in_progress m) refl h
  Represents-apply_mark (finish m) patched l s h =
      set_phase l s "True" "Finished" m (finished m) refl h
  Represents-apply_mark (release m) patched l s h =
      set_released l s "True" "AutoReleased" m (some m) refl h
  Represents-apply_mark (set_parents status reason m) patched l s h =
      set_parent_flag l s status reason m (some (status, reason, m)) refl h
  Represents-apply_mark (reset m) patched l s h = elim (Bool-cases (is_tested s.verdict)) [
    | inl tested ↦
        subst (λ k. Represents lib k (step (reset m) s))
          (sym (reset-eq_of_tested m patched l (finished-is_tested l s h ∙ tested)))
          (rw tested (
            set_verdict
              (lib.set_status_condition
                (condition app_studio_integration_status_condition "Unknown" "InProgress" m) l)
              (record s { phase = in_progress m }) "Unknown" "InProgress" m (undecided m) refl
              (set_phase l s "Unknown" "InProgress" m (in_progress m) refl h)))
    | inr open_verdict ↦
        subst (λ k. Represents lib k (step (reset m) s))
          (sym (reset-eq_of_open m patched l (finished-is_tested l s h ∙ open_verdict)))
          (rw open_verdict h)
  ]

  pub Represents-apply_marks :
      (marks : List (Mark × Bool)) (l : List Condition) (s : State)
      → Represents lib l s
      → Represents lib (apply_marks lib marks l) (run (marks_of marks) s)
  Represents-apply_marks [] l s h = h
  Represents-apply_marks ((m, patched) ∷ marks) l s h =
      Represents-apply_marks marks (apply_mark lib patched m l) (step m s)
        (Represents-apply_mark m patched l s h)

  pub Represents-fresh : Represents lib [] fresh
  Represents-fresh = (
    laws.find-empty app_studio_test_succeeded_condition,
    laws.find-empty legacy_test_succeeded_condition,
    laws.find-empty app_studio_integration_status_condition,
    laws.find-empty legacy_integration_status_condition,
    laws.find-empty snapshot_auto_released_condition,
    laws.find-empty parent_snapshots_created_condition,
  )
