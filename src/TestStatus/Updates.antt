-- ===== src/TestStatus/Updates.antt =====
-- What an update leaves in its entry, and what it leaves alone.
use mathlib.Core.Option
use integration_service.Base.{
  Bool, Bool-cases, String, ap, arith, eq_iff, eq_of_==, false, inl, inr, refl, some, true, ℕ, ◌==◌,
  ◌∙◌, ◌≡◌, ◌≢◌, ◌⊎◌,
}
use integration_service.Base.Dict.{lookup, lookup-insert}
use integration_service.TestStatus.{
  Detail, Marked, Status, Status-discrete, Statuses, begin_update, change_details, change_status,
  get_scenario_status, is_dirty, pending, set_times, update_test_status_if_changed, updated_entry,
  write_back,
}
use integration_service.TestStatus.Invariant.{
  change_status_ne, change_status_same, lookup-update, lookup-write_back, set_times-named,
}
use integration_service.TestStatus.Dirty.{
  begin_update_found, change_both, write_back-dirty, write_back_same,
}

change_status_sets :
    (status : Status) (now : ℕ) (m : Marked) → (change_status status now m).0.status ≡ status
change_status_sets status now (d, dirty) = elim (Status-discrete d.status status) [
  | yes e ↦ rw (change_status_same status now d dirty e) e
  | no n ↦ rw (change_status_ne status now d dirty n) ((set_times-named status now _).1)
]

change_details_sets :
    (details : String) (now : ℕ) (m : Marked)
    → ((change_details details now m).0.details ≡ details)
      × ((change_details details now m).0.status ≡ m.0.status)
unfolding change_details
change_details_sets details now (d, dirty) = ground (arith, eq_iff d.details details)

pub lookup-write_back_ne :
    (name other : String) (m : Marked) (s : Statuses)
    → (name == other) ≡ false
    → lookup other (write_back name m s).statuses ≡ lookup other s.statuses
unfolding write_back
lookup-write_back_ne name other (d, dirty) s ne = rw lookup-insert (rw ne refl)

-- An update gives the scenario the status and the details that it is called with, whether the
-- scenario was there or not, and it leaves every other scenario's entry alone.
pub update_sets :
    (name : String) (status : Status) (details : String) (now : ℕ) (s : Statuses)
    → (d : Detail) × (get_scenario_status name
          (update_test_status_if_changed name status details now s)
        ≡ some d)
      × (d.status ≡ status)
      × (d.details ≡ details)
      × ((other : String)
          → (name == other) ≡ false
          → get_scenario_status other (update_test_status_if_changed name status details now s)
            ≡ get_scenario_status other s)
unfolding get_scenario_status
update_sets name status details now s =
    let m = begin_update name details now s in
    let m' = change_status status now m in
    let end = change_details_sets details now m' in
    (
      (updated_entry name status details now s).0,
      lookup-update name status details now s,
      unfold updated_entry in (end.1 ∙ change_status_sets status now m),
      unfold updated_entry in end.0,
      λ other ne.
          unfold update_test_status_if_changed in
          lookup-write_back_ne name other (updated_entry name status details now s) s ne,
    )

set_times-stamp :
    (status : Status) (now : ℕ) (d : Detail)
    → ((set_times status now d).last_update_time ≡ d.last_update_time)
      × ((set_times status now d).details ≡ d.details)
set_times-stamp pending now d = (refl, refl)
set_times-stamp _ now d = (refl, refl)

abbrev pub Differs : Status → String → Detail → Type 0
Differs status details d = (d.status ≢ status) ⊎ (d.details ≢ details)

change_both_stamps :
    (status : Status) (details : String) (now : ℕ) (d : Detail) (dirty : Bool)
    → (change_both status details now (d, dirty) ≡ (d, dirty))
        × (d.status ≡ status)
        × (d.details ≡ details)
      ⊎ Differs status details d
        × ((change_both status details now (d, dirty)).0.last_update_time ≡ now)
        × ((change_both status details now (d, dirty)).1 ≡ true)
unfolding change_details
change_both_stamps status details now d dirty = elim (Status-discrete d.status status) [
  | yes e ↦ rw (change_status_same status now d dirty e) (elim (Bool-cases (d.details == details)) [
    | inl same ↦ rw same (inl (refl, e, eq_of_== d.details details same))
    | inr other ↦ rw other (inr (inr (λ h. cc (other, (eq_iff d.details details).1 h)), refl, refl))
  ])
  | no n ↦
      let d' : Detail = record d { status = status; last_update_time = now } in
      let same = set_times-stamp status now d' in
      rw (change_status_ne status now d dirty n)
        (elim (Bool-cases ((set_times status now d').details == details)) [
          | inl e ↦ rw e (inr (inl n, same.0, refl))
          | inr e ↦ rw e (inr (inl n, refl, refl))
        ])
]

-- An update of a scenario that is there: if it changes neither the status nor the details, the whole
-- state stays as it is, the dirty flag included; otherwise the entry's time of the last update is
-- the time of the call, and the state is dirty.
pub update_stamps :
    (name : String) (status : Status) (details : String) (now : ℕ) (s : Statuses) (d : Detail)
    → get_scenario_status name s ≡ some d
    → (update_test_status_if_changed name status details now s ≡ s)
        × (d.status ≡ status)
        × (d.details ≡ details)
      ⊎ Differs status details d
        × (Option.map
              (λ (x : Detail). x.last_update_time)
              (get_scenario_status name (update_test_status_if_changed name status details now s))
            ≡ some now)
        × (is_dirty (update_test_status_if_changed name status details now s) ≡ true)
unfolding get_scenario_status is_dirty
update_stamps name status details now s d found =
    let m = change_both status details now (d, s.dirty) in
    let entry : updated_entry name status details now s ≡ m =
      unfold updated_entry in (rw (begin_update_found name details now s d found)) in
    let written : update_test_status_if_changed name status details now s ≡ write_back name m s =
      unfold update_test_status_if_changed in (rw entry) in
    rw written (elim (change_both_stamps status details now d s.dirty) [
      | inl (same, e, e') ↦ inl (rw same (write_back_same name d s found), e, e')
      | inr (differs, stamp, dirty) ↦ inr (
        differs,
        rw (lookup-write_back name m s) (ap some stamp),
        write_back-dirty name m s ∙ dirty,
      )
    ])
