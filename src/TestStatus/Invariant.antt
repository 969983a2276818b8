-- ===== src/TestStatus/Invariant.antt =====
-- Every sequence of calls keeps the statuses well formed.
use integration_service.Base.{
  ==_self, ℕ, String, ◌≡◌, refl, sym, ◌∙◌, ◌≢◌, Bool, true, Option, none, some, List, ◌==◌, arith,
  inl, inr, Bool-cases, Option-cases, bool_eq, if_pos, if_neg,
}
use integration_service.Base.Dict.{
  lookup-insert, lookup, has_key, AllEntries, AllEntries-insert, AllEntries-remove,
  AllEntries-lookup,
}
use integration_service.TestStatus.{
  updated_entry, run_after_equal, Status, pending, in_progress, undefined, build_plr_in_progress,
  Status-discrete, Detail, Statuses, Marked, set_times, change_status, change_details, fresh_detail,
  begin_update, write_back, update_test_status_if_changed, put_optional, set_test_detail_optional,
  put_run_after, set_test_detail_run_after_list, put_pipeline_run_name,
  update_test_pipeline_run_name, reset_status, delete_status, alter,
}
use integration_service.TestStatus.Ops.{or_same, run}

-- A running test has a start and no completion, one that has not begun has neither, and any other
-- has a completion.
abbrev pub TimesFit : Status → Option ℕ → Option ℕ → Type 0
TimesFit in_progress start completion = (start ≢ none) × (completion ≡ none)
TimesFit pending start completion = (start ≡ none) × (completion ≡ none)
TimesFit build_plr_in_progress start completion = (start ≡ none) × (completion ≡ none)
TimesFit undefined start completion = ⊥
TimesFit _ start completion = completion ≢ none

pub record IsEntry (name : String) (d : Detail) : Type 0 where
  pub named : d.scenario_name ≡ name
  pub times : TimesFit d.status d.start_time d.completion_time

abbrev pub IsValid : Statuses → Type 0
IsValid s = AllEntries IsEntry s.statuses

-- An entry in the middle of an update: fresh, or well formed.
IsOpen : String → Detail → Type 0
IsOpen name d =
    (d.scenario_name ≡ name)
    × (d.status ≢ undefined → TimesFit d.status d.start_time d.completion_time)

set_times-fit :
    (status : Status) (now : ℕ) (d : Detail)
    → status ≢ undefined
    → TimesFit status (set_times status now d).start_time (set_times status now d).completion_time
set_times-fit pending now d h = (refl, refl)
set_times-fit undefined now d h = absurd (h refl)
set_times-fit _ now d h = ground arith

pub set_times-named :
    (status : Status) (now : ℕ) (d : Detail)
    → ((set_times status now d).scenario_name ≡ d.scenario_name)
      × ((set_times status now d).status ≡ d.status)
set_times-named pending now d = (refl, refl)
set_times-named _ now d = (refl, refl)

pub change_status_same :
    (status : Status) (now : ℕ) (d : Detail) (dirty : Bool)
    → d.status ≡ status
    → change_status status now (d, dirty) ≡ (d, dirty)
unfolding change_status
change_status_same status now d dirty e = if_pos (Status-discrete d.status status) e _ _

pub change_status_ne :
    (status : Status) (now : ℕ) (d : Detail) (dirty : Bool)
    → d.status ≢ status
    → change_status status now (d, dirty)
      ≡ (set_times status now (record d { status = status; last_update_time = now }), true)
unfolding change_status
change_status_ne status now d dirty n = if_neg (Status-discrete d.status status) n _ _

change_status-IsEntry :
    (name : String) (status : Status) (now : ℕ) (m : Marked)
    → status ≢ undefined
    → IsOpen name m.0
    → IsEntry name (change_status status now m).0
unfolding IsOpen
change_status-IsEntry name status now (d, dirty) h o = elim (Status-discrete d.status status) [
  | yes e ↦
      rw (change_status_same status now d dirty e)
        (record { named = o.0; times = o.1 (λ u. h (sym e ∙ u)) })
  | no n ↦
      let d' : Detail = record d { status = status; last_update_time = now } in
      let same = set_times-named status now d' in
      rw (change_status_ne status now d dirty n)
        (record { named = same.0 ∙ o.0; times = rw same.1 (set_times-fit status now d' h) })
]

change_details-IsEntry :
    (name details : String) (now : ℕ) (m : Marked)
    → IsEntry name m.0
    → IsEntry name (change_details details now m).0
unfolding change_details
change_details-IsEntry name details now (d, dirty) e = elim (Bool-cases (d.details == details)) [
  | inl same ↦ rw same e
  | inr other ↦ rw other (record { named = e.named; times = e.times })
]

begin_update-IsOpen :
    (name details : String) (now : ℕ) (s : Statuses)
    → IsValid s
    → IsOpen name (begin_update name details now s).0
unfolding begin_update fresh_detail IsOpen
begin_update-IsOpen name details now s v = elim (Option-cases (lookup name s.statuses)) [
  | inl missing ↦ rw (missing, begin_update) (refl, λ h. absurd (h refl))
  | inr (d, found) ↦
      let e = AllEntries-lookup IsEntry name d s.statuses v found in
      rw (found, begin_update) (e.named, λ _. e.times)
]

write_back-IsValid :
    (name : String) (m : Marked) (s : Statuses)
    → IsEntry name m.0
    → IsValid s
    → IsValid (write_back name m s)
unfolding write_back
write_back-IsValid name (d, dirty) s e v = AllEntries-insert IsEntry name d s.statuses e v

pub updated_entry-IsEntry :
    (name : String) (status : Status) (details : String) (now : ℕ) (s : Statuses)
    → status ≢ undefined
    → IsValid s
    → IsEntry name (updated_entry name status details now s).0
unfolding updated_entry
updated_entry-IsEntry name status details now s h v =
    let m = begin_update name details now s in
    change_details-IsEntry name details now (change_status status now m)
      (change_status-IsEntry name status now m h (begin_update-IsOpen name details now s v))

pub update-IsValid :
    (name : String) (status : Status) (details : String) (now : ℕ) (s : Statuses)
    → status ≢ undefined
    → IsValid s
    → IsValid (update_test_status_if_changed name status details now s)
unfolding update_test_status_if_changed
update-IsValid name status details now s h v =
    write_back-IsValid name (updated_entry name status details now s) s
      (updated_entry-IsEntry name status details now s h v) v

-- A change of one entry that keeps its name, its status and its times.
abbrev KeepsEntry : (Marked → Marked) → Type 0
KeepsEntry f = (name : String) (m : Marked) → IsEntry name m.0 → IsEntry name (f m).0

alter-IsValid :
    (name : String) (f : Marked → Marked) (s : Statuses)
    → KeepsEntry f
    → IsValid s
    → IsValid (alter name f s)
alter-IsValid name f s keeps v = elim (Option-cases (lookup name s.statuses)) [
  | inl missing ↦ rw (missing, alter) v
  | inr (d, found) ↦
      rw (found, alter)
        (write_back-IsValid name _ s
          (keeps name (d, s.dirty) (AllEntries-lookup IsEntry name d s.statuses v found)) v)
]

put_optional-KeepsEntry : (optional : Bool) → KeepsEntry (put_optional optional)
unfolding put_optional
put_optional-KeepsEntry optional name (d, dirty) e =
    elim (Bool-cases (bool_eq d.is_optional_scenario optional)) [
      | inl same ↦ rw same e
      | inr other ↦ rw other (record { named = e.named; times = e.times })
    ]

put_run_after-KeepsEntry : (run_after : List String) → KeepsEntry (put_run_after run_after)
unfolding put_run_after
put_run_after-KeepsEntry run_after name (d, dirty) e =
    elim (Bool-cases (run_after_equal d.run_after run_after)) [
      | inl same ↦ rw same e
      | inr other ↦ rw other (record { named = e.named; times = e.times })
    ]

put_pipeline_run_name-KeepsEntry : (run : String) → KeepsEntry (put_pipeline_run_name run)
unfolding put_pipeline_run_name
put_pipeline_run_name-KeepsEntry run name (d, dirty) e =
    elim (Bool-cases (d.test_pipeline_run_name == run)) [
      | inl same ↦ rw same e
      | inr other ↦ rw other (record { named = e.named; times = e.times })
    ]

-- The update leaves an entry at its name, so the pointer that `ResetStatus` writes through is there.
pub lookup-write_back :
    (name : String) (m : Marked) (s : Statuses)
    → lookup name (write_back name m s).statuses ≡ some m.0
unfolding write_back
lookup-write_back name (d, dirty) s = rw lookup-insert (rw ==_self refl)

pub lookup-update :
    (name : String) (status : Status) (details : String) (now : ℕ) (s : Statuses)
    → lookup name (update_test_status_if_changed name status details now s).statuses
      ≡ some (updated_entry name status details now s).0
unfolding update_test_status_if_changed
lookup-update name status details now s =
    lookup-write_back name (updated_entry name status details now s) s

abbrev pub reset_entry : String → Bool → ℕ → Statuses → Marked
reset_entry name optional now s =
    let d = (updated_entry name pending "Pending" now s).0 in
    (record d { test_pipeline_run_name = ""; is_optional_scenario = optional }, true)

pub reset_status_lem :
    (name : String) (optional : Bool) (now : ℕ) (s : Statuses)
    → reset_status name optional now s
      ≡ some (
          write_back name
            (reset_entry name optional now s)
            (update_test_status_if_changed name pending "Pending" now s))
unfolding reset_status
reset_status_lem name optional now s = rw (lookup-update name pending "Pending" now s, reset_status)

pub reset_status-IsValid :
    (name : String) (optional : Bool) (now : ℕ) (s : Statuses)
    → IsValid s
    → IsValid (or_same s (reset_status name optional now s))
reset_status-IsValid name optional now s v =
    let e = updated_entry-IsEntry name pending "Pending" now s (λ h. cc) v in
    rw (reset_status_lem name optional now s) (
      write_back-IsValid name (reset_entry name optional now s)
        (update_test_status_if_changed name pending "Pending" now s)
        (record { named = e.named; times = e.times })
        (update-IsValid name pending "Pending" now s (λ h. cc) v))

pub set_pipeline_run_name-IsValid :
    (name run : String) (s : Statuses)
    → IsValid s
    → IsValid (or_same s (update_test_pipeline_run_name name run s))
unfolding update_test_pipeline_run_name
set_pipeline_run_name-IsValid name run s v = elim (Option-cases (lookup name s.statuses)) [
  | inl missing ↦ rw (missing, update_test_pipeline_run_name) v
  | inr (d, found) ↦
      rw (found, update_test_pipeline_run_name)
        (write_back-IsValid name (put_pipeline_run_name run (d, s.dirty)) s
          (put_pipeline_run_name-KeepsEntry run name (d, s.dirty)
            (AllEntries-lookup IsEntry name d s.statuses v found))
          v)
]

pub delete_status-IsValid :
    (name : String) (s : Statuses) → IsValid s → IsValid (delete_status name s)
unfolding delete_status
delete_status-IsValid name s v = elim (Bool-cases (has_key name s.statuses)) [
  | inl there ↦ rw there (AllEntries-remove IsEntry name s.statuses v)
  | inr absent ↦ rw absent v
]

pub set_optional-IsValid :
    (name : String) (optional : Bool) (s : Statuses)
    → IsValid s
    → IsValid (set_test_detail_optional name optional s)
unfolding set_test_detail_optional
set_optional-IsValid name optional s v =
    alter-IsValid name (put_optional optional) s (put_optional-KeepsEntry optional) v

pub set_run_after-IsValid :
    (name : String) (run_after : List String) (s : Statuses)
    → IsValid s
    → IsValid (set_test_detail_run_after_list name run_after s)
unfolding set_test_detail_run_after_list
set_run_after-IsValid name run_after s v =
    alter-IsValid name (put_run_after run_after) s (put_run_after-KeepsEntry run_after) v
