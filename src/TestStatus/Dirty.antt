-- ===== src/TestStatus/Dirty.antt =====
-- The dirty flag tells the truth: while it is off, nothing has changed since it was last reset.
use integration_service.Base.{
  Bool, Bool-cases, List, Option, Option-cases, String, [], ap, arith, contains, false,
  if◌then◌else◌, inl, inr, none, refl, some, sym, true, ℕ, ◌||◌, ◌∙◌, ◌∷◌, ◌≡◌, ◌≢◌,
}
use integration_service.Base.Dict.{Dict, has_key, insert-lookup_self, keys, lookup}
use integration_service.TestStatus.{
  Detail, Marked, Scenario, Status, Statuses, alter, begin_update, change_details, change_status,
  create_missing, delete_status, delete_unexpected, fresh_detail, give_run_after, init_all,
  init_one, init_statuses, is_dirty, is_scenario_optional, names, pending, prune_all, prune_one,
  put_optional, put_pipeline_run_name, put_run_after, reset_status, set_test_detail_optional,
  set_test_detail_run_after_list, update_test_pipeline_run_name, update_test_status_if_changed,
  updated_entry, write_back,
}
use integration_service.TestStatus.Ops.{
  Op, apply, clear_dirty, delete, init, or_same, reset, run, set_optional, set_pipeline_run_name,
  set_run_after, update,
}
use integration_service.TestStatus.Invariant.{reset_entry, reset_status_lem}

-- What is clean afterwards is what was there before.
abbrev IsQuiet : (Statuses → Statuses) → Type 0
IsQuiet f = (s : Statuses) → (f s).dirty ≡ false → f s ≡ s

abbrev IsQuietEntry : (Marked → Marked) → Type 0
IsQuietEntry f = (m : Marked) → (f m).1 ≡ false → f m ≡ m

IsQuiet-then :
    {f g : Statuses → Statuses} (s : Statuses)
    → IsQuiet f
    → IsQuiet g
    → (g (f s)).dirty ≡ false
    → g (f s) ≡ s
IsQuiet-then {f} {g} s qf qg h =
    let e : g (f s) ≡ f s = qg (f s) h in e ∙ qf s (ap (λ (t : Statuses). t.dirty) (sym e) ∙ h)

pub write_back_same :
    (name : String) (d : Detail) (s : Statuses)
    → lookup name s.statuses ≡ some d
    → write_back name (d, s.dirty) s ≡ s
unfolding write_back
write_back_same name d s found =
    ap (λ (m : Dict Detail). record { statuses = m; dirty = s.dirty })
      (insert-lookup_self name d s.statuses found)

change_status-IsQuietEntry : (status : Status) (now : ℕ) → IsQuietEntry (change_status status now)
unfolding change_status
change_status-IsQuietEntry status now (d, dirty) h = ground arith

change_details-IsQuietEntry :
    (details : String) (now : ℕ) → IsQuietEntry (change_details details now)
unfolding change_details
change_details-IsQuietEntry details now (d, dirty) h = ground arith

put_optional-IsQuietEntry : (optional : Bool) → IsQuietEntry (put_optional optional)
unfolding put_optional
put_optional-IsQuietEntry optional (d, dirty) h = ground arith

put_run_after-IsQuietEntry : (run_after : List String) → IsQuietEntry (put_run_after run_after)
unfolding put_run_after
put_run_after-IsQuietEntry run_after (d, dirty) h = ground arith

put_pipeline_run_name-IsQuietEntry : (run : String) → IsQuietEntry (put_pipeline_run_name run)
unfolding put_pipeline_run_name
put_pipeline_run_name-IsQuietEntry run (d, dirty) h = ground arith

pub write_back-dirty :
    (name : String) (m : Marked) (s : Statuses) → (write_back name m s).dirty ≡ m.1
unfolding write_back
write_back-dirty name (d, dirty) s = refl

-- An entry that is written back clean by a quiet change of what was there is the same.
write_back-quiet :
    (name : String) (f : Marked → Marked) (d : Detail) (s : Statuses)
    → IsQuietEntry f
    → lookup name s.statuses ≡ some d
    → (write_back name (f (d, s.dirty)) s).dirty ≡ false
    → write_back name (f (d, s.dirty)) s ≡ s
write_back-quiet name f d s q found h =
    let e : f (d, s.dirty) ≡ (d, s.dirty) =
      q (d, s.dirty) (sym (write_back-dirty name (f (d, s.dirty)) s) ∙ h) in
    rw e (write_back_same name d s found)

alter-IsQuiet : (name : String) (f : Marked → Marked) → IsQuietEntry f → IsQuiet (alter name f)
alter-IsQuiet name f q s = elim (Option-cases (lookup name s.statuses)) [
  | inl missing ↦ rw (missing, alter) (λ h. refl)
  | inr (d, found) ↦ rw (found, alter) (write_back-quiet name f d s q found)
]

pub begin_update_found :
    (name details : String) (now : ℕ) (s : Statuses) (d : Detail)
    → lookup name s.statuses ≡ some d
    → begin_update name details now s ≡ (d, s.dirty)
unfolding begin_update
begin_update_found name details now s d found = rw (found, begin_update)

pub begin_update_missing :
    (name details : String) (now : ℕ) (s : Statuses)
    → lookup name s.statuses ≡ none
    → begin_update name details now s ≡ (fresh_detail name details now, true)
unfolding begin_update
begin_update_missing name details now s missing = rw (missing, begin_update)

-- The two changes of an update.
abbrev pub change_both : Status → String → ℕ → Marked → Marked
change_both status details now m = change_details details now (change_status status now m)

change_both-IsQuietEntry :
    (status : Status) (details : String) (now : ℕ) → IsQuietEntry (change_both status details now)
change_both-IsQuietEntry status details now m h =
    let m' = change_status status now m in
    let e : change_details details now m' ≡ m' = change_details-IsQuietEntry details now m' h in
    e ∙ change_status-IsQuietEntry status now m (ap (λ (x : Marked). x.1) (sym e) ∙ h)

update-IsQuiet :
    (name : String) (status : Status) (details : String) (now : ℕ)
    → IsQuiet (update_test_status_if_changed name status details now)
unfolding update_test_status_if_changed updated_entry
update-IsQuiet name status details now s = elim (Option-cases (lookup name s.statuses)) [
  | inl missing ↦
      rw (begin_update_missing name details now s missing)
        (λ h. absurd (fresh_stays_dirty (sym (write_back-dirty name fresh s) ∙ h)))
  | inr (d, found) ↦ rw (begin_update_found name details now s d found) (
      write_back-quiet name (change_both status details now) d s
        (change_both-IsQuietEntry status details now) found)
]
  where
    begun : Marked
    begun = (fresh_detail name details now, true)

    fresh : Marked
    fresh = change_both status details now begun

    fresh_stays_dirty : fresh.1 ≢ false
    fresh_stays_dirty h =
        let e : fresh ≡ begun = change_both-IsQuietEntry status details now begun h in
        cc (ap (λ (x : Marked). x.1) e, h)

set_pipeline_run_name-IsQuiet :
    (name run : String) → IsQuiet (λ s. or_same s (update_test_pipeline_run_name name run s))
unfolding update_test_pipeline_run_name
set_pipeline_run_name-IsQuiet name run s = elim (Option-cases (lookup name s.statuses)) [
  | inl missing ↦ rw (missing, update_test_pipeline_run_name) (λ h. refl)
  | inr (d, found) ↦
      rw (found, update_test_pipeline_run_name)
        (write_back-quiet name (put_pipeline_run_name run) d s
          (put_pipeline_run_name-IsQuietEntry run) found)
]

-- A reset always leaves the flag on.
reset_status-IsQuiet :
    (name : String) (optional : Bool) (now : ℕ)
    → IsQuiet (λ s. or_same s (reset_status name optional now s))
reset_status-IsQuiet name optional now s =
    let s' = update_test_status_if_changed name pending "Pending" now s in
    rw (reset_status_lem name optional now s)
      (λ h. cc (write_back-dirty name (reset_entry name optional now s) s', h))

delete_status-IsQuiet : (name : String) → IsQuiet (delete_status name)
unfolding delete_status
delete_status-IsQuiet name s h = ground arith

create_missing-IsQuiet : (name : String) (now : ℕ) → IsQuiet (create_missing name now)
unfolding create_missing
create_missing-IsQuiet name now s = elim (Bool-cases (has_key name s.statuses)) [
  | inl there ↦ rw there (λ h. refl)
  | inr absent ↦ rw absent (update-IsQuiet name pending "Pending" now s)
]

set_optional-IsQuiet :
    (name : String) (optional : Bool) → IsQuiet (set_test_detail_optional name optional)
unfolding set_test_detail_optional
set_optional-IsQuiet name optional =
    alter-IsQuiet name (put_optional optional) (put_optional-IsQuietEntry optional)

set_run_after-IsQuiet :
    (name : String) (run_after : List String)
    → IsQuiet (set_test_detail_run_after_list name run_after)
unfolding set_test_detail_run_after_list
set_run_after-IsQuiet name run_after =
    alter-IsQuiet name (put_run_after run_after) (put_run_after-IsQuietEntry run_after)

give_run_after-IsQuiet :
    (name : String) (o : Option (List String)) → IsQuiet (give_run_after name o)
unfolding give_run_after
give_run_after-IsQuiet name (some run_after) = set_run_after-IsQuiet name run_after
give_run_after-IsQuiet name none = λ s h. refl

init_one-IsQuiet :
    (run_after_map : Dict (List String)) (now : ℕ) (scenario : Scenario)
    → IsQuiet (init_one run_after_map now scenario)
unfolding init_one
init_one-IsQuiet run_after_map now scenario s =
    let name = scenario.name in
    let optional = is_scenario_optional scenario in
    IsQuiet-then {f = λ t. set_test_detail_optional name optional (create_missing name now t)} s
      (λ t. IsQuiet-then t (create_missing-IsQuiet name now) (set_optional-IsQuiet name optional))
      (give_run_after-IsQuiet name (lookup name run_after_map))

init_all-IsQuiet :
    (run_after_map : Dict (List String)) (now : ℕ) (scenarios : List Scenario)
    → IsQuiet (init_all run_after_map now scenarios)
unfolding init_all
init_all-IsQuiet run_after_map now [] s = λ h. refl
init_all-IsQuiet run_after_map now (scenario ∷ scenarios) s =
    IsQuiet-then s (init_one-IsQuiet run_after_map now scenario)
      (init_all-IsQuiet run_after_map now scenarios)

delete_unexpected-IsQuiet :
    (expected : List String) (o : Option Detail) → IsQuiet (delete_unexpected expected o)
unfolding delete_unexpected
delete_unexpected-IsQuiet expected none s = λ h. refl
delete_unexpected-IsQuiet expected (some d) s =
    elim (Bool-cases (contains expected d.scenario_name)) [
      | inl wanted ↦ rw wanted (λ h. refl)
      | inr old ↦ rw old (delete_status-IsQuiet d.scenario_name s)
    ]

prune_all-IsQuiet : (expected rest : List String) → IsQuiet (prune_all expected rest)
unfolding prune_all prune_one
prune_all-IsQuiet expected [] s = λ h. refl
prune_all-IsQuiet expected (key ∷ rest) s =
    IsQuiet-then {f = λ t. delete_unexpected expected (lookup key t.statuses) t} s
      (λ t. delete_unexpected-IsQuiet expected (lookup key t.statuses) t)
      (prune_all-IsQuiet expected rest)

abbrev pub is_reset_dirty : Op → Bool
is_reset_dirty clear_dirty = true
is_reset_dirty _ = false

apply-IsQuiet : (op : Op) (now : ℕ) → is_reset_dirty op ≡ false → IsQuiet (apply op now)
unfolding apply init_statuses
apply-IsQuiet (update name status details) now h = update-IsQuiet name status details now
apply-IsQuiet (set_optional name optional) now h = set_optional-IsQuiet name optional
apply-IsQuiet (set_run_after name run_after) now h = set_run_after-IsQuiet name run_after
apply-IsQuiet (set_pipeline_run_name name value) now h = set_pipeline_run_name-IsQuiet name value
apply-IsQuiet (reset name optional) now h = reset_status-IsQuiet name optional now
apply-IsQuiet (delete name) now h = delete_status-IsQuiet name
apply-IsQuiet (init scenarios run_after_map) now h = λ s.
    IsQuiet-then {g = λ t. prune_all (names scenarios) (keys t.statuses) t} s
      (init_all-IsQuiet run_after_map now scenarios)
      (λ t. prune_all-IsQuiet (names scenarios) (keys t.statuses) t)
apply-IsQuiet clear_dirty now h = cc

-- Whether ResetDirty is among the calls.
abbrev pub resets_dirty : List (Op × ℕ) → Bool
resets_dirty [] = false
resets_dirty ((op, now) ∷ rest) = is_reset_dirty op || resets_dirty rest

-- The statuses that the last ResetDirty leaves, or those at the start if there is none.
abbrev pub at_last_reset : List (Op × ℕ) → Statuses → Statuses
at_last_reset [] s = s
at_last_reset ((op, now) ∷ rest) s =
    let later = at_last_reset rest (apply op now s) in
    if is_reset_dirty op || resets_dirty rest then later else s

run-IsQuiet : (ops : List (Op × ℕ)) → resets_dirty ops ≡ false → IsQuiet (run ops)
unfolding run
run-IsQuiet [] h = λ s k. refl
run-IsQuiet ((op, now) ∷ rest) h = λ s.
    IsQuiet-then {g = run rest} s (apply-IsQuiet op now (ground arith))
      (run-IsQuiet rest (ground arith))

-- If the statuses are not dirty after any sequence of calls, then they are those that the last
-- ResetDirty left, or those at the start if there was none: neither an entry nor the flag has changed
-- since.
pub run_clean :
    (ops : List (Op × ℕ)) (s : Statuses)
    → is_dirty (run ops s) ≡ false
    → run ops s ≡ at_last_reset ops s
unfolding run is_dirty
run_clean [] s h = refl
run_clean ((op, now) ∷ rest) s h = elim (Bool-cases (is_reset_dirty op || resets_dirty rest)) [
  | inl some_reset ↦ rw some_reset (run_clean rest (apply op now s) h)
  | inr no_reset ↦ rw no_reset (run-IsQuiet ((op, now) ∷ rest) no_reset s h)
]
