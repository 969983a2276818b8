-- ===== src/TestStatus/Contents.antt =====
-- Which scenarios the statuses hold after `InitStatuses`.
use integration_service.Base.{
  Bool-cases, List, Option, Option-cases, String, [], arith, contains, eq_iff, inl, inr, none, not,
  refl, some, ℕ, ◌&&◌, ◌==◌, ◌||◌, ◌∷◌, ◌≡◌,
}
use integration_service.Base.Dict.{
  AllEntries-lookup, Dict, has_key, has_key-eq_of_lookup, has_key-eq_of_missing, keys, keys-insert,
  keys-remove, lookup,
}
use integration_service.TestStatus.{
  Marked, Scenario, Status, Statuses, alter, create_missing, delete_status, delete_unexpected,
  give_run_after, init_all, init_one, init_statuses, is_scenario_optional, names, pending,
  prune_all, prune_one, put_optional, put_run_after, set_test_detail_optional,
  set_test_detail_run_after_list, update_test_status_if_changed, write_back,
}
use integration_service.TestStatus.Invariant.{IsEntry, IsValid}
use integration_service.TestStatus.Init.{init_all-IsValid, prune_one-IsValid}

pub alter-has_key :
    (name k : String) (f : Marked → Marked) (s : Statuses)
    → has_key k (alter name f s).statuses ≡ has_key k s.statuses
unfolding write_back
alter-has_key name k f s = elim (Option-cases (lookup name s.statuses)) [
  | inl missing ↦ rw (missing, alter) refl
  | inr (d, found) ↦
      let (d', dirty) = f (d, s.dirty) in
      rw (found, alter)
        (rw keys-insert
          (ground (arith, has_key-eq_of_lookup name d s.statuses found, eq_iff name k)))
]

update-has_key :
    (name k : String) (status : Status) (details : String) (now : ℕ) (s : Statuses)
    → has_key k (update_test_status_if_changed name status details now s).statuses
      ≡ (name == k || has_key k s.statuses)
unfolding update_test_status_if_changed write_back
update-has_key name k status details now s = keys-insert name k _ s.statuses

pub create_missing-has_key :
    (name k : String) (now : ℕ) (s : Statuses)
    → has_key k (create_missing name now s).statuses ≡ (name == k || has_key k s.statuses)
unfolding create_missing
create_missing-has_key name k now s = elim (Bool-cases (has_key name s.statuses)) [
  | inl there ↦ rw there (ground (arith, eq_iff name k))
  | inr absent ↦ rw absent (update-has_key name k pending "Pending" now s)
]

pub give_run_after-has_key :
    (name k : String) (o : Option (List String)) (s : Statuses)
    → has_key k (give_run_after name o s).statuses ≡ has_key k s.statuses
unfolding give_run_after set_test_detail_run_after_list
give_run_after-has_key name k (some run_after) s = alter-has_key name k (put_run_after run_after) s
give_run_after-has_key name k none s = refl

pub init_all-has_key :
    (k : String) (run_after_map : Dict (List String)) (now : ℕ) (scenarios : List Scenario)
    (s : Statuses)
    → has_key k (init_all run_after_map now scenarios s).statuses
      ≡ (contains (names scenarios) k || has_key k s.statuses)
unfolding init_all init_one set_test_detail_optional
init_all-has_key k run_after_map now [] s = refl
init_all-has_key k run_after_map now (scenario ∷ scenarios) s =
    let name = scenario.name in
    let optional = is_scenario_optional scenario in
    let s₁ = create_missing name now s in
    let s₂ = alter name (put_optional optional) s₁ in
    let s₃ = give_run_after name (lookup name run_after_map) s₂ in
    ground (
      arith,
      init_all-has_key k run_after_map now scenarios s₃,
      give_run_after-has_key name k (lookup name run_after_map) s₂,
      alter-has_key name k (put_optional optional) s₁,
      create_missing-has_key name k now s,
    )

delete_status-has_key :
    (name k : String) (s : Statuses)
    → has_key k (delete_status name s).statuses ≡ (not (name == k) && has_key k s.statuses)
unfolding delete_status
delete_status-has_key name k s = elim (Bool-cases (has_key name s.statuses)) [
  | inl there ↦ rw there (keys-remove name k s.statuses)
  | inr absent ↦ rw absent (ground (arith, eq_iff name k))
]

-- In well-formed statuses an entry that is not expected is deleted under its own key.
prune_one-has_key :
    (expected : List String) (key k : String) (s : Statuses)
    → IsValid s
    → has_key k (prune_one expected key s).statuses
      ≡ (has_key k s.statuses && (contains expected k || not (key == k)))
unfolding prune_one delete_unexpected
prune_one-has_key expected key k s v = elim (Option-cases (lookup key s.statuses)) [
  | inl missing ↦
      rw (missing, delete_unexpected)
        (ground (arith, has_key-eq_of_missing key s.statuses missing, eq_iff key k))
  | inr (d, found) ↦
      let named = (AllEntries-lookup IsEntry key d s.statuses v found).named in
      rw (found, delete_unexpected)
        (elim (Bool-cases (contains expected d.scenario_name)) [
          | inl wanted ↦ rw wanted (ground (arith, eq_iff key k))
          | inr old ↦
              rw old (ground (arith, delete_status-has_key d.scenario_name k s, eq_iff key k))
        ])
]

prune_all-has_key :
    (expected rest : List String) (k : String) (s : Statuses)
    → IsValid s
    → has_key k (prune_all expected rest s).statuses
      ≡ (has_key k s.statuses && (contains expected k || not (contains rest k)))
unfolding prune_all
prune_all-has_key expected [] k s v = ground arith
prune_all-has_key expected (key ∷ rest) k s v = ground (
  arith,
  prune_all-has_key expected rest k (prune_one expected key s) (prune_one-IsValid expected key s v),
  prune_one-has_key expected key k s v,
)

-- After `InitStatuses` on well-formed statuses there is an entry for a name exactly when one of the
-- given scenarios has that name.
pub init_statuses-has_key :
    (scenarios : List Scenario) (run_after_map : Dict (List String)) (now : ℕ) (s : Statuses)
    (k : String)
    → IsValid s
    → has_key k (init_statuses scenarios run_after_map now s).statuses
      ≡ contains (names scenarios) k
unfolding init_statuses
init_statuses-has_key scenarios run_after_map now s k v =
    let s' = init_all run_after_map now scenarios s in
    let v' = init_all-IsValid run_after_map now scenarios s v in
    ground (
      arith,
      prune_all-has_key (names scenarios) (keys s'.statuses) k s' v',
      init_all-has_key k run_after_map now scenarios s,
    )
