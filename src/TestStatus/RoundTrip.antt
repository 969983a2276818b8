-- ===== src/TestStatus/RoundTrip.antt =====
-- The list that is written to the snapshot, loaded again.
use integration_service.Base.{
  Bool-cases, IsNodup, String, [], arith, eq_iff, false, if◌then◌else◌, inl, inr, none, refl, ◌∙◌,
  ◌∷◌, ◌≡◌,
}
use integration_service.Base.Dict.{
  AllEntries, Dict, has_key, insert, keys, lookup, lookup-eq_of_absent, lookup-insert,
}
use integration_service.TestStatus.{
  Detail, Statuses, get_scenario_status, get_statuses, is_dirty, load_details, new_statuses, values,
}
use integration_service.TestStatus.Invariant.{IsEntry, IsValid}

load_details-lookup :
    (k : String) (m acc : Dict Detail)
    → AllEntries (λ name (d : Detail). d.scenario_name ≡ name) m
    → IsNodup (keys m)
    → lookup k (load_details (values m) acc) ≡ (if has_key k m then lookup k m else lookup k acc)
unfolding load_details values
load_details-lookup k [] acc named distinct = refl
load_details-lookup k ((j, d) ∷ m) acc named distinct = ground (
  arith,
  load_details-lookup k m (insert d.scenario_name d acc) named.1 distinct.1,
  lookup-insert d.scenario_name k d acc,
  eq_iff d.scenario_name k,
  eq_iff j k,
)

named_entries :
    (m : Dict Detail)
    → AllEntries IsEntry m
    → AllEntries (λ name (d : Detail). d.scenario_name ≡ name) m
named_entries [] v = tt
named_entries ((j, d) ∷ m) v = (v.0.named, named_entries m v.1)

-- Loading the details that well-formed statuses with distinct keys list gives statuses that are not
-- dirty and hold the same entry for every scenario, and none where there was none.
pub new-get_statuses :
    (s : Statuses) (k : String)
    → IsValid s
    → IsNodup (keys s.statuses)
    → (get_scenario_status k (new_statuses (get_statuses s)) ≡ get_scenario_status k s)
      × (is_dirty (new_statuses (get_statuses s)) ≡ false)
unfolding new_statuses get_statuses get_scenario_status is_dirty
new-get_statuses s k v distinct = (
  load_details-lookup k s.statuses [] (named_entries s.statuses v) distinct
      ∙ found_or_none s.statuses,
  refl,
)
  where
    found_or_none : (m : Dict Detail) → (if has_key k m then lookup k m else none) ≡ lookup k m
    found_or_none m = elim (Bool-cases (has_key k m)) [
      | inl there ↦ rw there refl
      | inr absent ↦ rw (absent, lookup-eq_of_absent k m absent) refl
    ]
