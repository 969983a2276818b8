-- ===== src/Snapshot/Contents.antt =====
-- What a prepared Snapshot contains.
use integration_service.Base.{
  Bool, Bool-cases, List, Option-cases, String, [], arith, contains, contains-append, eq_of_==,
  false, inl, inr, ltb, not, refl, some, suc, true, zero, ℕ, ◌&&◌, ◌++◌, ◌+◌, ◌==◌, ◌||◌, ◌∷◌, ◌≡◌,
  ◌⊎◌,
}
use integration_service.Base.Dict.{
  AllEntries, AllEntries-insert, Dict, insert, lookup, lookup-insert,
}
use integration_service.Gcl.{
  ComponentGroup, ComponentReference, ComponentState, SnapshotComponent,
  get_component_version_string,
}
use integration_service.Snapshot.{
  Gathered, Nested, Services, append_version, collect, copied, copy_dict, failed, gather_entries,
  gather_entry, gathered, get_all_nested_snapshot_components,
  get_nested_component_groups_for_component_group, get_snapshot_components_from_gcl,
  get_spec_components_and_versions_map, is_group_kind, max_depth, nothing, spec_versions, then_with,
  versions_of, with_own,
}
use integration_service.Snapshot.Nesting.{Chain, IsIn}

abbrev pub IsEntry : ComponentState → List ComponentState → Type 0
IsEntry e [] = Bool.false ≡ true
IsEntry e (e' ∷ l) = (e ≡ e') ⊎ IsEntry e l

-- spec.components has the version of a component, of a kind that is no group.
abbrev pub lists_version : String → String → List ComponentReference → Bool
lists_version name version [] = false
lists_version name version (c ∷ components) =
    (not (is_group_kind c.kind) && c.name == name && c.component_version.name == version)
    || lists_version name version components

pub contains-spec_versions :
    (components : List ComponentReference) (m : Dict (List String)) (name version : String)
    → contains (versions_of (lookup name (spec_versions components m))) version
      ≡ (lists_version name version components || contains (versions_of (lookup name m)) version)
unfolding spec_versions
contains-spec_versions [] m name version = refl
contains-spec_versions (c ∷ components) m name version = elim (Bool-cases (is_group_kind c.kind)) [
  | inl group ↦ rw (group, contains-spec_versions components m name version) refl
  | inr single ↦
      let added = append_version c.name c.component_version.name m in
      let rest = contains-spec_versions components added name version in
      elim (Bool-cases (c.name == name)) [
        | inr other ↦
            rw
              (
                single,
                rest,
                lookup-insert c.name name
                    (versions_of (lookup c.name m) ++ c.component_version.name ∷ []) m,
                other,
              )
              refl
        | inl same ↦
            rw
              (
                single,
                rest,
                lookup-insert c.name name
                    (versions_of (lookup c.name m) ++ c.component_version.name ∷ []) m,
                same,
                contains-append (versions_of (lookup c.name m)) (c.component_version.name ∷ [])
                    version,
                eq_of_== c.name name same,
              )
              (ground arith)
      ]
]

abbrev pub component_of_entry : ComponentState → SnapshotComponent
component_of_entry e = record {
  name = e.name;
  version = e.version;
  container_image = e.last_promoted_image;
  git_source = some (e.url, e.last_promoted_commit);
}

module _ (Q : String → SnapshotComponent → Type 0) where
  AllEntries-copy_dict :
      (m src : Dict SnapshotComponent)
      → AllEntries Q m
      → AllEntries Q src
      → AllEntries Q (copy_dict m src)
  AllEntries-copy_dict m [] all more = all
  AllEntries-copy_dict m ((k, c) ∷ src) all more =
      AllEntries-copy_dict (insert k c m) src (AllEntries-insert Q k c m more.0 all) more.1

  -- What is gathered, if anything is, meets the predicate.
  abbrev pub OnSuccess : Nested → Type 0
  OnSuccess (failed e) = Unit
  OnSuccess (gathered r) = AllEntries Q r.valid

  OnSuccess-then_with :
      (v : Nested) (acc : Gathered) (next : Gathered → Nested)
      → AllEntries Q acc.valid
      → OnSuccess v
      → ((r : Gathered) → AllEntries Q r.valid → OnSuccess (next r))
      → OnSuccess (then_with v (λ r. next (copied acc r)))
  OnSuccess-then_with (failed e) acc next all good later = tt
  OnSuccess-then_with (gathered r) acc next all good later =
      later (copied acc r) (AllEntries-copy_dict acc.valid r.valid all good)

  OnSuccess-collect :
      (visit : ComponentGroup → Nested) (groups : List ComponentGroup) (acc : Gathered)
      → AllEntries Q acc.valid
      → ((i : ComponentGroup) → IsIn i groups → OnSuccess (visit i))
      → OnSuccess (collect visit groups acc)
  OnSuccess-collect visit [] acc all each = all
  OnSuccess-collect visit (g ∷ groups) acc all each =
      OnSuccess-then_with (visit g) acc (λ r. collect visit groups r) all (each g (inl refl))
        (λ r. λ more. OnSuccess-collect visit groups r more (λ i. λ within. each i (inr within)))

  OnSuccess-with_own :
      (own : Gathered) (n : Nested)
      → AllEntries Q own.valid
      → OnSuccess n
      → OnSuccess (with_own own n)
  OnSuccess-with_own own (failed e) all good = tt
  OnSuccess-with_own own (gathered r) all good = AllEntries-copy_dict r.valid own.valid good all

-- The component is that of an entry of a group, whose spec has the version.
abbrev pub IsPromotedIn : ComponentGroup → SnapshotComponent → Type 0
IsPromotedIn h c =
    (e : ComponentState) × IsEntry e h.global_candidate_list
    × (c ≡ component_of_entry e)
    × (lists_version e.name e.version h.components ≡ true)

module _ (services : Services) where
  gather_entry-AllEntries :
      (h : ComponentGroup) (e : ComponentState) (acc : Gathered)
      (Q : String → SnapshotComponent → Type 0)
      → (contains (versions_of (lookup e.name (get_spec_components_and_versions_map h))) e.version
            ≡ true
          → services.validate_image_digest e.last_promoted_image ≡ true
          → Q (get_component_version_string e.name e.version) (component_of_entry e))
      → AllEntries Q acc.valid
      → AllEntries Q
          (gather_entry services h.name (get_spec_components_and_versions_map h) e acc).valid
  unfolding gather_entry
  gather_entry-AllEntries h e acc Q good all =
      elim (Bool-cases (
        contains (versions_of (lookup e.name (get_spec_components_and_versions_map h)))
          e.version)) [
            | inr gone ↦ rw gone all
            | inl there ↦ elim (Bool-cases (e.last_promoted_image == "")) [
              | inl blank ↦ rw (there, blank) all
              | inr image ↦
                  elim (Bool-cases (services.validate_image_digest e.last_promoted_image)) [
                    | inr bad ↦ rw (there, image, bad) all
                    | inl fine ↦
                        rw (there, image, fine)
                          (AllEntries-insert Q (get_component_version_string e.name e.version)
                            (component_of_entry e) acc.valid (good there fine) all)
                  ]
            ]
          ]

  pub gather_entries-AllEntries :
      (h : ComponentGroup) (l : List ComponentState) (acc : Gathered)
      (Q : String → SnapshotComponent → Type 0)
      → ((e : ComponentState)
          → IsEntry e l
          → contains
              (versions_of (lookup e.name (get_spec_components_and_versions_map h)))
              e.version
            ≡ true
          → services.validate_image_digest e.last_promoted_image ≡ true
          → Q (get_component_version_string e.name e.version) (component_of_entry e))
      → AllEntries Q acc.valid
      → AllEntries Q
          (gather_entries services h.name (get_spec_components_and_versions_map h) l acc).valid
  unfolding gather_entries
  gather_entries-AllEntries h [] acc Q good all = all
  gather_entries-AllEntries h (e ∷ l) acc Q good all =
      gather_entries-AllEntries h l
        (gather_entry services h.name (get_spec_components_and_versions_map h) e acc) Q
        (λ e'. λ within. good e' (inr within))
        (gather_entry-AllEntries h e acc Q (good e (inl refl)) all)

  pub get_all-OnSuccess :
      (Q : String → SnapshotComponent → Type 0) (fuel : ℕ) (g : ComponentGroup) (used : List String)
      (depth : ℕ)
      → ((passed : List String) (h : ComponentGroup)
          → Chain services g passed h
          → AllEntries Q (get_snapshot_components_from_gcl services h).valid)
      → OnSuccess Q (get_all_nested_snapshot_components services fuel g used depth)
  unfolding get_all_nested_snapshot_components
  get_all-OnSuccess Q zero g used depth good = tt
  get_all-OnSuccess Q (suc fuel) g used depth good = elim (Bool-cases (contains used g.name)) [
    | inl seen ↦ rw seen tt
    | inr new ↦ elim (Bool-cases (ltb max_depth depth)) [
      | inl deep ↦ rw (new, deep) tt
      | inr high ↦
          elim (Option-cases (get_nested_component_groups_for_component_group services g)) [
            | inl absent ↦ rw (new, high, absent) tt
            | inr (groups, loaded) ↦
                let visit = λ (i : ComponentGroup).
                  get_all_nested_snapshot_components services fuel i (used ++ g.name ∷ [])
                    (depth + 1) in
                rw (new, high, loaded)
                  (OnSuccess-with_own Q (get_snapshot_components_from_gcl services g)
                    (collect visit groups nothing) (good [] g refl)
                    (OnSuccess-collect Q visit groups nothing tt (λ i. λ within.
                      get_all-OnSuccess Q fuel i (used ++ g.name ∷ []) (depth + 1) (λ passed. λ h.
                        λ chain.
                          good (g.name ∷ passed) h (refl, (groups, loaded, (i, within, chain)))))))
          ]
    ]
  ]
