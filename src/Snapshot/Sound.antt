-- ===== src/Snapshot/Sound.antt =====
-- The components of a prepared Snapshot, and where they come from.
use integration_service.Base.{
  Bool, Bool-cases, IsNodup, List, Option-cases, String, [], arith, contains, inl, inr, ltb, refl,
  suc, true, zero, ℕ, ◌++◌, ◌+◌, ◌∷◌, ◌≡◌, ◌⊎◌,
}
use integration_service.Base.Dict.{
  AllEntries, AllEntries-insert, Dict, IsNodup-insert, insert, keys,
}
use integration_service.Gcl.{ComponentGroup, SnapshotComponent, get_component_version_string}
use integration_service.Snapshot.{
  Gathered, Nested, Services, collect, copied, copy_dict, failed, gathered,
  get_all_nested_snapshot_components, get_nested_component_groups_for_component_group,
  get_snapshot_components_from_gcl, get_spec_components_and_versions_map, max_depth, nothing,
  then_with, with_own,
}
use integration_service.Snapshot.Nesting.{Chain}
use integration_service.Snapshot.Contents.{
  IsPromotedIn, contains-spec_versions, gather_entries-AllEntries, lists_version,
}
use integration_service.Snapshot.Prepare.{components_of, upsert_new_component_image}

abbrev pub EveryComponent : (SnapshotComponent → Type 0) → List SnapshotComponent → Type 0
EveryComponent P [] = Unit
EveryComponent P (c ∷ l) = P c × EveryComponent P l

abbrev pub component_key : SnapshotComponent → String
component_key c = get_component_version_string c.name c.version

abbrev pub component_keys : List SnapshotComponent → List String
component_keys [] = []
component_keys (c ∷ l) = component_key c ∷ component_keys l

abbrev pub IsNew : SnapshotComponent → List SnapshotComponent → Type 0
IsNew c [] = Bool.false ≡ true
IsNew c (new ∷ news) = (c ≡ new) ⊎ IsNew c news

IsNodup-copy_dict :
    (m src : Dict SnapshotComponent) → IsNodup (keys m) → IsNodup (keys (copy_dict m src))
IsNodup-copy_dict m [] h = h
IsNodup-copy_dict m ((k, c) ∷ src) h = IsNodup-copy_dict (insert k c m) src (IsNodup-insert k c m h)

abbrev pub NodupOnSuccess : Nested → Type 0
NodupOnSuccess (failed e) = Unit
NodupOnSuccess (gathered r) = IsNodup (keys r.valid)

NodupOnSuccess-then_with :
    (v : Nested) (next : Gathered → Nested)
    → ((r : Gathered) → NodupOnSuccess (next r))
    → NodupOnSuccess (then_with v next)
NodupOnSuccess-then_with (failed e) next h = tt
NodupOnSuccess-then_with (gathered r) next h = h r

NodupOnSuccess-collect :
    (visit : ComponentGroup → Nested) (groups : List ComponentGroup) (acc : Gathered)
    → IsNodup (keys acc.valid)
    → NodupOnSuccess (collect visit groups acc)
NodupOnSuccess-collect visit [] acc h = h
NodupOnSuccess-collect visit (g ∷ groups) acc h =
    NodupOnSuccess-then_with (visit g) (λ r. collect visit groups (copied acc r))
      (λ r.
        NodupOnSuccess-collect visit groups (copied acc r) (IsNodup-copy_dict acc.valid r.valid h))

NodupOnSuccess-with_own :
    (own : Gathered) (n : Nested) → NodupOnSuccess n → NodupOnSuccess (with_own own n)
NodupOnSuccess-with_own own (failed e) h = tt
NodupOnSuccess-with_own own (gathered r) h = IsNodup-copy_dict r.valid own.valid h

module _ (services : Services) where
  pub NodupOnSuccess-get_all :
      (fuel : ℕ) (g : ComponentGroup) (used : List String) (depth : ℕ)
      → NodupOnSuccess (get_all_nested_snapshot_components services fuel g used depth)
  unfolding get_all_nested_snapshot_components
  NodupOnSuccess-get_all zero g used depth = tt
  NodupOnSuccess-get_all (suc fuel) g used depth = elim (Bool-cases (contains used g.name)) [
    | inl seen ↦ rw seen tt
    | inr new ↦ elim (Bool-cases (ltb max_depth depth)) [
      | inl deep ↦ rw (new, deep) tt
      | inr high ↦
          elim (Option-cases (get_nested_component_groups_for_component_group services g)) [
            | inl absent ↦ rw (new, high, absent) tt
            | inr (groups, loaded) ↦
                let visit = λ (i : ComponentGroup).
                  get_all_nested_snapshot_components services fuel i (used ++ g.name ∷ [])
                    (depth + 1) in
                rw (new, high, loaded)
                  (NodupOnSuccess-with_own (get_snapshot_components_from_gcl services g)
                    (collect visit groups nothing) (NodupOnSuccess-collect visit groups nothing tt))
          ]
    ]
  ]

  -- The component comes from the candidate list of the group or of one that a chain of nested groups leads to.
  abbrev pub IsInherited : ComponentGroup → SnapshotComponent → Type 0
  IsInherited g c =
      (passed : List String) × (h : ComponentGroup) × Chain services g passed h × IsPromotedIn h c

  abbrev pub IsAdmitted : ComponentGroup → List SnapshotComponent → SnapshotComponent → Type 0
  IsAdmitted g news c =
      (services.validate_image_digest c.container_image ≡ true) × (IsNew c news ⊎ IsInherited g c)

  pub own-IsAdmitted :
      (g : ComponentGroup) (news : List SnapshotComponent) (passed : List String)
      (h : ComponentGroup)
      → Chain services g passed h
      → AllEntries
          (λ k. λ c. (k ≡ component_key c) × IsAdmitted g news c)
          (get_snapshot_components_from_gcl services h).valid
  unfolding get_snapshot_components_from_gcl get_spec_components_and_versions_map
  own-IsAdmitted g news passed h chain =
      gather_entries-AllEntries services h h.global_candidate_list nothing
        (λ k. λ c. (k ≡ component_key c) × IsAdmitted g news c)
        (λ e. λ within. λ there. λ fine.
          let promoted : lists_version e.name e.version h.components ≡ true =
            ground (arith, contains-spec_versions h.components [] e.name e.version) in
          (refl, (fine, inr (passed, h, chain, (e, within, refl, promoted)))))
        tt

  pub upsert-IsAdmitted :
      (g : ComponentGroup) (new : SnapshotComponent) (news : List SnapshotComponent)
      (acc : Gathered)
      → IsNew new news
      → AllEntries (λ k. λ c. (k ≡ component_key c) × IsAdmitted g news c) acc.valid
      → IsNodup (keys acc.valid)
      → AllEntries
          (λ k. λ c. (k ≡ component_key c) × IsAdmitted g news c)
          (upsert_new_component_image services new acc).valid
        × IsNodup (keys (upsert_new_component_image services new acc).valid)
  unfolding upsert_new_component_image
  upsert-IsAdmitted g new news acc among all nodup =
      elim (Bool-cases (services.validate_image_digest new.container_image)) [
        | inr bad ↦ rw bad (all, nodup)
        | inl fine ↦ rw fine (
          AllEntries-insert (λ k. λ c. (k ≡ component_key c) × IsAdmitted g news c)
              (component_key new) new acc.valid (refl, (fine, inl among)) all,
          IsNodup-insert (component_key new) new acc.valid nodup,
        )
      ]

-- The list of a map whose keys are those of its components.
pub components_of-component_keys :
    (P : SnapshotComponent → Type 0) (m : Dict SnapshotComponent)
    → AllEntries (λ k. λ c. (k ≡ component_key c) × P c) m
    → (component_keys (components_of m) ≡ keys m) × EveryComponent P (components_of m)
components_of-component_keys P [] all = (refl, tt)
components_of-component_keys P ((k, c) ∷ m) all =
    let rest = components_of-component_keys P m all.1 in
    (rw (all.0.0, rest.0) refl, (all.0.1, rest.1))
