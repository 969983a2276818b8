-- ===== src/Snapshot/Included.antt =====
-- A new component with a valid digest gets into the Snapshot.
use integration_service.Base.{
  ==_self, Bool, Bool-cases, List, Option-cases, String, [], false, inl, inr, refl, some, true, ◌+◌,
  ◌==◌, ◌∙◌, ◌∷◌, ◌≡◌,
}
use integration_service.Base.Dict.{insert, lookup-insert}
use integration_service.Gcl.{ComponentGroup, SnapshotComponent}
use integration_service.Snapshot.{
  Gathered, InvalidComponents, Nested, Services, failed, gathered,
  get_all_nested_snapshot_components, max_depth,
}
use integration_service.Snapshot.Prepare.{
  Prepared, Snapshot, and_then, annotate_invalid, annotate_source, components_of, finish_snapshot,
  invalid_message, join_invalid_component_names_and_versions, label_version,
  missing_valid_component, nesting_error, new_snapshot, own_snapshot, prepare_snapshot, prepared,
  rejected, upsert_new_component_image,
}
use integration_service.Snapshot.Sound.{IsNew, component_key}
use integration_service.Snapshot.Prepared.{IsNew-of_lookup}

module _ (services : Services) where
  -- The setters of metadata never fail.
  abbrev pub SettersSucceed : Type 0
  SettersSucceed =
      ((k v : String) → services.set_annotation k v ≡ true)
      × ((l : List (String × String)) → services.add_labels l ≡ true)
      × ((g : ComponentGroup) → services.set_controller_reference g ≡ true)

  abbrev pub is_gathered : Nested → Bool
  is_gathered (gathered r) = true
  is_gathered (failed e) = false

  abbrev HasComponents : List SnapshotComponent → Prepared → Type 0
  HasComponents components p = (s : Snapshot) × (p ≡ prepared s) × (s.components ≡ components)

  HasComponents-and_then :
      (components : List SnapshotComponent) (step : Snapshot → Prepared) (p : Prepared)
      → ((s : Snapshot) → HasComponents s.components (step s))
      → HasComponents components p
      → HasComponents components (and_then step p)
  HasComponents-and_then components step p each (s, done, same) =
      let next = each s in (next.0, rw done next.1, next.2 ∙ same)

  annotate_source-HasComponents :
      (c : SnapshotComponent) (s : Snapshot)
      → SettersSucceed
      → HasComponents s.components (annotate_source services c s)
  unfolding annotate_source
  annotate_source-HasComponents c s ok = elim (Option-cases c.git_source) [
    | inl absent ↦ rw absent (s, refl, refl)
    | inr (source, found) ↦
        rw (found, ok.0 "test.appstudio.openshift.io/source-repo-url" source.0)
          (record s { source_repo_url = some source.0 }, refl, refl)
  ]

  label_version-HasComponents :
      (c : SnapshotComponent) (s : Snapshot)
      → SettersSucceed
      → HasComponents s.components (label_version services c s)
  unfolding label_version
  label_version-HasComponents c s ok = elim (Bool-cases (c.version == "")) [
    | inl blank ↦ rw (blank, ok.1 []) (s, refl, refl)
    | inr version ↦
        rw (version, ok.1 (("build.konflux-ci.dev/version", c.version) ∷ []))
          (record s { version_label = some c.version }, refl, refl)
  ]

  annotate_invalid-HasComponents :
      (l : InvalidComponents) (s : Snapshot)
      → SettersSucceed
      → HasComponents s.components (annotate_invalid services l s)
  unfolding annotate_invalid
  annotate_invalid-HasComponents [] s ok = (s, refl, refl)
  annotate_invalid-HasComponents (i ∷ l) s ok =
      rw (ok.0 "test.appstudio.openshift.io/create-snapshot-status" (invalid_message (i ∷ l)))
        (record s { invalid_annotation = some (invalid_message (i ∷ l)) }, refl, refl)

  own_snapshot-HasComponents :
      (g : ComponentGroup) (s : Snapshot)
      → SettersSucceed
      → HasComponents s.components (own_snapshot services g s)
  unfolding own_snapshot
  own_snapshot-HasComponents g s ok = rw (ok.2 g) (s, refl, refl)

  finish_snapshot-HasComponents :
      (g : ComponentGroup) (new : SnapshotComponent) (acc : Gathered)
      → SettersSucceed
      → IsNew new (components_of acc.valid)
      → HasComponents (components_of acc.valid) (finish_snapshot services g new acc)
  unfolding finish_snapshot new_snapshot
  finish_snapshot-HasComponents g new acc ok among = go (components_of acc.valid) among
    where
      go :
          (l : List SnapshotComponent)
          → IsNew new l
          → HasComponents l (elim l [
            | [] ↦
                rejected
                  (missing_valid_component (join_invalid_component_names_and_versions acc.invalid))
            | c ∷ components ↦ and_then (own_snapshot services g) (
                and_then (annotate_invalid services acc.invalid) (
                  and_then
                    (label_version services new)
                    (annotate_source services new (new_snapshot g (c ∷ components)))))
          ])
      go [] among = cc
      go (c ∷ l) among =
          HasComponents-and_then (c ∷ l) (own_snapshot services g)
            (and_then (annotate_invalid services acc.invalid) (
              and_then (label_version services new)
                (annotate_source services new (new_snapshot g (c ∷ l)))))
            (λ s. own_snapshot-HasComponents g s ok)
            (HasComponents-and_then (c ∷ l) (annotate_invalid services acc.invalid)
              (and_then (label_version services new)
                (annotate_source services new (new_snapshot g (c ∷ l))))
              (λ s. annotate_invalid-HasComponents acc.invalid s ok)
              (HasComponents-and_then (c ∷ l) (label_version services new)
                (annotate_source services new (new_snapshot g (c ∷ l)))
                (λ s. label_version-HasComponents new s ok)
                (annotate_source-HasComponents new (new_snapshot g (c ∷ l)) ok)))

  upserted-IsNew :
      (new : SnapshotComponent) (acc : Gathered)
      → services.validate_image_digest new.container_image ≡ true
      → IsNew new (components_of (upsert_new_component_image services new acc).valid)
  unfolding upsert_new_component_image
  upserted-IsNew new acc fine = rw fine (
      IsNew-of_lookup (component_key new) new (insert (component_key new) new acc.valid) (
        rw
          (
            lookup-insert (component_key new) (component_key new) new acc.valid,
            ==_self (component_key new),
          )
          refl))

  -- Where the walk over the nested groups succeeds and the setters do not fail, a new component with a
  -- valid digest gives a Snapshot, and it is in it.
  pub prepare_snapshot-IsNew :
      (g : ComponentGroup) (new : SnapshotComponent)
      → SettersSucceed
      → services.validate_image_digest new.container_image ≡ true
      → is_gathered (get_all_nested_snapshot_components services (max_depth + 2) g [] 0) ≡ true
      → (s : Snapshot) × (prepare_snapshot services g new ≡ prepared s) × IsNew new s.components
  unfolding prepare_snapshot
  prepare_snapshot-IsNew g new ok fine walked =
      go (get_all_nested_snapshot_components services (max_depth + 2) g [] 0) walked
    where
      go :
          (n : Nested)
          → is_gathered n ≡ true
          → (s : Snapshot) × (elim n [
            | failed e ↦ rejected (nesting_error e)
            | gathered acc ↦
                finish_snapshot services g new (upsert_new_component_image services new acc)
          ]
              ≡ prepared s)
            × IsNew new s.components
      go (failed e) walked = cc
      go (gathered acc) walked =
          let among = upserted-IsNew new acc fine in
          let done =
            finish_snapshot-HasComponents g new (upsert_new_component_image services new acc) ok
              among in
          (done.0, done.1, rw done.2 among)
