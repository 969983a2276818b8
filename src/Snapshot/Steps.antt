-- ===== src/Snapshot/Steps.antt =====
-- The setters of labels, annotations and owners leave the components of a Snapshot as they are.
use integration_service.Base.{
  Bool, List, Option-cases, String, [], false, if◌then◌else◌, inl, inr, refl, some, subst, true,
  ◌==◌, ◌∷◌, ◌≡◌,
}
use integration_service.Gcl.{ComponentGroup, SnapshotComponent}
use integration_service.Snapshot.{Gathered, InvalidComponents, Services}
use integration_service.Snapshot.Prepare.{
  Prepared, Snapshot, and_then, annotate_child, annotate_invalid, annotate_only, annotate_source,
  annotation_error, components_of, finish_parent_snapshot, finish_snapshot, invalid_message,
  join_invalid_component_names_and_versions, label_error, label_version, missing_valid_component,
  new_snapshot, own_snapshot, owner_error, prepared, rejected,
}

-- A Snapshot, if the step gives one, has this group and these components.
abbrev pub Keeps : String → List SnapshotComponent → Prepared → Type 0
Keeps group components (rejected e) = Unit
Keeps group components (prepared s) = (s.component_group ≡ group) × (s.components ≡ components)

Keeps-and_then :
    (group : String) (components : List SnapshotComponent) (step : Snapshot → Prepared)
    (p : Prepared)
    → ((s : Snapshot) → Keeps s.component_group s.components (step s))
    → Keeps group components p
    → Keeps group components (and_then step p)
Keeps-and_then group components step (rejected e) each h = tt
Keeps-and_then group components step (prepared s) each h =
    subst (λ k. Keeps k components (step s)) h.0
      (subst (λ l. Keeps s.component_group l (step s)) h.1 (each s))

Keeps-if :
    (group : String) (components : List SnapshotComponent) (b : Bool) (p q : Prepared)
    → Keeps group components p
    → Keeps group components q
    → Keeps group components (if b then p else q)
Keeps-if group components true p q h k = h
Keeps-if group components false p q h k = k

module _ (services : Services) where
  annotate_source-Keeps :
      (c : SnapshotComponent) (s : Snapshot)
      → Keeps s.component_group s.components (annotate_source services c s)
  unfolding annotate_source
  annotate_source-Keeps c s = elim (Option-cases c.git_source) [
    | inl absent ↦ rw absent (refl, refl)
    | inr (source, found) ↦ rw found (
        Keeps-if s.component_group s.components
          (services.set_annotation "test.appstudio.openshift.io/source-repo-url" source.0)
          (prepared (record s { source_repo_url = some source.0 }))
          (rejected (annotation_error "test.appstudio.openshift.io/source-repo-url")) (refl, refl)
          tt)
  ]

  label_version-Keeps :
      (c : SnapshotComponent) (s : Snapshot)
      → Keeps s.component_group s.components (label_version services c s)
  unfolding label_version
  label_version-Keeps c s =
      Keeps-if s.component_group s.components (c.version == "")
        (if services.add_labels [] then prepared s else rejected label_error)
        (if services.add_labels (("build.konflux-ci.dev/version", c.version) ∷ [])
          then prepared (record s { version_label = some c.version })
          else rejected label_error)
        (Keeps-if s.component_group s.components (services.add_labels []) (prepared s)
          (rejected label_error) (refl, refl) tt)
        (Keeps-if s.component_group s.components
          (services.add_labels (("build.konflux-ci.dev/version", c.version) ∷ []))
          (prepared (record s { version_label = some c.version })) (rejected label_error)
          (refl, refl) tt)

  annotate_invalid-Keeps :
      (i : InvalidComponents) (s : Snapshot)
      → Keeps s.component_group s.components (annotate_invalid services i s)
  unfolding annotate_invalid
  annotate_invalid-Keeps [] s = (refl, refl)
  annotate_invalid-Keeps (i ∷ invalid) s =
      Keeps-if s.component_group s.components
        (services.set_annotation "test.appstudio.openshift.io/create-snapshot-status"
          (invalid_message (i ∷ invalid)))
        (prepared (record s { invalid_annotation = some (invalid_message (i ∷ invalid)) }))
        (rejected (annotation_error "test.appstudio.openshift.io/create-snapshot-status"))
        (refl, refl) tt

  own_snapshot-Keeps :
      (g : ComponentGroup) (s : Snapshot)
      → Keeps s.component_group s.components (own_snapshot services g s)
  unfolding own_snapshot
  own_snapshot-Keeps g s =
      Keeps-if s.component_group s.components (services.set_controller_reference g) (prepared s)
        (rejected owner_error) (refl, refl) tt

  annotate_child-Keeps :
      (child : String) (s : Snapshot)
      → Keeps s.component_group s.components (annotate_child services child s)
  unfolding annotate_child
  annotate_child-Keeps child s =
      Keeps-if s.component_group s.components
        (services.set_annotation "test.appstudio.openshift.io/child-snapshot" child)
        (prepared (record s { child_snapshot = some child }))
        (rejected (annotation_error "test.appstudio.openshift.io/child-snapshot")) (refl, refl) tt

  annotate_only-Keeps :
      (news : List SnapshotComponent) (s : Snapshot)
      → Keeps s.component_group s.components (annotate_only services news s)
  unfolding annotate_only
  annotate_only-Keeps [] s = (refl, refl)
  annotate_only-Keeps (c ∷ []) s = annotate_source-Keeps c s
  annotate_only-Keeps (c ∷ d ∷ news) s = (refl, refl)

  pub finish_snapshot-Keeps :
      (g : ComponentGroup) (new : SnapshotComponent) (acc : Gathered)
      → Keeps g.name (components_of acc.valid) (finish_snapshot services g new acc)
  unfolding finish_snapshot new_snapshot
  finish_snapshot-Keeps g new acc = go (components_of acc.valid)
    where
      go :
          (l : List SnapshotComponent)
          → Keeps g.name l (elim l [
            | [] ↦
                rejected
                  (missing_valid_component (join_invalid_component_names_and_versions acc.invalid))
            | c ∷ components ↦ and_then (own_snapshot services g) (
                and_then (annotate_invalid services acc.invalid) (
                  and_then
                    (label_version services new)
                    (annotate_source services new (new_snapshot g (c ∷ components)))))
          ])
      go [] = tt
      go (c ∷ l) =
          Keeps-and_then g.name (c ∷ l) (own_snapshot services g)
            (and_then (annotate_invalid services acc.invalid) (
              and_then (label_version services new)
                (annotate_source services new (new_snapshot g (c ∷ l)))))
            (own_snapshot-Keeps g)
            (Keeps-and_then g.name (c ∷ l) (annotate_invalid services acc.invalid)
              (and_then (label_version services new)
                (annotate_source services new (new_snapshot g (c ∷ l))))
              (annotate_invalid-Keeps acc.invalid)
              (Keeps-and_then g.name (c ∷ l) (label_version services new)
                (annotate_source services new (new_snapshot g (c ∷ l))) (label_version-Keeps new)
                (annotate_source-Keeps new (new_snapshot g (c ∷ l)))))

  pub finish_parent_snapshot-Keeps :
      (g : ComponentGroup) (child : String) (news : List SnapshotComponent) (acc : Gathered)
      → Keeps g.name (components_of acc.valid) (finish_parent_snapshot services g child news acc)
  unfolding finish_parent_snapshot new_snapshot
  finish_parent_snapshot-Keeps g child news acc = go (components_of acc.valid)
    where
      go :
          (l : List SnapshotComponent)
          → Keeps g.name l (elim l [
            | [] ↦
                rejected
                  (missing_valid_component (join_invalid_component_names_and_versions acc.invalid))
            | c ∷ components ↦ and_then (own_snapshot services g) (
                and_then (annotate_child services child) (
                  and_then
                    (annotate_invalid services acc.invalid)
                    (annotate_only services news (new_snapshot g (c ∷ components)))))
          ])
      go [] = tt
      go (c ∷ l) =
          Keeps-and_then g.name (c ∷ l) (own_snapshot services g)
            (and_then (annotate_child services child) (
              and_then (annotate_invalid services acc.invalid)
                (annotate_only services news (new_snapshot g (c ∷ l)))))
            (own_snapshot-Keeps g)
            (Keeps-and_then g.name (c ∷ l) (annotate_child services child)
              (and_then (annotate_invalid services acc.invalid)
                (annotate_only services news (new_snapshot g (c ∷ l))))
              (annotate_child-Keeps child)
              (Keeps-and_then g.name (c ∷ l) (annotate_invalid services acc.invalid)
                (annotate_only services news (new_snapshot g (c ∷ l)))
                (annotate_invalid-Keeps acc.invalid)
                (annotate_only-Keeps news (new_snapshot g (c ∷ l)))))
