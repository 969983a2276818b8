-- ===== src/Snapshot/Override.antt =====
-- Override Snapshots that pass the validation.
use integration_service.Base.{
  Bool, List, Option, String, [], contains, false, is_none, map, none, not, refl, some, true, ◌&&◌,
  ◌==◌, ◌∙◌, ◌∷◌, ◌≡◌,
}
use integration_service.Gcl.{
  ComponentGroup, ComponentState, SnapshotComponent, get_component_version_string,
  update_gcl_for_override_snapshot,
}
use integration_service.Snapshot.{Services}
use integration_service.Gcl.Aligned.{have_sources, overridden, update_gcl_for_override_snapshot_lem}
use integration_service.Snapshot.Prepare.{
  OverrideError, have_git_source, invalid_digest, known_components, no_git_source, override_errors,
  unknown_component, validate_override_snapshot_components, when,
}

when-nil :
    (b : Bool) (e : OverrideError) (l : List OverrideError)
    → when b e l ≡ []
    → (b ≡ false) × (l ≡ [])
when-nil true e l h = cc
when-nil false e l h = (refl, h)

have_source-of_git_source :
    (c : SnapshotComponent) → not (have_git_source c) ≡ false → is_none c.git_source ≡ false
have_source-of_git_source c = given c.git_source
  where
    given :
        (s : Option (String × String))
        → not (elim s [
          | none ↦ false
          | some (url, revision) ↦ not (revision == "") && not (url == "")
        ])
          ≡ false
        → is_none s ≡ false
    given none h = cc
    given (some s) h = refl

have_sources-of_valid :
    (services : Services) (known : List String) (l : List SnapshotComponent)
    → override_errors services known l ≡ []
    → have_sources l ≡ true
unfolding override_errors
have_sources-of_valid services known [] h = refl
have_sources-of_valid services known (c ∷ l) h =
    let tested =
      when-nil (not (have_git_source c)) (no_git_source c) (override_errors services known l)
        (when-nil (not (services.validate_image_digest c.container_image)) (invalid_digest c)
          (when (not (have_git_source c)) (no_git_source c) (override_errors services known l))
          (when-nil (not (contains known (get_component_version_string c.name c.version)))
            (unknown_component c)
            (when (not (services.validate_image_digest c.container_image)) (invalid_digest c)
              (when (not (have_git_source c)) (no_git_source c) (override_errors services known l)))
            h).1).1 in
    rw (have_source-of_git_source c tested.0, have_sources-of_valid services known l tested.1) refl

-- The promotion of an override Snapshot that passes the validation for any group does not panic: every
-- entry that has components of its version in the Snapshot takes over the last of them.
pub update_gcl_for_override_snapshot-valid :
    (services : Services) (g : ComponentGroup) (components : List SnapshotComponent)
    (l : List ComponentState)
    → validate_override_snapshot_components services components g ≡ []
    → update_gcl_for_override_snapshot components l ≡ some (map (overridden components) l)
unfolding validate_override_snapshot_components
update_gcl_for_override_snapshot-valid services g components l valid =
    let sources = have_sources-of_valid services (known_components g.components) components valid in
    update_gcl_for_override_snapshot_lem components l ∙ rw sources refl
