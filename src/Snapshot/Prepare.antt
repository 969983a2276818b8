-- ===== src/Snapshot/Prepare.antt =====
-- What PrepareSnapshot, PrepareParentSnapshot and ValidateOverrideSnapshotComponents make of the
-- components that are gathered.
use Prim.Native.String.{◌++◌ as text_append}
use integration_service.Base.{
  Bool, List, Option, String, [], contains, false, if◌then◌else◌, none, not, some, true, ◌&&◌, ◌+◌,
  ◌==◌, ◌||◌, ◌∷◌,
}
use integration_service.Base.Dict.{Dict, insert}
use integration_service.Gcl.{
  ComponentGroup, ComponentReference, ComponentState, SnapshotComponent,
  get_component_version_string,
}
use integration_service.Snapshot.{
  Gathered, InvalidComponents, NestingError, Services, failed, gathered,
  get_all_nested_snapshot_components, max_depth, set_invalid,
}

abbrev pub blank_of : SnapshotComponent → ComponentState
blank_of c = record {
  name = c.name;
  version = c.version;
  url = "";
  last_promoted_image = "";
  last_promoted_commit = "";
  last_promoted_build_time = none;
}

-- maps.DeleteFunc of upsertNewComponentImage
abbrev pub drop_invalid : SnapshotComponent → InvalidComponents → InvalidComponents
drop_invalid c [] = []
drop_invalid c ((e, r) ∷ m) =
    let rest = drop_invalid c m in
    if e.name == c.name && (e.version == "" || e.version == c.version) then rest else (e, r) ∷ rest

abbrev pub components_of : Dict SnapshotComponent → List SnapshotComponent
components_of [] = []
components_of ((k, c) ∷ m) = c ∷ components_of m

-- helpers.GetComponentVersionLogString
abbrev pub get_component_version_log_string : String → String → String
get_component_version_log_string name version =
    text_append name (text_append " (version " (text_append version ")"))

unfoldable pub join_invalid_component_names_and_versions : InvalidComponents → String
join_invalid_component_names_and_versions [] = ""
join_invalid_component_names_and_versions ((e, r) ∷ m) =
    text_append (get_component_version_log_string e.name e.version)
      (join_invalid_component_names_and_versions m)

abbrev pub invalid_message : InvalidComponents → String
invalid_message invalid = text_append "Component(s) '" (
    text_append (join_invalid_component_names_and_versions invalid)
      "' is(are) not included in snapshot due to missing valid containerImage or git source")

-- The labels and annotations that matter are those that the functions set themselves.
pub record Snapshot : Type 0 where
  pub component_group : String
  pub components : List SnapshotComponent
  pub source_repo_url : Option String
  pub version_label : Option String
  pub invalid_annotation : Option String
  pub child_snapshot : Option String

pub data PrepareError : Type 0 where
  nesting_error : NestingError → PrepareError
  new_components_error : PrepareError
  missing_valid_component : String → PrepareError
  annotation_error : String → PrepareError
  label_error : PrepareError
  owner_error : PrepareError

pub data Prepared : Type 0 where
  rejected : PrepareError → Prepared
  prepared : Snapshot → Prepared

-- NewSnapshot. The name, from the clock, is replaced later on.
unfoldable pub new_snapshot : ComponentGroup → List SnapshotComponent → Snapshot
new_snapshot g components = record {
  component_group = g.name;
  components = components;
  source_repo_url = none;
  version_label = none;
  invalid_annotation = none;
  child_snapshot = none;
}

abbrev pub and_then : (Snapshot → Prepared) → Prepared → Prepared
and_then next (rejected e) = rejected e
and_then next (prepared s) = next s

module _ (services : Services) where
  unfoldable pub upsert_new_component_image : SnapshotComponent → Gathered → Gathered
  upsert_new_component_image c acc =
      if not (services.validate_image_digest c.container_image)
      then record acc {
        invalid =
            set_invalid (blank_of c)
              (record { component_group = ""; reason = "invalid digest in containerImage" })
              acc.invalid;
      }
      else record {
        valid = insert (get_component_version_string c.name c.version) c acc.valid;
        invalid = drop_invalid c acc.invalid;
      }

  unfoldable pub upsert_multiple_component_images : List SnapshotComponent → Gathered → Gathered
  unfolding upsert_new_component_image
  upsert_multiple_component_images [] acc = acc
  upsert_multiple_component_images (c ∷ l) acc =
      upsert_multiple_component_images l (upsert_new_component_image c acc)

  unfoldable pub annotate_source : SnapshotComponent → Snapshot → Prepared
  annotate_source c s = elim c.git_source [
    | none ↦ prepared s
    | some (url, revision) ↦
        if services.set_annotation "test.appstudio.openshift.io/source-repo-url" url
        then prepared (record s { source_repo_url = some url })
        else rejected (annotation_error "test.appstudio.openshift.io/source-repo-url")
  ]

  unfoldable pub label_version : SnapshotComponent → Snapshot → Prepared
  label_version c s =
      if c.version == ""
      then if services.add_labels [] then prepared s else rejected label_error
      else if services.add_labels (("build.konflux-ci.dev/version", c.version) ∷ [])
      then prepared (record s { version_label = some c.version })
      else rejected label_error

  unfoldable pub annotate_invalid : InvalidComponents → Snapshot → Prepared
  annotate_invalid [] s = prepared s
  annotate_invalid (i ∷ invalid) s =
      if services.set_annotation "test.appstudio.openshift.io/create-snapshot-status"
        (invalid_message (i ∷ invalid))
      then prepared (record s { invalid_annotation = some (invalid_message (i ∷ invalid)) })
      else rejected (annotation_error "test.appstudio.openshift.io/create-snapshot-status")

  unfoldable pub own_snapshot : ComponentGroup → Snapshot → Prepared
  own_snapshot g s =
      if services.set_controller_reference g then prepared s else rejected owner_error

  unfoldable pub annotate_child : String → Snapshot → Prepared
  annotate_child child s =
      if services.set_annotation "test.appstudio.openshift.io/child-snapshot" child
      then prepared (record s { child_snapshot = some child })
      else rejected (annotation_error "test.appstudio.openshift.io/child-snapshot")

  -- What follows in PrepareSnapshot once the components are gathered.
  unfoldable pub finish_snapshot : ComponentGroup → SnapshotComponent → Gathered → Prepared
  unfolding new_snapshot annotate_source label_version annotate_invalid own_snapshot
  finish_snapshot g new acc = elim (components_of acc.valid) [
    | [] ↦
        rejected (missing_valid_component (join_invalid_component_names_and_versions acc.invalid))
    | c ∷ components ↦ and_then (own_snapshot g) (
        and_then (annotate_invalid acc.invalid)
          (and_then (label_version new) (annotate_source new (new_snapshot g (c ∷ components)))))
  ]

  -- The fuel is one more than the greatest depth that the walk enters.
  unfoldable pub prepare_snapshot : ComponentGroup → SnapshotComponent → Prepared
  unfolding get_all_nested_snapshot_components upsert_new_component_image finish_snapshot
  prepare_snapshot g new =
      elim (get_all_nested_snapshot_components services (max_depth + 2) g [] 0) [
        | failed e ↦ rejected (nesting_error e)
        | gathered acc ↦ finish_snapshot g new (upsert_new_component_image new acc)
      ]

  unfoldable pub annotate_only : List SnapshotComponent → Snapshot → Prepared
  unfolding annotate_source
  annotate_only (c ∷ []) s = annotate_source c s
  annotate_only _ s = prepared s

  unfoldable pub finish_parent_snapshot :
      ComponentGroup → String → List SnapshotComponent → Gathered → Prepared
  unfolding new_snapshot annotate_only annotate_invalid annotate_child own_snapshot
  finish_parent_snapshot g child new acc = elim (components_of acc.valid) [
    | [] ↦
        rejected (missing_valid_component (join_invalid_component_names_and_versions acc.invalid))
    | c ∷ components ↦ and_then (own_snapshot g) (
        and_then (annotate_child child) (
          and_then (annotate_invalid acc.invalid)
            (annotate_only new (new_snapshot g (c ∷ components)))))
  ]

  -- With the name of the child Snapshot and what GetAllNewComponentsInSnapshot gives for it, `none` an
  -- error.
  unfoldable pub prepare_parent_snapshot :
      ComponentGroup → String → Option (List SnapshotComponent) → Prepared
  unfolding get_all_nested_snapshot_components upsert_multiple_component_images
      finish_parent_snapshot
  prepare_parent_snapshot g child new =
      elim (get_all_nested_snapshot_components services (max_depth + 2) g [] 0) [
        | failed e ↦ rejected (nesting_error e)
        | gathered acc ↦ elim new [
          | none ↦ rejected new_components_error
          | some components ↦
              finish_parent_snapshot g child components
                (upsert_multiple_component_images components acc)
        ]
      ]

-- gitops.HaveGitSource
abbrev pub have_git_source : SnapshotComponent → Bool
have_git_source c = elim c.git_source [
  | none ↦ false
  | some (url, revision) ↦ not (revision == "") && not (url == "")
]

abbrev pub known_components : List ComponentReference → List String
known_components [] = []
known_components (c ∷ l) =
    get_component_version_string c.name c.component_version.name ∷ known_components l

pub data OverrideError : Type 0 where
  unknown_component : SnapshotComponent → OverrideError
  invalid_digest : SnapshotComponent → OverrideError
  no_git_source : SnapshotComponent → OverrideError

abbrev pub when : Bool → OverrideError → List OverrideError → List OverrideError
when true e l = e ∷ l
when false e l = l

module _ (services : Services) where
  -- The errors that ValidateOverrideSnapshotComponents joins; none joined is nil.
  unfoldable pub override_errors : List String → List SnapshotComponent → List OverrideError
  override_errors known [] = []
  override_errors known (c ∷ l) =
      when (not (contains known (get_component_version_string c.name c.version)))
        (unknown_component c)
        (when (not (services.validate_image_digest c.container_image)) (invalid_digest c)
          (when (not (have_git_source c)) (no_git_source c) (override_errors known l)))

  unfoldable pub validate_override_snapshot_components :
      List SnapshotComponent → ComponentGroup → List OverrideError
  unfolding override_errors
  validate_override_snapshot_components components g =
      override_errors (known_components g.components) components

pub record ComponentSnapshotInfo : Type 0 where
  pub component : String
  pub version : String

-- What GetAllNewComponentsInSnapshot reads: the type label, the label and the annotation of the new
-- component, the annotation of a group Snapshot, where it has one, as UnmarshalJSON reads it, and
-- spec.components.
pub record SnapshotView : Type 0 where
  pub type_label : String
  pub component_label : String
  pub version_annotation : String
  pub group_info : Option (Option (List ComponentSnapshotInfo))
  pub components : List SnapshotComponent

unfoldable pub get_component_from_snapshot_components :
    String → String → List SnapshotComponent → Option SnapshotComponent
get_component_from_snapshot_components name version [] = none
get_component_from_snapshot_components name version (c ∷ l) =
    let rest = get_component_from_snapshot_components name version l in
    if c.name == name && (version == "" || c.version == "" || c.version == version)
    then some c
    else rest

abbrev pub cons_option :
    Option SnapshotComponent → Option (List SnapshotComponent) → Option (List SnapshotComponent)
cons_option (some c) (some l) = some (c ∷ l)
cons_option _ _ = none

unfoldable pub components_of_infos :
    List SnapshotComponent → List ComponentSnapshotInfo → Option (List SnapshotComponent)
unfolding get_component_from_snapshot_components
components_of_infos components [] = some []
components_of_infos components (i ∷ infos) =
    cons_option (get_component_from_snapshot_components i.component i.version components)
      (components_of_infos components infos)

unfoldable pub get_all_new_components_in_snapshot : SnapshotView → Option (List SnapshotComponent)
unfolding get_component_from_snapshot_components components_of_infos
get_all_new_components_in_snapshot s =
    if s.type_label == "component"
    then cons_option
        (get_component_from_snapshot_components s.component_label s.version_annotation s.components)
        (some [])
    else if s.type_label == "group"
    then elim s.group_info [
      | none ↦ some []
      | some none ↦ none
      | some (some infos) ↦ components_of_infos s.components infos
    ]
    else if s.type_label == "override"
    then some s.components
    else some []
