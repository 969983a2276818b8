-- ===== src/Gcl.antt =====
-- snapshot/gcl.go and the adapter of component groups: the global candidate list of a group, which
-- holds the last promoted image of every component version.
--
-- A time is a count of seconds. An update that Go retries on a conflict is one attempt on the group
-- that was read.
pub mod Latest
pub mod Failing
pub mod Aligned
mod Tests
use Prim.Native.String.{◌++◌ as text_append}
use integration_service.Base.{
  Bool, List, Option, String, [], false, if◌then◌else◌, is_none, ltb, map, none, some, ℕ, ◌&&◌,
  ◌==◌, ◌∷◌,
}
use integration_service.Base.Dict.{Dict, insert, lookup}

-- A component version of a group, by the name of its component and its own.
pub record ComponentVersionReference : Type 0 where
  pub name : String
  pub revision : String
  pub context : String

pub record ComponentReference : Type 0 where
  pub name : String
  pub kind : String
  pub component_version : ComponentVersionReference

pub record ComponentState : Type 0 where
  pub name : String
  pub version : String
  pub url : String
  pub last_promoted_image : String
  pub last_promoted_commit : String
  pub last_promoted_build_time : Option ℕ

-- The name, spec.components and the list in the status.
pub record ComponentGroup : Type 0 where
  pub name : String
  pub components : List ComponentReference
  pub global_candidate_list : List ComponentState

-- Go's == on two states: the build times are pointers, and no two that are set are the same one.
abbrev pub same_state : ComponentState → ComponentState → Bool
same_state a b =
    a.name == b.name
    && a.version == b.version
    && a.url == b.url
    && a.last_promoted_image == b.last_promoted_image
    && a.last_promoted_commit == b.last_promoted_commit
    && is_none a.last_promoted_build_time
    && is_none b.last_promoted_build_time

-- metav1.Time.Before, with nil on either side
abbrev pub before : Option ℕ → Option ℕ → Bool
before (some a) (some b) = ltb a b
before _ _ = false

abbrev pub is_version : String → String → ComponentState → Bool
is_version name version e = e.name == name && e.version == version

-- What an attempt comes to: the error of a missing version, no patch, the patched list, or the error
-- of the patch.
pub data Update : Type 0 where
  not_found : Update
  refused : Update
  patch : List ComponentState → Update
  patch_failed : String → Update

abbrev pub keep_first : ComponentState → Update → Update
keep_first e not_found = not_found
keep_first e refused = refused
keep_first e (patch l) = patch (e ∷ l)
keep_first e (patch_failed error) = patch_failed error

-- The loop of UpdateGCLEntry, up to the list that is to be patched.
unfoldable pub replace_gcl_entry : ComponentState → List ComponentState → Update
replace_gcl_entry new [] = not_found
replace_gcl_entry new (e ∷ l) =
    let rest = replace_gcl_entry new l in
    if is_version new.name new.version e
    then if same_state e new
      then refused
      else if before new.last_promoted_build_time e.last_promoted_build_time
      then refused
      else patch (new ∷ l)
    else keep_first e rest

-- The patch of the status, with the answer of the API server: an error or none.
abbrev pub send : (List ComponentState → Option String) → Update → Update
send answer (patch l) = elim (answer l) [ none ↦ patch l | some error ↦ patch_failed error ]
send answer not_found = not_found
send answer refused = refused
send answer (patch_failed error) = patch_failed error

-- UpdateGCLEntry
unfoldable pub update_gcl_entry :
    (List ComponentState → Option String) → ComponentState → List ComponentState → Update
unfolding replace_gcl_entry
update_gcl_entry answer new l = send answer (replace_gcl_entry new l)

abbrev pub after_update : List ComponentState → Update → List ComponentState
after_update l (patch l') = l'
after_update l _ = l

-- What UpdateGCLForBuildPLR reads of a build, each none where reading it fails.
pub record BuildPipelineRun : Type 0 where
  pub image : Option String
  pub url_and_revision : Option (String × String)
  pub component_version : Option String
  pub start_time : Option ℕ

-- The new state, or none where the function returns without an update.
unfoldable pub entry_of_build : BuildPipelineRun → String → Option ComponentState
entry_of_build run component_name = elim run.image [
  | none ↦ none
  | some image ↦ elim run.url_and_revision [
    | none ↦ none
    | some (url, revision) ↦ elim run.component_version [
      | none ↦ none
      | some version ↦ some (record {
        name = component_name;
        version = version;
        url = url;
        last_promoted_image = image;
        last_promoted_commit = revision;
        last_promoted_build_time = run.start_time;
      })
    ]
  ]
]

-- The loop of UpdateGCLForBuildPLR over the groups as they are read: each with the outcome for it,
-- and none where it cannot be read.
unfoldable pub update_groups :
    (ComponentGroup → List ComponentState → Option String)
    → ComponentState
    → List (Option ComponentGroup)
    → List (Option Update)
unfolding update_gcl_entry
update_groups answer entry [] = []
update_groups answer entry (none ∷ groups) = none ∷ update_groups answer entry groups
update_groups answer entry (some g ∷ groups) =
    some (update_gcl_entry (answer g) entry g.global_candidate_list)
    ∷ update_groups answer entry groups

unfoldable pub update_gcl_for_build_plr :
    (ComponentGroup → List ComponentState → Option String)
    → BuildPipelineRun
    → String
    → List (Option ComponentGroup)
    → List (Option Update)
unfolding entry_of_build update_groups
update_gcl_for_build_plr answer run component_name groups =
    elim (entry_of_build run component_name) [
      | none ↦ []
      | some entry ↦ update_groups answer entry groups
    ]

-- helpers.GetComponentVersionString
unfoldable pub get_component_version_string : String → String → String
get_component_version_string name version = text_append name (text_append "/" version)

abbrev pub key_of : ComponentState → String
key_of e = get_component_version_string e.name e.version

-- UpdateMultipleGCLEntries: the new entry takes over the build time of the old.
unfoldable pub update_multiple_gcl_entries :
    Dict ComponentState → List ComponentState → List ComponentState
update_multiple_gcl_entries new [] = []
update_multiple_gcl_entries new (e ∷ l) =
    let rest = update_multiple_gcl_entries new l in
    elim (lookup (key_of e) new) [
      | some e' ↦ record e' { last_promoted_build_time = e.last_promoted_build_time } ∷ rest
      | none ↦ e ∷ rest
    ]

-- A component of a Snapshot, with the URL and revision of its git source, if it has one.
pub record SnapshotComponent : Type 0 where
  pub name : String
  pub version : String
  pub container_image : String
  pub git_source : Option (String × String)

-- Go panics on a component without a git source: `none`.
unfoldable pub snapshot_component_to_component_state : SnapshotComponent → Option ComponentState
snapshot_component_to_component_state c = elim c.git_source [
  | none ↦ none
  | some (url, revision) ↦ some (record {
    name = c.name;
    version = c.version;
    url = url;
    last_promoted_image = c.container_image;
    last_promoted_commit = revision;
    last_promoted_build_time = none;
  })
]

-- The map componentsToAdd of UpdateGCLForOverrideSnapshot.
unfoldable pub components_to_add :
    List SnapshotComponent → Dict ComponentState → Option (Dict ComponentState)
components_to_add [] m = some m
components_to_add (c ∷ l) m = elim (snapshot_component_to_component_state c) [
  | none ↦ none
  | some e ↦ components_to_add l (insert (get_component_version_string c.name c.version) e m)
]

-- `none` is the panic.
unfoldable pub update_gcl_for_override_snapshot :
    List SnapshotComponent → List ComponentState → Option (List ComponentState)
unfolding components_to_add update_multiple_gcl_entries
update_gcl_for_override_snapshot components l = elim (components_to_add components []) [
  | none ↦ none
  | some m ↦ some (update_multiple_gcl_entries m l)
]

abbrev pub blank_state : String → String → ComponentState
blank_state name version = record {
  name = name;
  version = version;
  url = "";
  last_promoted_image = "";
  last_promoted_commit = "";
  last_promoted_build_time = none;
}

-- The map gclComponents of alignGCLWithSpecComponents.
unfoldable pub gcl_components : List ComponentState → Dict ComponentState → Dict ComponentState
gcl_components [] m = m
gcl_components (e ∷ l) m = gcl_components l (insert (key_of e) e m)

unfoldable pub aligned_entry : Dict ComponentState → ComponentReference → ComponentState
aligned_entry m c = elim (lookup (get_component_version_string c.name c.component_version.name) m) [
  | some e ↦ e
  | none ↦ blank_state c.name c.component_version.name
]

unfoldable pub align_gcl_with_spec_components : ComponentGroup → List ComponentState
unfolding aligned_entry gcl_components
align_gcl_with_spec_components g =
    map (aligned_entry (gcl_components g.global_candidate_list [])) g.components
