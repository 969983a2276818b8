-- ===== src/Snapshot.antt =====
-- snapshot/create.go, snapshot/components.go, snapshot/validation.go: how a Snapshot of a component
-- group is put together.
--
-- A ComponentGroup in the cluster is read by its name, in one namespace. A Go map is a Dict; the order
-- of its entries stands for the order in which Go ranges over it.
pub mod Prepare
pub mod Naming
pub mod NameLength
pub mod Attempts
pub mod Collisions
pub mod Nesting
pub mod Contents
pub mod Steps
pub mod Sound
pub mod Prepared
pub mod Included
pub mod Override
mod Tests
use integration_service.Base.{
  Bool, List, Option, String, [], contains, if◌then◌else◌, ltb, none, not, some, suc, zero, ℕ, ◌++◌,
  ◌+◌, ◌==◌, ◌∷◌,
}
use integration_service.Base.Dict.{Dict, insert, lookup}
use integration_service.Base.Text.{to_lower}
use integration_service.Gcl.{
  ComponentGroup, ComponentReference, ComponentState, SnapshotComponent,
  get_component_version_string, same_state,
}

-- The API server, and what the code calls from vendored libraries: name.NewDigest, which tells whether an
-- image has a valid digest, and the setters of object metadata, which tell whether they succeed.
pub record Services : Type 0 where
  pub get_component_group : String → Option ComponentGroup
  pub validate_image_digest : String → Bool
  pub set_annotation : String → String → Bool
  pub add_labels : List (String × String) → Bool
  pub set_controller_reference : ComponentGroup → Bool

pub record InvalidComponentReason : Type 0 where
  pub component_group : String
  pub reason : String

-- The keys of this map are states. A key with a build time has a pointer of its own.
abbrev pub InvalidComponents : Type 0
InvalidComponents = List (ComponentState × InvalidComponentReason)

abbrev pub set_invalid :
    ComponentState → InvalidComponentReason → InvalidComponents → InvalidComponents
set_invalid e r [] = (e, r) ∷ []
set_invalid e r ((e', r') ∷ m) =
    let rest = set_invalid e r m in if same_state e' e then (e, r) ∷ m else (e', r') ∷ rest

-- maps.Copy
abbrev pub copy_dict {ℓ} : {V : Type ℓ} → Dict V → Dict V → Dict V
copy_dict m [] = m
copy_dict m ((k, v) ∷ src) = copy_dict (insert k v m) src

abbrev pub copy_invalid : InvalidComponents → InvalidComponents → InvalidComponents
copy_invalid m [] = m
copy_invalid m ((e, r) ∷ src) = copy_invalid (set_invalid e r m) src

-- strings.EqualFold(kind, "componentGroup"): all its letters are ASCII.
unfoldable pub is_group_kind : String → Bool
is_group_kind kind = to_lower kind == "componentgroup"

-- The valid components by their key, and the invalid ones with the reason.
pub record Gathered : Type 0 where
  pub valid : Dict SnapshotComponent
  pub invalid : InvalidComponents

abbrev pub nothing : Gathered
nothing = record { valid = []; invalid = [] }

abbrev pub copied : Gathered → Gathered → Gathered
copied a b = record {
  valid = copy_dict a.valid b.valid;
  invalid = copy_invalid a.invalid b.invalid;
}

abbrev pub versions_of : Option (List String) → List String
versions_of (some l) = l
versions_of none = []

abbrev pub append_version : String → String → Dict (List String) → Dict (List String)
append_version name version m = insert name (versions_of (lookup name m) ++ version ∷ []) m

unfoldable pub spec_versions : List ComponentReference → Dict (List String) → Dict (List String)
spec_versions [] m = m
spec_versions (c ∷ components) m =
    if is_group_kind c.kind
    then spec_versions components m
    else spec_versions components (append_version c.name c.component_version.name m)

unfoldable pub get_spec_components_and_versions_map : ComponentGroup → Dict (List String)
unfolding spec_versions
get_spec_components_and_versions_map g = spec_versions g.components []

abbrev pub get_component_source_from_gcl_component : ComponentState → String × String
get_component_source_from_gcl_component e = (e.url, e.last_promoted_commit)

module _ (services : Services) where
  -- One pass of the loop of GetSnapshotComponentsFromGCL.
  unfoldable pub gather_entry : String → Dict (List String) → ComponentState → Gathered → Gathered
  gather_entry group spec e acc =
      if not (contains (versions_of (lookup e.name spec)) e.version)
      then acc
      else if e.last_promoted_image == ""
      then record acc {
        invalid =
            set_invalid e (record { component_group = group; reason = "missing containerImage" })
              acc.invalid;
      }
      else if not (services.validate_image_digest e.last_promoted_image)
      then record acc {
        invalid =
            set_invalid e
              (record { component_group = group; reason = "invalid digest in containerImage" })
              acc.invalid;
      }
      else record acc {
        valid =
            insert (get_component_version_string e.name e.version)
              (record {
                name = e.name;
                version = e.version;
                container_image = e.last_promoted_image;
                git_source = some (get_component_source_from_gcl_component e);
              })
              acc.valid;
      }

  unfoldable pub gather_entries :
      String → Dict (List String) → List ComponentState → Gathered → Gathered
  unfolding gather_entry
  gather_entries group spec [] acc = acc
  gather_entries group spec (e ∷ l) acc =
      gather_entries group spec l (gather_entry group spec e acc)

  unfoldable pub get_snapshot_components_from_gcl : ComponentGroup → Gathered
  unfolding gather_entries get_spec_components_and_versions_map
  get_snapshot_components_from_gcl g =
      gather_entries g.name (get_spec_components_and_versions_map g) g.global_candidate_list nothing

  -- loader.GetNestedComponentGroupsForComponentGroup, `none` where one of them cannot be read
  unfoldable pub nested_from : List ComponentReference → Option (List ComponentGroup)
  nested_from [] = some []
  nested_from (c ∷ components) =
      let rest = nested_from components in
      if is_group_kind c.kind
      then elim (services.get_component_group c.name) [
        | none ↦ none
        | some g ↦ elim rest [ none ↦ none | some l ↦ some (g ∷ l) ]
      ]
      else rest

  unfoldable pub get_nested_component_groups_for_component_group :
      ComponentGroup → Option (List ComponentGroup)
  unfolding nested_from
  get_nested_component_groups_for_component_group g = nested_from g.components

-- The errors of getAllNestedSnapshotComponents; out_of_fuel is the model's own.
pub data NestingError : Type 0 where
  cycle_found : List String → NestingError
  too_deep : NestingError
  not_loaded : NestingError
  out_of_fuel : NestingError

pub data Nested : Type 0 where
  failed : NestingError → Nested
  gathered : Gathered → Nested

abbrev pub max_depth : ℕ
max_depth = 15

abbrev pub then_with : Nested → (Gathered → Nested) → Nested
then_with (failed e) next = failed e
then_with (gathered r) next = next r

-- The loop over the nested groups.
abbrev pub collect : (ComponentGroup → Nested) → List ComponentGroup → Gathered → Nested
collect visit [] acc = gathered acc
collect visit (g ∷ groups) acc = then_with (visit g) (λ r. collect visit groups (copied acc r))

abbrev pub with_own : Gathered → Nested → Nested
with_own own (failed e) = failed e
with_own own (gathered acc) = gathered (copied acc own)

module _ (services : Services) where
  unfoldable pub get_all_nested_snapshot_components : ℕ → ComponentGroup → List String → ℕ → Nested
  unfolding get_snapshot_components_from_gcl get_nested_component_groups_for_component_group
  get_all_nested_snapshot_components zero g used depth = failed out_of_fuel
  get_all_nested_snapshot_components (suc fuel) g used depth =
      let visit = λ (h : ComponentGroup).
        get_all_nested_snapshot_components fuel h (used ++ g.name ∷ []) (depth + 1) in
      if contains used g.name
      then failed (cycle_found (used ++ g.name ∷ []))
      else if ltb max_depth depth
      then failed too_deep
      else elim (get_nested_component_groups_for_component_group services g) [
        | none ↦ failed not_loaded
        | some groups ↦
            with_own (get_snapshot_components_from_gcl services g) (collect visit groups nothing)
      ]
