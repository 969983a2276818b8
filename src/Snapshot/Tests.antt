-- ===== src/Snapshot/Tests.antt =====
-- A group of two components and a nested group, and runs of the functions on them.
use Prim.Native.String.{len}
use integration_service.Base.{
  List, Option, String, [], arith, if◌then◌else◌, length, ltb, map, none, not, refl, some, subst,
  true, ℕ, ◌+◌, ◌==◌, ◌∷◌, ◌≡◌, ◌≤◌,
}
use integration_service.Base.Text.{show_nat, to_lower}
use integration_service.Gcl.{
  ComponentGroup, ComponentState, ComponentVersionReference, SnapshotComponent,
  get_component_version_string, update_gcl_for_override_snapshot,
}
use integration_service.Snapshot.{
  Services, cycle_found, failed, get_all_nested_snapshot_components,
  get_snapshot_components_from_gcl, is_group_kind, max_depth, not_loaded,
}
use integration_service.Gcl.Aligned.{overridden}
use integration_service.Snapshot.Naming.{
  World, already_exists, create_snapshot_with_collision_handling, created, stored,
}
use integration_service.Snapshot.Nesting.{Explains, get_all_nested_snapshot_components-Explains}
use integration_service.Snapshot.Prepare.{
  Prepared, Snapshot, SnapshotView, get_all_new_components_in_snapshot, prepare_parent_snapshot,
  prepare_snapshot, prepared, rejected, validate_override_snapshot_components,
}
use integration_service.Snapshot.Sound.{IsNew, component_keys}
use integration_service.Snapshot.Prepared.{
  IsSound, prepare_parent_snapshot-IsSound, prepare_snapshot-IsSound,
}
use integration_service.Snapshot.Included.{prepare_snapshot-IsNew}
use integration_service.Snapshot.NameLength.{
  AllFit, HasWidths, create_snapshot_with_collision_handling-AllFit,
}
use integration_service.Snapshot.Collisions.{
  Reports, create_snapshot_with_collision_handling-Reports,
}
use integration_service.Snapshot.Override.{update_gcl_for_override_snapshot-valid}

abbrev version : String → ComponentVersionReference
version name = record { name = name; revision = ""; context = "" }

abbrev entry : String → String → String → Option ℕ → ComponentState
entry name v image time = record {
  name = name;
  version = v;
  url = "https://git/";
  last_promoted_image = image;
  last_promoted_commit = "c0";
  last_promoted_build_time = time;
}

abbrev child_group : ComponentGroup
child_group = record {
  name = "child";
  components = record { name = "api"; kind = "component"; component_version = version "main" } ∷ [];
  global_candidate_list =
      entry "api" "main" "api@sha256:old" (some 3) ∷ entry "gone" "main" "gone@sha256:1" none ∷ [];
}

abbrev parent_group : ComponentGroup
parent_group = record {
  name = "parent";
  components =
      record { name = "web"; kind = "component"; component_version = version "main" }
      ∷ record { name = "child"; kind = "ComponentGroup"; component_version = version "" }
      ∷ [];
  global_candidate_list = entry "web" "main" "" none ∷ [];
}

-- Only the child group can be read, and the images named "bad" have no valid digest.
abbrev services : Services
services = record {
  get_component_group = λ name. if name == "child" then some child_group else none;
  validate_image_digest = λ image. not (image == "bad");
  set_annotation = λ k v. true;
  add_labels = λ l. true;
  set_controller_reference = λ g. true;
}

abbrev new_web : SnapshotComponent
new_web = record {
  name = "web";
  version = "main";
  container_image = "web@sha256:2";
  git_source = some ("https://git/", "c2");
}

abbrev names_of : Prepared → List String
names_of (rejected e) = []
names_of (prepared s) = component_keys s.components

parent-keys :
    names_of (prepare_snapshot services parent_group new_web) ≡ ("api/main" ∷ "web/main" ∷ [])
unfolding prepare_snapshot is_group_kind to_lower get_component_version_string
parent-keys = refl

abbrev lonely : Services
lonely = record services { get_component_group = λ name. none }

abbrev looping : Services
looping = record services { get_component_group = λ name. some parent_group }

parent-error :
    (get_all_nested_snapshot_components lonely 17 parent_group [] 0 ≡ failed not_loaded)
    × (get_all_nested_snapshot_components looping 17 parent_group [] 0
        ≡ failed (cycle_found ("parent" ∷ "parent" ∷ [])))
unfolding get_all_nested_snapshot_components get_snapshot_components_from_gcl is_group_kind to_lower
parent-error = (refl, refl)

get_all_nested_snapshot_components-Explains_example :
    Explains looping parent_group []
      (get_all_nested_snapshot_components looping (max_depth + 2) parent_group [] 0)
get_all_nested_snapshot_components-Explains_example =
    get_all_nested_snapshot_components-Explains looping parent_group

prepare_snapshot-IsSound_example :
    IsSound services parent_group (new_web ∷ []) (prepare_snapshot services parent_group new_web)
prepare_snapshot-IsSound_example = prepare_snapshot-IsSound services parent_group new_web

prepare_parent_snapshot-IsSound_example :
    IsSound services parent_group
      (new_web ∷ [])
      (prepare_parent_snapshot services parent_group "child-1" (some (new_web ∷ [])))
prepare_parent_snapshot-IsSound_example =
    prepare_parent_snapshot-IsSound services parent_group "child-1" (new_web ∷ [])

prepare_snapshot-IsNew_example :
    (s : Snapshot) × (prepare_snapshot services parent_group new_web ≡ prepared s)
    × IsNew new_web s.components
unfolding get_all_nested_snapshot_components is_group_kind to_lower
prepare_snapshot-IsNew_example =
    prepare_snapshot-IsNew services parent_group new_web ((λ k v. refl), (λ l. refl), (λ g. refl))
      refl refl

-- The first two names are taken.
abbrev world : World
world = record {
  answer = λ attempt name. if ltb attempt 2 then already_exists else created;
  suffix = λ attempt. some "a0";
  unix_milli = λ attempt. 1_700_000_000_042;
  format = λ t. "20231114-221320";
}

abbrev long_name : String
long_name = "a-component-group-with-a-name-of-more-than-forty-characters"

created-name : create_snapshot_with_collision_handling world long_name "first" ≡ (
  "first" ∷ "a-component-group-with-a-name-of-more-th-20231114-221320-042-a0"
      ∷ "a-component-group-with-a-name-of-more-th-20231114-221320-042-a0" ∷ [],
  stored "a-component-group-with-a-name-of-more-th-20231114-221320-042-a0",
)
unfolding create_snapshot_with_collision_handling show_nat
created-name = refl

world-HasWidths : HasWidths world
world-HasWidths = ((λ t. omega arith), suffixes)
  where
    suffixes : (attempt : ℕ) (s : String) → world.suffix attempt ≡ some s → len s ≤ 2
    suffixes attempt s given = let same : "a0" ≡ s = cc in subst (λ t. len t ≤ 2) same (omega arith)

create_snapshot_with_collision_handling-AllFit_example :
    AllFit (create_snapshot_with_collision_handling world long_name "first").0
    × (length (create_snapshot_with_collision_handling world long_name "first").0 ≤ 5)
create_snapshot_with_collision_handling-AllFit_example =
    create_snapshot_with_collision_handling-AllFit world long_name "first" world-HasWidths
      (omega arith)

create_snapshot_with_collision_handling-Reports_example :
    Reports world 0
      (create_snapshot_with_collision_handling world long_name "first").0
      (create_snapshot_with_collision_handling world long_name "first").1
create_snapshot_with_collision_handling-Reports_example =
    create_snapshot_with_collision_handling-Reports world long_name "first"

update_gcl_for_override_snapshot-valid_example :
    update_gcl_for_override_snapshot (new_web ∷ []) parent_group.global_candidate_list
    ≡ some (map (overridden (new_web ∷ [])) parent_group.global_candidate_list)
unfolding validate_override_snapshot_components get_component_version_string
update_gcl_for_override_snapshot-valid_example =
    update_gcl_for_override_snapshot-valid services parent_group (new_web ∷ [])
      parent_group.global_candidate_list refl

abbrev group_view : SnapshotView
group_view = record {
  type_label = "group";
  component_label = "";
  version_annotation = "";
  group_info = some (some (record { component = "web"; version = "" } ∷ []));
  components = new_web ∷ [];
}

-- A group Snapshot names its new components, and one that it does not have is an error.
new_components :
    (get_all_new_components_in_snapshot group_view ≡ some (new_web ∷ []))
    × (get_all_new_components_in_snapshot (record group_view { components = [] }) ≡ none)
unfolding get_all_new_components_in_snapshot
new_components = (refl, refl)
