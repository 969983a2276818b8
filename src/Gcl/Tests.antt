-- ===== src/Gcl/Tests.antt =====
-- A list of two components, and runs of the functions on it.
use integration_service.Base.{
  List, Option, String, [], false, if◌then◌else◌, is_none, map, none, not, refl, some, true, ℕ,
  ◌&&◌, ◌==◌, ◌∷◌, ◌≡◌,
}
use integration_service.Gcl.{
  ComponentGroup, ComponentState, SnapshotComponent, align_gcl_with_spec_components,
  get_component_version_string, same_state, update_gcl_entry, update_gcl_for_override_snapshot,
}
use integration_service.Gcl.Latest.{IsLatest, after_builds, after_builds-IsLatest, entry_at}
use integration_service.Gcl.Failing.{is_error, is_stale, update_gcl_entry-is_error, with_entry}
use integration_service.Gcl.Aligned.{
  align_gcl_with_spec_components_lem, aligned_with, have_sources, overridden,
  update_gcl_for_override_snapshot_lem,
}

abbrev state : String → String → Option ℕ → ComponentState
state name image time = record {
  name = name;
  version = "main";
  url = "https://git/";
  last_promoted_image = image;
  last_promoted_commit = "c0";
  last_promoted_build_time = time;
}

abbrev two : List ComponentState
two = state "api" "api@1" (some 5) ∷ state "web" "web@1" none ∷ []

-- A late build, an early one, and one of the other component.
abbrev builds : List ComponentState
builds =
    state "api" "api@9" (some 9) ∷ state "api" "api@7" (some 7) ∷ state "web" "web@2" (some 1) ∷ []

abbrev images : List ComponentState → List String
images = map (λ e. e.last_promoted_image)

after_builds-images : images (after_builds two builds) ≡ ("api@9" ∷ "web@2" ∷ [])
unfolding after_builds update_gcl_entry
after_builds-images = refl

after_builds-IsLatest_example :
    (x : ComponentState) × (entry_at "api" "main" (after_builds two builds) ≡ some x)
    × IsLatest "api" "main" (state "api" "api@1" (some 5)) x builds
after_builds-IsLatest_example =
    after_builds-IsLatest builds two "api" "main" (state "api" "api@1" (some 5))
      (refl, (refl, (refl, tt))) refl

-- The API server refuses a list that promotes the image "api@8".
abbrev answer : List ComponentState → Option String
answer [] = none
answer (e ∷ l) = if e.last_promoted_image == "api@8" then some "conflict" else answer l

update_gcl_entry-is_error_example :
    is_error (update_gcl_entry answer (state "api" "api@8" (some 8)) two)
    ≡ elim (entry_at "api" "main" two) [
      | none ↦ true
      | some e ↦
          not (is_stale (state "api" "api@8" (some 8)) e)
          && not (is_none (answer (with_entry (state "api" "api@8" (some 8)) two)))
    ]
update_gcl_entry-is_error_example =
    update_gcl_entry-is_error answer (state "api" "api@8" (some 8)) two

-- An error from the patch, and one for a version that the list does not have.
update_errors :
    (is_error (update_gcl_entry answer (state "api" "api@8" (some 8)) two) ≡ true)
    × (is_error (update_gcl_entry answer (state "api" "api@9" (some 9)) two) ≡ false)
    × (is_error (update_gcl_entry answer (state "db" "db@1" none) two) ≡ true)
unfolding update_gcl_entry
update_errors = (refl, refl, refl)

-- An identical state is no longer identical once it has a build time.
same-state :
    (same_state (state "api" "api@1" none) (state "api" "api@1" none) ≡ true)
    × (same_state (state "api" "api@1" (some 5)) (state "api" "api@1" (some 5)) ≡ false)
same-state = (refl, refl)

abbrev group : ComponentGroup
group = record {
  name = "group";
  components =
      record {
        name = "web";
        kind = "component";
        component_version = record { name = "main"; revision = ""; context = "" };
      }
      ∷ record {
        name = "db";
        kind = "component";
        component_version = record { name = "main"; revision = ""; context = "" };
      }
      ∷ [];
  global_candidate_list = two;
}

align_gcl-images : images (align_gcl_with_spec_components group) ≡ ("web@1" ∷ "" ∷ [])
unfolding align_gcl_with_spec_components get_component_version_string
align_gcl-images = refl

align_gcl_with_spec_components_example :
    align_gcl_with_spec_components group
    ≡ map (aligned_with group.global_candidate_list) group.components
align_gcl_with_spec_components_example = align_gcl_with_spec_components_lem group

abbrev override : List SnapshotComponent
override =
    record {
      name = "api";
      version = "main";
      container_image = "api@3";
      git_source = some ("https://git/", "c3");
    }
    ∷ []

update_gcl_for_override_snapshot_example :
    update_gcl_for_override_snapshot override two
    ≡ (if have_sources override then some (map (overridden override) two) else none)
update_gcl_for_override_snapshot_example = update_gcl_for_override_snapshot_lem override two
