-- ===== src/SnapshotGc/Removal.antt =====
-- getSnapshotsForRemoval: the candidates that go, given the numbers to keep.
use integration_service.Base.{
  List, Option, String, [], contains, if◌then◌else◌, nat_eq, none, not, some, ℕ, ◌&&◌, ◌++◌, ◌+◌,
  ◌-◌, ◌==◌, ◌∷◌,
}
use integration_service.Base.Dict.{Dict, insert, lookup}
use integration_service.Base.Int.{below, to_ℕ, ℤ}
use integration_service.SnapshotGc.{
  Libraries, Snapshot, extract_cancelled_or_merged_pr_snapshots, is_longer_than_specific_time,
  is_non_pr_snapshot, newest_first, newest_of_component, pr_group_creation_annotation, value_at,
}

-- The component of a push snapshot of one component, if its label names one.
unfoldable pub component_of : Libraries → Snapshot → Option String
component_of libs s =
    let component = value_at "appstudio.openshift.io/component" s.labels in
    if not (is_non_pr_snapshot libs s)
    then none
    else if not (libs.label_is s "test.appstudio.openshift.io/type" "component")
    then none
    else if component == ""
    then none
    else some component

abbrev pub group_at : String → Dict (List Snapshot) → List Snapshot
group_at k m = elim (lookup k m) [ some l ↦ l | none ↦ [] ]

-- The map componentToPushSnapshots after the snapshots, from what it was.
unfoldable pub group_by_component :
    Libraries → Dict (List Snapshot) → List Snapshot → Dict (List Snapshot)
group_by_component libs groups [] = groups
group_by_component libs groups (s ∷ l) = elim (component_of libs s) [
  | none ↦ group_by_component libs groups l
  | some k ↦ group_by_component libs (insert k (group_at k groups ++ s ∷ []) groups) l
]

-- The names of the first n.
abbrev pub first_names : ℕ → List Snapshot → List String
first_names n [] = []
first_names n (s ∷ l) = let rest = first_names (n - 1) l in if nat_eq n 0 then [] else s.name ∷ rest

-- The names in the map preservedPerComponent.
unfoldable pub preserved_names : Libraries → ℤ → Dict (List Snapshot) → List String
unfolding newest_of_component
preserved_names libs minimum [] = []
preserved_names libs minimum ((k, group) ∷ groups) =
    first_names (to_ℕ minimum) (newest_of_component libs group)
    ++ preserved_names libs minimum groups

pub data Verdict : Type 0 where
  kept removed : Verdict

-- One round of the last loop, from the numbers kept so far.
unfoldable pub judge :
    Libraries → ℕ → List String → List String → ℤ → ℤ → ℕ → ℕ → Snapshot → Verdict
unfolding is_longer_than_specific_time
judge libs now preserved cancelled pr_limit non_pr_limit kept_pr kept_non_pr s =
    if contains preserved s.name
    then kept
    else if is_non_pr_snapshot libs s
    then if below kept_non_pr non_pr_limit then kept else removed
    else if below kept_pr pr_limit && not (contains cancelled s.name)
    then kept
    else if not (contains cancelled s.name)
        && libs.has_annotation s pr_group_creation_annotation
        && libs.text_contains (value_at pr_group_creation_annotation s.annotations)
            "is still running, won't create group snapshot"
        && not (is_longer_than_specific_time now s 86400)
    then kept
    else removed

-- The last loop: a kept snapshot counts among those of its kind.
unfoldable pub short_list :
    Libraries → ℕ → List String → List String → ℤ → ℤ → ℕ → ℕ → List Snapshot → List Snapshot
unfolding judge
short_list libs now preserved cancelled pr_limit non_pr_limit kept_pr kept_non_pr [] = []
short_list libs now preserved cancelled pr_limit non_pr_limit kept_pr kept_non_pr (s ∷ l) =
    elim (judge libs now preserved cancelled pr_limit non_pr_limit kept_pr kept_non_pr s) [
      | removed ↦
          s ∷ short_list libs now preserved cancelled pr_limit non_pr_limit kept_pr kept_non_pr l
      | kept ↦
          short_list libs now preserved cancelled pr_limit non_pr_limit
            (if is_non_pr_snapshot libs s then kept_pr else kept_pr + 1)
            (if is_non_pr_snapshot libs s then kept_non_pr + 1 else kept_non_pr) l
    ]

unfoldable pub get_snapshots_for_removal : Libraries → ℕ → List Snapshot → ℤ → ℤ → ℤ → List Snapshot
unfolding newest_first short_list preserved_names group_by_component
get_snapshots_for_removal libs now snapshots pr_limit non_pr_limit minimum =
    let sorted = newest_first libs snapshots in
    short_list libs now (preserved_names libs minimum (group_by_component libs [] sorted))
      (extract_cancelled_or_merged_pr_snapshots libs sorted) pr_limit non_pr_limit 0 0 sorted
