-- ===== src/SnapshotGc.antt =====
-- cmd/snapshotgc/snapshotgc.go: which Snapshots of a namespace the garbage collector deletes.
--
-- A time is a count of nanoseconds since the zero time, and one reading of the clock serves the whole
-- run. What the code takes of other packages is the record Libraries.
pub mod Removal
pub mod Run
pub mod Safety
pub mod Groups
pub mod Minimum
pub mod Limits
pub mod Newest
mod Tests
use integration_service.Base.{
  Bool, List, Option, String, [], false, if◌then◌else◌, leb, ltb, nat_eq, none, not, some, true, ℕ,
  ◌&&◌, ◌+◌, ◌-◌, ◌/◌, ◌==◌, ◌||◌, ◌∷◌,
}
use integration_service.Base.Dict.{Dict, has_key, lookup}
use integration_service.Base.Int.{negsuc, pos, ℤ}
use integration_service.Base.Sort.{Every, Keeps, Orders, count}

pub record Condition : Type 0 where
  pub status : String
  pub reason : String

pub record Snapshot : Type 0 where
  pub name : String
  pub created : ℕ
  pub labels : Dict String
  pub annotations : Dict String
  pub conditions : Dict Condition

-- metadata.HasAnnotationWithValue, HasAnnotation and HasLabelWithValue; meta.FindStatusCondition;
-- time.ParseDuration, with 0 where it fails; strings.Contains, the text first; and sort.Slice with a
-- test of which element is less.
pub record Libraries : Type 0 where
  pub annotation_is : Snapshot → String → String → Bool
  pub has_annotation : Snapshot → String → Bool
  pub label_is : Snapshot → String → String → Bool
  pub find_condition : Dict Condition → String → Option Condition
  pub parse_duration : String → ℤ
  pub text_contains : String → String → Bool
  pub sort_slice : (Snapshot → Snapshot → Bool) → List Snapshot → List Snapshot

-- The snapshots in reverse order, so that the latest are kept.
unfoldable pub newest_first : Libraries → List Snapshot → List Snapshot
newest_first libs l = libs.sort_slice (λ a b. ltb b.created a.created) l

-- The push snapshots of a component in reverse order, by a test of their own.
unfoldable pub newest_of_component : Libraries → List Snapshot → List Snapshot
newest_of_component libs l = libs.sort_slice (λ a b. ltb b.created a.created) l

abbrev pub keep_snapshot_annotation : String
keep_snapshot_annotation = "test.appstudio.openshift.io/keep-snapshot"

abbrev pub pr_status_annotation : String
pr_status_annotation = "test.appstudio.openshift.io/pr-status"

abbrev pub pr_group_creation_annotation : String
pr_group_creation_annotation = "test.appstudio.openshift.io/create-groupsnapshot-status"

-- A missing key of a Go map of strings reads as the empty string.
abbrev pub value_at : String → Dict String → String
value_at k m = elim (lookup k m) [ some v ↦ v | none ↦ "" ]

unfoldable pub is_non_pr_snapshot : Libraries → Snapshot → Bool
is_non_pr_snapshot libs s = elim (lookup "pac.test.appstudio.openshift.io/event-type" s.labels) [
  | none ↦ true
  | some event ↦
      event == "push"
      || event == "Push"
      || libs.label_is s "test.appstudio.openshift.io/type" "override"
]

-- gitops.IsSnapshotStatusConditionSet
unfoldable pub is_snapshot_status_condition_set :
    Libraries → Snapshot → String → String → String → Bool
is_snapshot_status_condition_set libs s type status reason =
    let legacy =
      if type == "AppStudioTestSucceeded"
      then libs.find_condition s.conditions "HACBSStudioTestSucceeded"
      else if type == "AppStudioIntegrationStatus"
      then libs.find_condition s.conditions "HACBSIntegrationStatus"
      else none in
    let set : Option Condition → Bool = λ found. elim found [
      | none ↦ false
      | some c ↦ c.status == status && (reason == "" || reason == c.reason)
    ] in
    elim (libs.find_condition s.conditions type) [ some c ↦ set (some c) | none ↦ set legacy ]

unfoldable pub is_snapshot_marked_as_canceled : Libraries → Snapshot → Bool
is_snapshot_marked_as_canceled libs s =
    is_snapshot_status_condition_set libs s "AppStudioIntegrationStatus" "True" "Canceled"

abbrev pub is_cancelled_or_merged : Libraries → Snapshot → Bool
is_cancelled_or_merged libs s =
    not (is_non_pr_snapshot libs s)
    && (is_snapshot_marked_as_canceled libs s || libs.annotation_is s pr_status_annotation "merged")
    && not (libs.annotation_is s keep_snapshot_annotation "true")

unfoldable pub extract_cancelled_or_merged_pr_snapshots : Libraries → List Snapshot → List String
extract_cancelled_or_merged_pr_snapshots libs [] = []
extract_cancelled_or_merged_pr_snapshots libs (s ∷ l) =
    let rest = extract_cancelled_or_merged_pr_snapshots libs l in
    if is_cancelled_or_merged libs s then s.name ∷ rest else rest

-- A snapshot from the future has a negative age, which no bound is below.
unfoldable pub is_longer_than_specific_time : ℕ → Snapshot → ℕ → Bool
is_longer_than_specific_time now s specific_time =
    if nat_eq s.created 0 then false else ltb specific_time ((now - s.created) / 1_000_000_000)

-- Whether the age is the duration or more; either may be negative.
abbrev pub is_as_old_as : ℕ → Snapshot → ℤ → Bool
is_as_old_as now s (pos ttl) = leb (s.created + ttl) now
is_as_old_as now s (negsuc n) = leb s.created (now + n + 1)

abbrev pub is_zero : ℤ → Bool
is_zero (pos n) = nat_eq n 0
is_zero (negsuc n) = false

unfoldable pub is_past_ttl : Libraries → ℕ → Snapshot → Bool
is_past_ttl libs now s =
    let ttl = libs.parse_duration (value_at keep_snapshot_annotation s.annotations) in
    if nat_eq s.created 0
    then false
    else if is_zero ttl
    then true
    else is_as_old_as now s ttl && has_key keep_snapshot_annotation s.annotations

unfoldable pub is_reserved : Libraries → ℕ → Snapshot → Bool
is_reserved libs now s =
    libs.annotation_is s keep_snapshot_annotation "true"
    || libs.has_annotation s keep_snapshot_annotation && not (is_past_ttl libs now s)

-- The snapshots that are not reserved, and the numbers of reserved PR and non-PR ones.
unfoldable pub filter_snapshots_with_keep_snapshot_annotation :
    Libraries → ℕ → List Snapshot → List Snapshot × ℕ × ℕ
filter_snapshots_with_keep_snapshot_annotation libs now [] = ([], 0, 0)
filter_snapshots_with_keep_snapshot_annotation libs now (s ∷ l) =
    let (rest, pr, non_pr) = filter_snapshots_with_keep_snapshot_annotation libs now l in
    if is_reserved libs now s
    then if is_non_pr_snapshot libs s then (rest, pr, non_pr + 1) else (rest, pr + 1, non_pr)
    else (s ∷ rest, pr, non_pr)

abbrev pub EverySnapshot : (Snapshot → Type 0) → List Snapshot → Type 0
EverySnapshot P l = Every P l

abbrev pub count_of : (Snapshot → Bool) → List Snapshot → ℕ
count_of test l = count test l

-- What sort.Slice promises for any test: it moves the snapshots, and keeps each.
abbrev pub IsSorting : Libraries → Type 1
IsSorting libs = Keeps libs.sort_slice

-- And for a test that is a strict weak order, it puts them in order.
abbrev pub IsOrdering : Libraries → Type 0
IsOrdering libs = Orders libs.sort_slice
