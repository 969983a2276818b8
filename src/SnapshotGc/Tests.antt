-- ===== src/SnapshotGc/Tests.antt =====
-- A namespace with four snapshots, plain functions for the libraries, and the theorems at them.
use integration_service.Base.{
  Bool, List, Option, String, [], arith, contains, false, if◌then◌else◌, inl, leb, length, none,
  refl, some, ℕ, ◌&&◌, ◌+◌, ◌<◌, ◌==◌, ◌∷◌, ◌≡◌, ◌≤◌,
}
use integration_service.Base.Dict.{Dict, has_key, lookup}
use integration_service.Base.Int.{pos}
use integration_service.Base.Sort.{insertion_sort, insertion_sort-Keeps, insertion_sort-Orders}
use integration_service.SnapshotGc.{
  EverySnapshot, IsOrdering, IsSorting, Libraries, Snapshot, count_of,
  extract_cancelled_or_merged_pr_snapshots, filter_snapshots_with_keep_snapshot_annotation,
  is_non_pr_snapshot, is_past_ttl, is_reserved, is_snapshot_marked_as_canceled,
  is_snapshot_status_condition_set, keep_snapshot_annotation, newest_first, newest_of_component,
}
use integration_service.SnapshotGc.Removal.{
  component_of, get_snapshots_for_removal, group_by_component, preserved_names, short_list,
}
use integration_service.SnapshotGc.Run.{
  Limits, World, collect_namespaces, delete_snapshots, doomed, doomed_in, garbage_collect_snapshots,
  get_snapshots_for_ns_releases, get_tenant_namespaces, get_unassociated_ns_snapshots,
}
use integration_service.SnapshotGc.Safety.{EveryCall, IsSpare, garbage_collect_snapshots-spares}
use integration_service.SnapshotGc.Groups.{group_of}
use integration_service.SnapshotGc.Minimum.{get_snapshots_for_removal-minimum, snapshot_names}
use integration_service.SnapshotGc.Limits.{doomed-limit}
use integration_service.SnapshotGc.Newest.{get_snapshots_for_removal-newest}

abbrev string_at : String → Dict String → String → Bool
string_at k m v = elim (lookup k m) [ some w ↦ w == v | none ↦ false ]

abbrev libs : Libraries
libs = record {
  annotation_is = λ s k v. string_at k s.annotations v;
  has_annotation = λ s k. has_key k s.annotations;
  label_is = λ s k v. string_at k s.labels v;
  find_condition = λ conditions type. lookup type conditions;
  parse_duration = λ text. if text == "1s" then pos 1_000_000_000 else pos 0;
  text_contains = λ text part. text == part;
  sort_slice = insertion_sort;
}

libs-IsSorting : IsSorting libs
libs-IsSorting = insertion_sort-Keeps

libs-IsOrdering : IsOrdering libs
libs-IsOrdering = insertion_sort-Orders

abbrev push_of : String → String → ℕ → Snapshot
push_of name component created = record {
  name = name;
  created = created;
  labels =
      ("pac.test.appstudio.openshift.io/event-type", "push")
      ∷ ("test.appstudio.openshift.io/type", "component")
      ∷ ("appstudio.openshift.io/component", component)
      ∷ [];
  annotations = [];
  conditions = [];
}

abbrev kept_one : Snapshot
kept_one = record (push_of "kept" "api" 1) { annotations = (keep_snapshot_annotation, "true") ∷ [] }

abbrev all : List Snapshot
all = push_of "old" "api" 10 ∷ push_of "new" "api" 20 ∷ kept_one ∷ push_of "released" "web" 5 ∷ []

abbrev world : World
world = record {
  toolchain_tenants = some ("team" ∷ []);
  konflux_users = some ("broken" ∷ []);
  konflux_tenants = some [];
  releases_in = λ ns. if ns == "team" then some ("released" ∷ []) else none;
  snapshots_in = λ ns. if ns == "team" then some all else none;
}

abbrev limits : Limits
limits = record { pr_snapshots = pos 1; non_pr_snapshots = pos 2; min_per_component = pos 1 }

abbrev never : String → Snapshot → Bool
never ns s = false

program : Unit {0}
unfolding garbage_collect_snapshots collect_namespaces delete_snapshots doomed_in doomed
    get_tenant_namespaces get_snapshots_for_ns_releases get_unassociated_ns_snapshots
    filter_snapshots_with_keep_snapshot_annotation is_reserved is_past_ttl get_snapshots_for_removal
    short_list preserved_names group_by_component component_of
    extract_cancelled_or_merged_pr_snapshots is_snapshot_marked_as_canceled
    is_snapshot_status_condition_set is_non_pr_snapshot newest_first newest_of_component
    insertion_sort
program = tt

abbrev call_names : Option (World × List (String × Snapshot)) → List String
call_names none = []
call_names (some (w, l)) = names l
  where
    names : List (String × Snapshot) → List String
    names [] = []
    names ((ns, s) ∷ l) = s.name ∷ names l

-- The kept and the released snapshot count against the limit, so only the newest of the component stays.
world-deletes : call_names (garbage_collect_snapshots libs never 100 limits world) ≡ "old" ∷ []
unfolding program
world-deletes = refl

abbrev run_of : Option (World × List (String × Snapshot)) → World × List (String × Snapshot)
run_of none = (world, [])
run_of (some r) = r

garbage_collect_snapshots-spares_example :
    EveryCall
      (IsSpare libs 100 world.releases_in)
      (run_of (garbage_collect_snapshots libs never 100 limits world)).1
unfolding program
garbage_collect_snapshots-spares_example =
    garbage_collect_snapshots-spares libs never 100 limits world
      (run_of (garbage_collect_snapshots libs never 100 limits world)).0
      (run_of (garbage_collect_snapshots libs never 100 limits world)).1 libs-IsSorting refl

doomed-limit_example :
    count_of (is_non_pr_snapshot libs) (doomed libs 100 limits (("released", "released") ∷ []) all)
      + 2
    ≤ count_of (is_non_pr_snapshot libs) all + 1
unfolding program
doomed-limit_example =
    doomed-limit libs 100 limits (("released", "released") ∷ []) all libs-IsSorting (omega arith)

abbrev old : Snapshot
old = push_of "old" "api" 10

get_snapshots_for_removal-minimum_example :
    (kept : List Snapshot) × (length kept ≡ 1)
    × ((test : Snapshot → Bool) → count_of test kept ≤ count_of test (group_of libs "api" all))
    × EverySnapshot (λ t. 10 ≤ t.created) kept
    × EverySnapshot
        (λ gone. contains (snapshot_names kept) gone.name ≡ false)
        (get_snapshots_for_removal libs 100 all (pos 1) (pos 0) (pos 1))
unfolding program
get_snapshots_for_removal-minimum_example =
    get_snapshots_for_removal-minimum libs 100 all (pos 1) (pos 0) (pos 1) old "api" libs-IsSorting
      libs-IsOrdering (inl refl) refl

get_snapshots_for_removal-newest_example :
    1 < count_of (λ t. is_non_pr_snapshot libs t && leb 10 t.created) all
unfolding program
get_snapshots_for_removal-newest_example =
    get_snapshots_for_removal-newest libs 100 all (pos 1) (pos 1) (pos 1) old libs-IsSorting
      libs-IsOrdering (inl refl) refl
