-- ===== src/SnapshotGc/Run.antt =====
-- garbageCollectSnapshots: the namespaces one after another, and what is deleted.
use integration_service.Base.{
  Bool, List, Option, String, [], if◌then◌else◌, length, none, some, ℕ, ◌++◌, ◌==◌, ◌∷◌,
}
use integration_service.Base.Dict.{Dict, has_key, insert}
use integration_service.Base.Int.{minus, ℤ}
use integration_service.SnapshotGc.{
  Libraries, Snapshot, filter_snapshots_with_keep_snapshot_annotation,
}
use integration_service.SnapshotGc.Removal.{get_snapshots_for_removal}

-- What the API server holds: for a namespace the snapshots that its releases name and its snapshots,
-- none where the list call fails; and the namespaces by each of the three labels of a tenant.
pub record World : Type 0 where
  pub toolchain_tenants : Option (List String)
  pub konflux_users : Option (List String)
  pub konflux_tenants : Option (List String)
  pub releases_in : String → Option (List String)
  pub snapshots_in : String → Option (List Snapshot)

unfoldable pub get_tenant_namespaces : World → Option (List String)
get_tenant_namespaces w = elim w.toolchain_tenants [
  | none ↦ none
  | some toolchain ↦ elim w.konflux_users [
    | none ↦ none
    | some users ↦ elim w.konflux_tenants [
      | none ↦ none
      | some tenants ↦ some ((toolchain ++ users) ++ tenants)
    ]
  ]
]

-- The map snapToData, of which the code reads only the keys.
abbrev pub release_map : List String → Dict String → Dict String
release_map [] m = m
release_map (snapshot ∷ l) m = release_map l (insert snapshot snapshot m)

unfoldable pub get_snapshots_for_ns_releases : World → String → Option (Dict String)
get_snapshots_for_ns_releases w ns = elim (w.releases_in ns) [
  | some l ↦ some (release_map l [])
  | none ↦ none
]

abbrev pub unassociated : Dict String → List Snapshot → List Snapshot
unassociated releases [] = []
unassociated releases (s ∷ l) =
    let rest = unassociated releases l in if has_key s.name releases then rest else s ∷ rest

unfoldable pub get_unassociated_ns_snapshots : World → Dict String → String → Option (List Snapshot)
get_unassociated_ns_snapshots w releases ns = elim (w.snapshots_in ns) [
  | some l ↦ some (unassociated releases l)
  | none ↦ none
]

abbrev pub without_name : String → List Snapshot → List Snapshot
without_name name [] = []
without_name name (s ∷ l) =
    let rest = without_name name l in if s.name == name then rest else s ∷ rest

abbrev pub forget : String → String → World → World
forget ns name w = record w {
  snapshots_in = λ n.
      if n == ns
      then elim (w.snapshots_in n) [ some l ↦ some (without_name name l) | none ↦ none ]
      else w.snapshots_in n;
}

-- `refuses` tells which delete calls fail; a failure is logged and the loop goes on. The second
-- component lists the calls.
unfoldable pub delete_snapshots :
    (String → Snapshot → Bool) → String → World → List Snapshot → World × List (String × Snapshot)
delete_snapshots refuses ns w [] = (w, [])
delete_snapshots refuses ns w (s ∷ l) =
    let (w', calls) =
      delete_snapshots refuses ns (if refuses ns s then w else forget ns s.name w) l in
    (w', (ns, s) ∷ calls)

-- The numbers to keep.
pub record Limits : Type 0 where
  pub pr_snapshots : ℤ
  pub non_pr_snapshots : ℤ
  pub min_per_component : ℤ

-- What a namespace loses, given its releases and its unassociated snapshots.
unfoldable pub doomed : Libraries → ℕ → Limits → Dict String → List Snapshot → List Snapshot
doomed libs now limits releases found =
    let (candidates, kept_pr, kept_non_pr) =
      filter_snapshots_with_keep_snapshot_annotation libs now found in
    get_snapshots_for_removal libs now candidates (minus limits.pr_snapshots kept_pr)
      (minus (minus limits.non_pr_snapshots kept_non_pr) (length releases)) limits.min_per_component

-- One round of the loop over the namespaces: none where the namespace is skipped.
unfoldable pub doomed_in : Libraries → ℕ → Limits → World → String → Option (List Snapshot)
doomed_in libs now limits w ns = elim (get_snapshots_for_ns_releases w ns) [
  | none ↦ none
  | some releases ↦ elim (get_unassociated_ns_snapshots w releases ns) [
    | none ↦ none
    | some found ↦ some (doomed libs now limits releases found)
  ]
]

unfoldable pub collect_namespaces :
    Libraries
    → (String → Snapshot → Bool)
    → ℕ
    → Limits
    → World
    → List String
    → World × List (String × Snapshot)
collect_namespaces libs refuses now limits w [] = (w, [])
collect_namespaces libs refuses now limits w (ns ∷ rest) = elim (doomed_in libs now limits w ns) [
  | none ↦ collect_namespaces libs refuses now limits w rest
  | some l ↦
      let (w', calls) = delete_snapshots refuses ns w l in
      let (w'', more) = collect_namespaces libs refuses now limits w' rest in (w'', calls ++ more)
]

-- `none` is the error of listing the namespaces.
unfoldable pub garbage_collect_snapshots :
    Libraries
    → (String → Snapshot → Bool)
    → ℕ
    → Limits
    → World
    → Option (World × List (String × Snapshot))
garbage_collect_snapshots libs refuses now limits w = elim (get_tenant_namespaces w) [
  | none ↦ none
  | some namespaces ↦ some (collect_namespaces libs refuses now limits w namespaces)
]
