-- ===== src/Snapshot/Prepared.antt =====
-- A Snapshot that is prepared holds what it should, whatever groups the group nests.
use integration_service.Base.{
  Bool-cases, IsNodup, List, String, [], arith, inl, inr, refl, some, subst, sym, ◌+◌, ◌==◌, ◌∷◌,
  ◌≡◌,
}
use integration_service.Base.Dict.{AllEntries, Dict, keys, lookup}
use integration_service.Gcl.{ComponentGroup, SnapshotComponent}
use integration_service.Snapshot.{
  Gathered, Nested, Services, failed, gathered, get_all_nested_snapshot_components, max_depth,
}
use integration_service.Snapshot.Contents.{OnSuccess, get_all-OnSuccess}
use integration_service.Snapshot.Prepare.{
  Prepared, components_of, finish_parent_snapshot, finish_snapshot, nesting_error,
  prepare_parent_snapshot, prepare_snapshot, prepared, rejected, upsert_multiple_component_images,
  upsert_new_component_image,
}
use integration_service.Snapshot.Sound.{
  EveryComponent, IsAdmitted, IsNew, NodupOnSuccess, NodupOnSuccess-get_all, component_key,
  component_keys, components_of-component_keys, own-IsAdmitted, upsert-IsAdmitted,
}
use integration_service.Snapshot.Steps.{Keeps, finish_parent_snapshot-Keeps, finish_snapshot-Keeps}

pub IsNew-of_lookup :
    (k : String) (c : SnapshotComponent) (m : Dict SnapshotComponent)
    → lookup k m ≡ some c
    → IsNew c (components_of m)
IsNew-of_lookup k c [] found = cc
IsNew-of_lookup k c ((j, d) ∷ m) found = elim (Bool-cases (j == k)) [
  | inl same ↦ let value : c ≡ d = ground arith in inl value
  | inr other ↦ let later : lookup k m ≡ some c = ground arith in inr (IsNew-of_lookup k c m later)
]

EveryComponent-weaken :
    (P Q : SnapshotComponent → Type 0) (l : List SnapshotComponent)
    → ((c : SnapshotComponent) → P c → Q c)
    → EveryComponent P l
    → EveryComponent Q l
EveryComponent-weaken P Q [] f h = tt
EveryComponent-weaken P Q (c ∷ l) f h = (f c h.0, EveryComponent-weaken P Q l f h.1)

pub IsNew-all : (l : List SnapshotComponent) → EveryComponent (λ c. IsNew c l) l
IsNew-all [] = tt
IsNew-all (c ∷ l) = (
  inl refl,
  EveryComponent-weaken (λ d. IsNew d l) (λ d. IsNew d (c ∷ l)) l (λ d. λ h. inr h) (IsNew-all l),
)

module _ (services : Services) (g : ComponentGroup) (news : List SnapshotComponent) where
  -- One component of a version, and all with a valid digest, new or promoted in one of the groups.
  abbrev pub IsSound : Prepared → Type 0
  IsSound (rejected e) = Unit
  IsSound (prepared s) =
      (s.component_group ≡ g.name)
      × IsNodup (component_keys s.components)
      × EveryComponent (IsAdmitted services g news) s.components

  abbrev IsKept : String → SnapshotComponent → Type 0
  IsKept k c = (k ≡ component_key c) × IsAdmitted services g news c

  IsSound-of_Keeps :
      (m : Dict SnapshotComponent) (p : Prepared)
      → AllEntries IsKept m
      → IsNodup (keys m)
      → Keeps g.name (components_of m) p
      → IsSound p
  IsSound-of_Keeps m (rejected e) all nodup kept = tt
  IsSound-of_Keeps m (prepared s) all nodup kept =
      let listed = components_of-component_keys (IsAdmitted services g news) m all in
      (
        kept.0,
        rw (kept.1, listed.0) nodup,
        subst (λ l. EveryComponent (IsAdmitted services g news) l) (sym kept.1) listed.1,
      )

  gathered-IsKept :
      OnSuccess IsKept (get_all_nested_snapshot_components services (max_depth + 2) g [] 0)
  gathered-IsKept =
      get_all-OnSuccess services IsKept (max_depth + 2) g [] 0
        (λ passed. λ h. λ chain. own-IsAdmitted services g news passed h chain)

  upsert_multiple-IsKept :
      (l : List SnapshotComponent) (acc : Gathered)
      → EveryComponent (λ c. IsNew c news) l
      → AllEntries IsKept acc.valid
      → IsNodup (keys acc.valid)
      → AllEntries IsKept (upsert_multiple_component_images services l acc).valid
        × IsNodup (keys (upsert_multiple_component_images services l acc).valid)
  unfolding upsert_multiple_component_images
  upsert_multiple-IsKept [] acc among all nodup = (all, nodup)
  upsert_multiple-IsKept (c ∷ l) acc among all nodup =
      let first = upsert-IsAdmitted services g c news acc among.0 all nodup in
      upsert_multiple-IsKept l (upsert_new_component_image services c acc) among.1 first.0 first.1

  IsSound-from :
      (n : Nested) (next : Gathered → Prepared)
      → OnSuccess IsKept n
      → NodupOnSuccess n
      → ((acc : Gathered)
          → AllEntries IsKept acc.valid
          → IsNodup (keys acc.valid)
          → IsSound (next acc))
      → IsSound (elim n [ failed e ↦ rejected (nesting_error e) | gathered acc ↦ next acc ])
  IsSound-from (failed e) next all nodup each = tt
  IsSound-from (gathered acc) next all nodup each = each acc all nodup

module _ (services : Services) where
  -- A Snapshot that is prepared for a new component has the name of the group and no two components of
  -- one version. Each of its components has a valid digest, and is the new one or that of an entry in
  -- the candidate list of the group, or of a group nested in it by a chain, whose spec lists the
  -- version as a component.
  pub prepare_snapshot-IsSound :
      (g : ComponentGroup) (new : SnapshotComponent)
      → IsSound services g (new ∷ []) (prepare_snapshot services g new)
  unfolding prepare_snapshot
  prepare_snapshot-IsSound g new =
      IsSound-from services g (new ∷ [])
        (get_all_nested_snapshot_components services (max_depth + 2) g [] 0)
        (λ acc. finish_snapshot services g new (upsert_new_component_image services new acc))
        (gathered-IsKept services g (new ∷ []))
        (NodupOnSuccess-get_all services (max_depth + 2) g [] 0)
        (λ acc. λ all. λ nodup.
          let added = upsert-IsAdmitted services g new (new ∷ []) acc (inl refl) all nodup in
          IsSound-of_Keeps services g (new ∷ []) (upsert_new_component_image services new acc).valid
            (finish_snapshot services g new (upsert_new_component_image services new acc)) added.0
            added.1
            (finish_snapshot-Keeps services g new (upsert_new_component_image services new acc)))

  -- A Snapshot that is prepared for a parent group has the name of the group and no two
  -- components of one version. Each of its components has a valid digest, and is a new one of
  -- the child Snapshot or that of an entry in the candidate list of the group, or of a group
  -- nested in it by a chain, whose spec lists the version as a component.
  pub prepare_parent_snapshot-IsSound :
      (g : ComponentGroup) (child : String) (news : List SnapshotComponent)
      → IsSound services g news (prepare_parent_snapshot services g child (some news))
  unfolding prepare_parent_snapshot
  prepare_parent_snapshot-IsSound g child news =
      IsSound-from services g news
        (get_all_nested_snapshot_components services (max_depth + 2) g [] 0)
        (λ acc.
          finish_parent_snapshot services g child news
            (upsert_multiple_component_images services news acc))
        (gathered-IsKept services g news) (NodupOnSuccess-get_all services (max_depth + 2) g [] 0)
        (λ acc. λ all. λ nodup.
          let added = upsert_multiple-IsKept services g news news acc (IsNew-all news) all nodup in
          IsSound-of_Keeps services g news
            (upsert_multiple_component_images services news acc).valid
            (finish_parent_snapshot services g child news
              (upsert_multiple_component_images services news acc))
            added.0 added.1
            (finish_parent_snapshot-Keeps services g child news
              (upsert_multiple_component_images services news acc)))
