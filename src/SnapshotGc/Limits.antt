-- ===== src/SnapshotGc/Limits.antt =====
-- The non-PR snapshots that stay.
use integration_service.Base.{
  Bool, Bool-cases, List, String, [], arith, contains, if◌then◌else◌, inl, inr, length, refl, subst,
  true, ℕ, ◌+◌, ◌<◌, ◌∙◌, ◌∷◌, ◌≡◌, ◌≤◌,
}
use integration_service.Base.Dict.{Dict}
use integration_service.Base.Int.{below, below-eq-ltb, minus, negsuc, pos, to_ℕ, ℤ}
use integration_service.SnapshotGc.{
  IsSorting, Libraries, Snapshot, count_of, extract_cancelled_or_merged_pr_snapshots,
  filter_snapshots_with_keep_snapshot_annotation, is_non_pr_snapshot, is_reserved, newest_first,
}
use integration_service.SnapshotGc.Removal.{
  get_snapshots_for_removal, group_by_component, judge, preserved_names, removed, short_list,
}
use integration_service.SnapshotGc.Run.{Limits, doomed}
use integration_service.SnapshotGc.Safety.{Verdict-cases}

pub short_list-le :
    (test : Snapshot → Bool) (libs : Libraries) (now : ℕ) (preserved cancelled : List String)
    (pr_limit non_pr_limit : ℤ) (kept_pr kept_non_pr : ℕ) (l : List Snapshot)
    → count_of test
        (short_list libs now preserved cancelled pr_limit non_pr_limit kept_pr kept_non_pr l)
      ≤ count_of test l
unfolding short_list
short_list-le test libs now preserved cancelled pr_limit non_pr_limit kept_pr kept_non_pr [] =
    omega arith
short_list-le test libs now preserved cancelled pr_limit non_pr_limit kept_pr kept_non_pr (s ∷ l) =
    elim (Verdict-cases
      (judge libs now preserved cancelled pr_limit non_pr_limit kept_pr kept_non_pr s)) [
        | inl e ↦
            rw (e, short_list)
              (ground (
                arith,
                short_list-le test libs now preserved cancelled pr_limit non_pr_limit
                    (if is_non_pr_snapshot libs s then kept_pr else kept_pr + 1)
                    (if is_non_pr_snapshot libs s then kept_non_pr + 1 else kept_non_pr) l,
              ))
        | inr e ↦
            rw (e, short_list)
              (ground (
                arith,
                short_list-le test libs now preserved cancelled pr_limit non_pr_limit kept_pr
                    kept_non_pr l,
              ))
      ]

module _ (libs : Libraries) (now : ℕ) (preserved cancelled : List String)
    (pr_limit non_pr_limit : ℤ) where
  pub removed-limit :
      (kept_pr kept_non_pr : ℕ) (s : Snapshot)
      → judge libs now preserved cancelled pr_limit non_pr_limit kept_pr kept_non_pr s ≡ removed
      → is_non_pr_snapshot libs s ≡ true
      → to_ℕ non_pr_limit ≤ kept_non_pr
  unfolding judge
  removed-limit kept_pr kept_non_pr s = elim (Bool-cases (contains preserved s.name)) [
    | inl e ↦ rw e (λ h k. cc)
    | inr e ↦ rw e (elim (Bool-cases (is_non_pr_snapshot libs s)) [
      | inr k ↦ λ h k'. cc
      | inl k ↦ rw k (elim (Bool-cases (below kept_non_pr non_pr_limit)) [
        | inl b ↦ rw b (λ h k'. cc)
        | inr b ↦ λ h k'. ground (arith, b, below-eq-ltb kept_non_pr non_pr_limit)
      ])
    ])
  ]

  short_list-limit :
      (kept_pr kept_non_pr : ℕ) (l : List Snapshot)
      → 0
        < count_of
            (is_non_pr_snapshot libs)
            (short_list libs now preserved cancelled pr_limit non_pr_limit kept_pr kept_non_pr l)
      → count_of
            (is_non_pr_snapshot libs)
            (short_list libs now preserved cancelled pr_limit non_pr_limit kept_pr kept_non_pr l)
          + to_ℕ non_pr_limit
        ≤ kept_non_pr + count_of (is_non_pr_snapshot libs) l
  unfolding short_list
  short_list-limit kept_pr kept_non_pr [] = λ h. ground arith
  short_list-limit kept_pr kept_non_pr (s ∷ l) =
      elim (Verdict-cases
        (judge libs now preserved cancelled pr_limit non_pr_limit kept_pr kept_non_pr s)) [
          | inl e ↦
              rw (e, short_list)
                (λ h. ground (
                  arith,
                  h,
                  short_list-limit (if is_non_pr_snapshot libs s then kept_pr else kept_pr + 1)
                      (if is_non_pr_snapshot libs s then kept_non_pr + 1 else kept_non_pr) l,
                ))
          | inr e ↦
              rw (e, short_list)
                (λ h. ground (
                  arith,
                  removed-limit kept_pr kept_non_pr s e,
                  short_list-limit kept_pr kept_non_pr l,
                  short_list-le (is_non_pr_snapshot libs) libs now preserved cancelled pr_limit
                      non_pr_limit kept_pr kept_non_pr l,
                ))
        ]

filter-count :
    (libs : Libraries) (now : ℕ) (l : List Snapshot)
    → count_of (is_non_pr_snapshot libs) l
      ≡ count_of
          (is_non_pr_snapshot libs)
          (filter_snapshots_with_keep_snapshot_annotation libs now l).0
        + (filter_snapshots_with_keep_snapshot_annotation libs now l).2
unfolding filter_snapshots_with_keep_snapshot_annotation
filter-count libs now [] = refl
filter-count libs now (s ∷ l) = elim (Bool-cases (is_reserved libs now s)) [
  | inl e ↦ rw e (elim (Bool-cases (is_non_pr_snapshot libs s)) [
    | inl k ↦ rw k (ground (arith, filter-count libs now l))
    | inr k ↦ rw k (ground (arith, filter-count libs now l))
  ])
  | inr e ↦ rw e (ground (arith, filter-count libs now l))
]

to_ℕ-minus : (z : ℤ) (k : ℕ) → to_ℕ z ≤ to_ℕ (minus z k) + k
to_ℕ-minus (pos a) k = ground arith
to_ℕ-minus (negsuc a) k = ground arith

zero_add : (n : ℕ) → 0 + n ≡ n
zero_add n = omega arith

get_snapshots_for_removal-limit :
    (libs : Libraries) (now : ℕ) (l : List Snapshot) (pr_limit non_pr_limit minimum : ℤ)
    → IsSorting libs
    → 0
      < count_of
          (is_non_pr_snapshot libs)
          (get_snapshots_for_removal libs now l pr_limit non_pr_limit minimum)
    → count_of
          (is_non_pr_snapshot libs)
          (get_snapshots_for_removal libs now l pr_limit non_pr_limit minimum)
        + to_ℕ non_pr_limit
      ≤ count_of (is_non_pr_snapshot libs) l
unfolding get_snapshots_for_removal newest_first
get_snapshots_for_removal-limit libs now l pr_limit non_pr_limit minimum sorting h =
    let sorted = newest_first libs l in
    subst
      (λ n.
        count_of (is_non_pr_snapshot libs)
            (get_snapshots_for_removal libs now l pr_limit non_pr_limit minimum)
          + to_ℕ non_pr_limit
        ≤ n)
      (zero_add (count_of (is_non_pr_snapshot libs) sorted)
        ∙ sorting.keeps_count _ (is_non_pr_snapshot libs) l)
      (short_list-limit libs now (preserved_names libs minimum (group_by_component libs [] sorted))
        (extract_cancelled_or_merged_pr_snapshots libs sorted) pr_limit non_pr_limit 0 0 sorted h)

-- A namespace that loses a non-PR snapshot keeps as many of them as the limit allows: those that stay
-- among its snapshots without a release, and the snapshots that its releases name, are together no
-- fewer than the limit.
pub doomed-limit :
    (libs : Libraries) (now : ℕ) (limits : Limits) (releases : Dict String) (found : List Snapshot)
    → IsSorting libs
    → 0 < count_of (is_non_pr_snapshot libs) (doomed libs now limits releases found)
    → count_of (is_non_pr_snapshot libs) (doomed libs now limits releases found)
        + to_ℕ limits.non_pr_snapshots
      ≤ count_of (is_non_pr_snapshot libs) found + length releases
unfolding doomed
doomed-limit libs now limits releases found sorting h =
    let filtered = filter_snapshots_with_keep_snapshot_annotation libs now found in
    let less = minus limits.non_pr_snapshots filtered.2 in
    ground (
      arith,
      get_snapshots_for_removal-limit libs now filtered.0 (minus limits.pr_snapshots filtered.1)
          (minus less (length releases)) limits.min_per_component sorting h,
      filter-count libs now found,
      to_ℕ-minus limits.non_pr_snapshots filtered.2,
      to_ℕ-minus less (length releases),
    )
