-- ===== src/SnapshotGc/Newest.antt =====
-- What a non-PR snapshot that goes is older than.
use integration_service.Base.{
  Bool, Bool-cases, List, String, [], arith, contains, false, inl, inr, leb, true, ℕ, ◌&&◌, ◌+◌,
  ◌<◌, ◌∷◌, ◌≡◌,
}
use integration_service.Base.Int.{to_ℕ, ℤ}
use integration_service.Base.Sort.{Every-at, IsIn, IsOrdered}
use integration_service.SnapshotGc.{
  EverySnapshot, IsOrdering, IsSorting, Libraries, Snapshot, count_of,
  extract_cancelled_or_merged_pr_snapshots, is_non_pr_snapshot, newest_first,
}
use integration_service.SnapshotGc.Removal.{
  get_snapshots_for_removal, group_by_component, judge, preserved_names, short_list,
}
use integration_service.SnapshotGc.Safety.{EverySnapshot-map, Verdict-cases, short_list-Every}
use integration_service.SnapshotGc.Minimum.{later, later-IsWeakOrder}
use integration_service.SnapshotGc.Limits.{removed-limit}

module _ (libs : Libraries) (now : ℕ) (preserved cancelled : List String)
    (pr_limit non_pr_limit : ℤ) where
  -- A non-PR snapshot that is no older than s.
  abbrev pub is_newer : Snapshot → Snapshot → Bool
  is_newer s t = is_non_pr_snapshot libs t && leb s.created t.created

  -- Enough of them, with those that are kept already, for the limit.
  abbrev IsOutnumbered : ℕ → List Snapshot → Snapshot → Type 0
  IsOutnumbered kept_non_pr l s =
      is_non_pr_snapshot libs s ≡ true → to_ℕ non_pr_limit < kept_non_pr + count_of (is_newer s) l

  Every-both :
      (P Q R : Snapshot → Type 0) (l : List Snapshot)
      → ((s : Snapshot) → P s → Q s → R s)
      → EverySnapshot P l
      → EverySnapshot Q l
      → EverySnapshot R l
  Every-both P Q R [] f p q = tt
  Every-both P Q R (s ∷ l) f p q = (f s p.0 q.0, Every-both P Q R l f p.1 q.1)

  pub short_list-newest :
      (kept_pr kept_non_pr : ℕ) (l : List Snapshot)
      → IsOrdered later l
      → EverySnapshot
          (IsOutnumbered kept_non_pr l)
          (short_list libs now preserved cancelled pr_limit non_pr_limit kept_pr kept_non_pr l)
  unfolding short_list
  short_list-newest kept_pr kept_non_pr [] order = tt
  short_list-newest kept_pr kept_non_pr (s ∷ l) order =
      elim (Verdict-cases
        (judge libs now preserved cancelled pr_limit non_pr_limit kept_pr kept_non_pr s)) [
          | inr e ↦
              rw (e, short_list)
                (
                  (λ h.
                      let full =
                        removed-limit libs now preserved cancelled pr_limit non_pr_limit kept_pr
                          kept_non_pr s e h in
                      ground (arith, full, h)),
                  EverySnapshot-map (IsOutnumbered kept_non_pr l) _ _
                      (λ t more h. ground (arith, more h))
                      (short_list-newest kept_pr kept_non_pr l order.1),
                )
          | inl e ↦ elim (Bool-cases (is_non_pr_snapshot libs s)) [
            | inl non_pr ↦
                rw (e, short_list, non_pr)
                  (Every-both (λ t. (later t s ≡ false) × (contains preserved t.name ≡ false))
                    (IsOutnumbered (kept_non_pr + 1) l) _ _
                    (λ t newer more h. ground (arith, more h, newer.0, non_pr))
                    (short_list-Every libs now preserved cancelled pr_limit non_pr_limit
                      (λ t. later t s ≡ false) l kept_pr (kept_non_pr + 1) order.0)
                    (short_list-newest kept_pr (kept_non_pr + 1) l order.1))
            | inr pr ↦
                rw (e, short_list, pr)
                  (EverySnapshot-map (IsOutnumbered kept_non_pr l) _ _
                    (λ t more h. ground (arith, more h, pr))
                    (short_list-newest (kept_pr + 1) kept_non_pr l order.1))
          ]
        ]

-- A non-PR snapshot goes only if there are, besides itself, at least as many non-PR snapshots among the
-- candidates as the limit says, none of them older.
pub get_snapshots_for_removal-newest :
    (libs : Libraries) (now : ℕ) (l : List Snapshot) (pr_limit non_pr_limit minimum : ℤ)
    (s : Snapshot)
    → IsSorting libs
    → IsOrdering libs
    → IsIn s (get_snapshots_for_removal libs now l pr_limit non_pr_limit minimum)
    → is_non_pr_snapshot libs s ≡ true
    → to_ℕ non_pr_limit < count_of (λ t. is_non_pr_snapshot libs t && leb s.created t.created) l
unfolding get_snapshots_for_removal newest_first
get_snapshots_for_removal-newest libs now l pr_limit non_pr_limit minimum s sorting ordering goes
      non_pr =
    let sorted = newest_first libs l in
    let preserved = preserved_names libs minimum (group_by_component libs [] sorted) in
    let cancelled = extract_cancelled_or_merged_pr_snapshots libs sorted in
    let newer : Snapshot → Bool = λ t. is_non_pr_snapshot libs t && leb s.created t.created in
    let all =
      short_list-newest libs now preserved cancelled pr_limit non_pr_limit 0 0 sorted
        (ordering.orders later later-IsWeakOrder l) in
    ground (arith, Every-at _ s _ all goes non_pr, sorting.keeps_count later newer l)
