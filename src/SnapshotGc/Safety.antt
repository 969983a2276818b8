-- ===== src/SnapshotGc/Safety.antt =====
-- What the garbage collector never deletes.
use integration_service.Base.{
  Bool, Bool-cases, List, Option, Option-cases, String, [], ap, arith, contains, eq_iff, false,
  if◌then◌else◌, inl, inr, none, refl, some, subst, sym, ℕ, ◌++◌, ◌+◌, ◌||◌, ◌∙◌, ◌∷◌, ◌≡◌, ◌⊎◌,
}
use integration_service.Base.Dict.{Dict, has_key, insert, keys-insert}
use integration_service.Base.Int.{ℤ}
use integration_service.SnapshotGc.{
  EverySnapshot, IsSorting, Libraries, Snapshot, filter_snapshots_with_keep_snapshot_annotation,
  is_non_pr_snapshot, is_reserved, newest_first,
}
use integration_service.SnapshotGc.Removal.{
  Verdict, get_snapshots_for_removal, judge, kept, removed, short_list,
}
use integration_service.SnapshotGc.Run.{
  Limits, World, collect_namespaces, delete_snapshots, doomed, doomed_in, forget,
  garbage_collect_snapshots, get_snapshots_for_ns_releases, get_tenant_namespaces,
  get_unassociated_ns_snapshots, release_map, unassociated,
}

pub EverySnapshot-map :
    (P Q : Snapshot → Type 0) (l : List Snapshot)
    → ((s : Snapshot) → P s → Q s)
    → EverySnapshot P l
    → EverySnapshot Q l
EverySnapshot-map P Q [] f h = tt
EverySnapshot-map P Q (s ∷ l) f h = (f s h.0, EverySnapshot-map P Q l f h.1)

unassociated-Every :
    (releases : Dict String) (l : List Snapshot)
    → EverySnapshot (λ s. has_key s.name releases ≡ false) (unassociated releases l)
unassociated-Every releases [] = tt
unassociated-Every releases (s ∷ l) = elim (Bool-cases (has_key s.name releases)) [
  | inl e ↦ rw e (unassociated-Every releases l)
  | inr e ↦ rw e (e, unassociated-Every releases l)
]

filter-Every :
    (libs : Libraries) (now : ℕ) (P : Snapshot → Type 0) (l : List Snapshot)
    → EverySnapshot P l
    → EverySnapshot
        (λ s. P s × (is_reserved libs now s ≡ false))
        (filter_snapshots_with_keep_snapshot_annotation libs now l).0
unfolding filter_snapshots_with_keep_snapshot_annotation
filter-Every libs now P [] h = tt
filter-Every libs now P (s ∷ l) h = elim (Bool-cases (is_reserved libs now s)) [
  | inl e ↦ rw e (elim (Bool-cases (is_non_pr_snapshot libs s)) [
    | inl k ↦ rw k (filter-Every libs now P l h.1)
    | inr k ↦ rw k (filter-Every libs now P l h.1)
  ])
  | inr e ↦ rw e ((h.0, e), filter-Every libs now P l h.1)
]

pub Verdict-cases : (v : Verdict) → (v ≡ kept) ⊎ (v ≡ removed)
Verdict-cases kept = inl refl
Verdict-cases removed = inr refl

module _ (libs : Libraries) (now : ℕ) (preserved cancelled : List String)
    (pr_limit non_pr_limit : ℤ) where
  removed-not_preserved :
      (kept_pr kept_non_pr : ℕ) (s : Snapshot)
      → judge libs now preserved cancelled pr_limit non_pr_limit kept_pr kept_non_pr s ≡ removed
      → contains preserved s.name ≡ false
  unfolding judge
  removed-not_preserved kept_pr kept_non_pr s = elim (Bool-cases (contains preserved s.name)) [
    | inl e ↦ rw e (λ h. cc)
    | inr e ↦ λ h. e
  ]

  pub short_list-Every :
      (P : Snapshot → Type 0) (l : List Snapshot) (kept_pr kept_non_pr : ℕ)
      → EverySnapshot P l
      → EverySnapshot
          (λ s. P s × (contains preserved s.name ≡ false))
          (short_list libs now preserved cancelled pr_limit non_pr_limit kept_pr kept_non_pr l)
  unfolding short_list
  short_list-Every P [] kept_pr kept_non_pr h = tt
  short_list-Every P (s ∷ l) kept_pr kept_non_pr h =
      elim (Verdict-cases
        (judge libs now preserved cancelled pr_limit non_pr_limit kept_pr kept_non_pr s)) [
          | inl e ↦
              rw (e, short_list)
                (short_list-Every P l (if is_non_pr_snapshot libs s then kept_pr else kept_pr + 1)
                  (if is_non_pr_snapshot libs s then kept_non_pr + 1 else kept_non_pr) h.1)
          | inr e ↦
              rw (e, short_list)
                (
                  (h.0, removed-not_preserved kept_pr kept_non_pr s e),
                  short_list-Every P l kept_pr kept_non_pr h.1,
                )
        ]

doomed-Every :
    (libs : Libraries) (now : ℕ) (limits : Limits) (releases : Dict String) (l : List Snapshot)
    → IsSorting libs
    → EverySnapshot
        (λ s. (has_key s.name releases ≡ false) × (is_reserved libs now s ≡ false))
        (doomed libs now limits releases (unassociated releases l))
unfolding doomed get_snapshots_for_removal newest_first
doomed-Every libs now limits releases l sorting =
    let P : Snapshot → Type 0 =
      λ s. (has_key s.name releases ≡ false) × (is_reserved libs now s ≡ false) in
    EverySnapshot-map _ P _ (λ s h. h.0)
      (short_list-Every libs now _ _ _ _ P _ 0 0 (
        sorting.keeps_every _ P _ (
          filter-Every libs now (λ s. has_key s.name releases ≡ false) (unassociated releases l)
            (unassociated-Every releases l))))

has_key-release_map :
    (k : String) (l : List String) (m : Dict String)
    → has_key k (release_map l m) ≡ (contains l k || has_key k m)
has_key-release_map k [] m = refl
has_key-release_map k (x ∷ l) m =
    ground (arith, has_key-release_map k l (insert x x m), keys-insert x k x m, eq_iff x k)

abbrev pub EveryCall : (String → Snapshot → Type 0) → List (String × Snapshot) → Type 0
EveryCall P [] = Unit
EveryCall P ((ns, s) ∷ l) = P ns s × EveryCall P l

EveryCall-append :
    (P : String → Snapshot → Type 0) (l rest : List (String × Snapshot))
    → EveryCall P l
    → EveryCall P rest
    → EveryCall P (l ++ rest)
EveryCall-append P [] rest h k = k
EveryCall-append P ((ns, s) ∷ l) rest h k = (h.0, EveryCall-append P l rest h.1 k)

delete-Every :
    (refuses : String → Snapshot → Bool) (ns : String) (P : String → Snapshot → Type 0) (w : World)
    (l : List Snapshot)
    → EverySnapshot (P ns) l
    → EveryCall P (delete_snapshots refuses ns w l).1
      × ((delete_snapshots refuses ns w l).0.releases_in ≡ w.releases_in)
unfolding delete_snapshots
delete-Every refuses ns P w [] h = (tt, refl)
delete-Every refuses ns P w (s ∷ l) h = elim (Bool-cases (refuses ns s)) [
  | inl e ↦ rw e (let (all, same) = delete-Every refuses ns P w l h.1 in ((h.0, all), same))
  | inr e ↦
      rw e (
        let (all, same) = delete-Every refuses ns P (forget ns s.name w) l h.1 in
        ((h.0, all), same))
]

-- A snapshot of a namespace that no release there names and that is not reserved.
abbrev pub IsSpare : Libraries → ℕ → (String → Option (List String)) → String → Snapshot → Type 0
IsSpare libs now releases_in ns s =
    ((l : List String) → releases_in ns ≡ some l → contains l s.name ≡ false)
    × (is_reserved libs now s ≡ false)

doomed_in-Every :
    (libs : Libraries) (now : ℕ) (limits : Limits) (w : World) (ns : String) (l : List Snapshot)
    → IsSorting libs
    → doomed_in libs now limits w ns ≡ some l
    → EverySnapshot (IsSpare libs now w.releases_in ns) l
unfolding doomed_in get_snapshots_for_ns_releases get_unassociated_ns_snapshots
doomed_in-Every libs now limits w ns l sorting = elim (Option-cases (w.releases_in ns)) [
  | inl e ↦ rw (e, doomed_in) (λ h. cc)
  | inr (names, e) ↦
      rw (e, doomed_in)
        (elim (Option-cases (w.snapshots_in ns)) [
          | inl e' ↦ rw e' (λ h. cc)
          | inr (found, e') ↦ rw e' (λ h.
              subst (EverySnapshot (IsSpare libs now w.releases_in ns)) {y = l}
                (ap (λ o. elim o [ some r ↦ r | none ↦ l ]) h)
                (EverySnapshot-map
                  (λ s.
                    (has_key s.name (release_map names []) ≡ false)
                    × (is_reserved libs now s ≡ false))
                  (IsSpare libs now w.releases_in ns) _
                  (λ s spare. (
                    (λ names' e''.
                        subst (λ x. contains x s.name ≡ false)
                          (ap (λ o. elim o [ some r ↦ r | none ↦ names ]) (sym e ∙ e''))
                          (ground (arith, spare.0, has_key-release_map s.name names []))),
                    spare.1,
                  ))
                  (doomed-Every libs now limits (release_map names []) found sorting)))
        ])
]

collect-Every :
    (libs : Libraries) (refuses : String → Snapshot → Bool) (now : ℕ) (limits : Limits) (w : World)
    (l : List String)
    → IsSorting libs
    → EveryCall (IsSpare libs now w.releases_in) (collect_namespaces libs refuses now limits w l).1
unfolding collect_namespaces
collect-Every libs refuses now limits w [] sorting = tt
collect-Every libs refuses now limits w (ns ∷ rest) sorting =
    elim (Option-cases (doomed_in libs now limits w ns)) [
      | inl e ↦ rw (e, collect_namespaces) (collect-Every libs refuses now limits w rest sorting)
      | inr (gone, e) ↦
          rw (e, collect_namespaces)
            (let (all, same) =
                delete-Every refuses ns (IsSpare libs now w.releases_in) w gone
                  (doomed_in-Every libs now limits w ns gone sorting e) in
              EveryCall-append (IsSpare libs now w.releases_in) _ _ all (
                subst
                  (λ r.
                    EveryCall (IsSpare libs now r)
                      (collect_namespaces libs refuses now limits
                        (delete_snapshots refuses ns w gone).0 rest).1)
                  same
                  (collect-Every libs refuses now limits (delete_snapshots refuses ns w gone).0 rest
                    sorting)))
    ]

-- Every snapshot that a run asks to delete is one that no release of its namespace names, and that has
-- no keep-snapshot annotation with the value true or with a time that has not passed, whatever the
-- limits are and whichever calls fail.
pub garbage_collect_snapshots-spares :
    (libs : Libraries) (refuses : String → Snapshot → Bool) (now : ℕ) (limits : Limits)
    (w w' : World) (calls : List (String × Snapshot))
    → IsSorting libs
    → garbage_collect_snapshots libs refuses now limits w ≡ some (w', calls)
    → EveryCall (IsSpare libs now w.releases_in) calls
unfolding garbage_collect_snapshots
garbage_collect_snapshots-spares libs refuses now limits w w' calls sorting =
    elim (Option-cases (get_tenant_namespaces w)) [
      | inl e ↦ rw (e, garbage_collect_snapshots) (λ h. cc)
      | inr (namespaces, e) ↦
          rw (e, garbage_collect_snapshots)
            (λ h.
              subst (EveryCall (IsSpare libs now w.releases_in)) {y = calls}
                (ap (λ o. elim o [ some r ↦ r.1 | none ↦ calls ]) h)
                (collect-Every libs refuses now limits w namespaces sorting))
    ]
