-- ===== src/SnapshotGc/Minimum.antt =====
-- What stays of the push snapshots of a component.
use integration_service.Base.{
  ==_self, Bool, Bool-cases, List, String, [], ap, arith, contains, contains-append, eq_iff, false,
  if◌then◌else◌, inl, inr, length, ltb, nat_eq, refl, some, subst, sym, true, ℕ, ◌&&◌, ◌-◌, ◌<◌,
  ◌==◌, ◌∷◌, ◌≡◌, ◌≤◌,
}
use integration_service.Base.Dict.{Dict}
use integration_service.Base.Int.{to_ℕ, ℤ}
use integration_service.Base.Sort.{Every-IsIn, Every-at, IsIn, IsOrdered, IsWeakOrder}
use integration_service.SnapshotGc.{
  EverySnapshot, IsOrdering, IsSorting, Libraries, Snapshot, count_of,
  extract_cancelled_or_merged_pr_snapshots, newest_first, newest_of_component,
}
use integration_service.SnapshotGc.Removal.{
  component_of, first_names, get_snapshots_for_removal, group_at, group_by_component,
  preserved_names,
}
use integration_service.SnapshotGc.Safety.{EverySnapshot-map, short_list-Every}
use integration_service.SnapshotGc.Groups.{
  IsIn-group_of, group_at-group_by_component, group_of, group_of-count, is_of,
}

first_names-nothing :
    (n : ℕ) (l : List Snapshot) (name : String)
    → EverySnapshot (λ s. true ≡ false) l
    → contains (first_names n l) name ≡ false
first_names-nothing n [] name h = refl
first_names-nothing n (s ∷ l) name h = cc

preserved-group :
    (libs : Libraries) (minimum : ℤ) (groups : Dict (List Snapshot)) (k name : String)
    → IsSorting libs
    → contains (preserved_names libs minimum groups) name ≡ false
    → contains (first_names (to_ℕ minimum) (newest_of_component libs (group_at k groups))) name
      ≡ false
unfolding preserved_names newest_of_component
preserved-group libs minimum [] k name sorting h =
    first_names-nothing (to_ℕ minimum) (newest_of_component libs []) name
      (sorting.keeps_every _ (λ s. true ≡ false) [] tt)
preserved-group libs minimum ((j, group) ∷ groups) k name sorting h =
    let front = first_names (to_ℕ minimum) (newest_of_component libs group) in
    elim (Bool-cases (j == k)) [
      | inl e ↦
          rw (e, group_at)
            (ground (arith, h, contains-append front (preserved_names libs minimum groups) name))
      | inr e ↦
          rw (e, group_at)
            (preserved-group libs minimum groups k name sorting
              (ground (arith, h, contains-append front (preserved_names libs minimum groups) name)))
    ]

-- None of the snapshots that go has a preserved name of the component.
spared_names :
    (libs : Libraries) (now : ℕ) (l : List Snapshot) (pr_limit non_pr_limit minimum : ℤ)
    (k : String)
    → IsSorting libs
    → EverySnapshot
        (λ s.
          IsIn s (newest_first libs l)
          × (contains
                (first_names
                  (to_ℕ minimum)
                  (newest_of_component libs (group_of libs k (newest_first libs l))))
                s.name
              ≡ false))
        (get_snapshots_for_removal libs now l pr_limit non_pr_limit minimum)
unfolding get_snapshots_for_removal
spared_names libs now l pr_limit non_pr_limit minimum k sorting =
    let sorted = newest_first libs l in
    let groups = group_by_component libs [] sorted in
    EverySnapshot-map
      (λ s. IsIn s sorted × (contains (preserved_names libs minimum groups) s.name ≡ false)) _ _
      (λ s h. (
        h.0,
        subst
            (λ g. contains (first_names (to_ℕ minimum) (newest_of_component libs g)) s.name ≡ false)
            (group_at-group_by_component libs k [] sorted)
            (preserved-group libs minimum groups k s.name sorting h.1),
      ))
      (short_list-Every libs now (preserved_names libs minimum groups)
        (extract_cancelled_or_merged_pr_snapshots libs sorted) pr_limit non_pr_limit
        (λ s. IsIn s sorted) sorted 0 0 (Every-IsIn sorted))

-- The first n snapshots, and the names of any.
abbrev first : ℕ → List Snapshot → List Snapshot
first n [] = []
first n (s ∷ l) = let rest = first (n - 1) l in if nat_eq n 0 then [] else s ∷ rest

abbrev pub snapshot_names : List Snapshot → List String
snapshot_names [] = []
snapshot_names (s ∷ l) = s.name ∷ snapshot_names l

snapshot_names-first : (n : ℕ) (l : List Snapshot) → snapshot_names (first n l) ≡ first_names n l
snapshot_names-first n [] = refl
snapshot_names-first n (s ∷ l) = elim (Bool-cases (nat_eq n 0)) [
  | inl none_left ↦ rw none_left refl
  | inr some_left ↦ rw some_left (ap (λ r. s.name ∷ r) (snapshot_names-first (n - 1) l))
]

first-count-le :
    (test : Snapshot → Bool) (n : ℕ) (l : List Snapshot)
    → count_of test (first n l) ≤ count_of test l
first-count-le test n [] = omega arith
first-count-le test n (s ∷ l) = ground (arith, first-count-le test (n - 1) l)

-- A snapshot like s, as far as its name and its time go.
abbrev is_like : Snapshot → Snapshot → Bool
is_like s t = t.name == s.name && nat_eq t.created s.created

abbrev pub later : Snapshot → Snapshot → Bool
later a b = ltb b.created a.created

is_like_refl : (s : Snapshot) → is_like s s ≡ true
is_like_refl s = ground (arith, eq_iff s.name s.name)

pub later-IsWeakOrder : IsWeakOrder later
later-IsWeakOrder = record {
  asym = λ s t h. ground arith;
  not_less_trans = λ s t u h k. ground arith;
}

count-of_IsIn : (s : Snapshot) (l : List Snapshot) → IsIn s l → 0 < count_of (is_like s) l
count-of_IsIn s [] i = cc
count-of_IsIn s (t ∷ l) (inl e) = rw (← e, is_like_refl s) (omega arith)
count-of_IsIn s (t ∷ l) (inr i) = ground (arith, count-of_IsIn s l i)

not_older :
    (s t : Snapshot) (l : List Snapshot)
    → EverySnapshot (λ y. later y t ≡ false) l
    → 0 < count_of (is_like s) l
    → s.created ≤ t.created
not_older s t [] h here = absurd (omega arith)
not_older s t (y ∷ l) h here = elim (Bool-cases (is_like s y)) [
  | inl e ↦ ground (arith, e, h.0)
  | inr e ↦ not_older s t l h.1 (ground (arith, e, here))
]

-- A snapshot in an ordered list that is not among the first n comes after n that are no older.
first-no_older :
    (n : ℕ) (s : Snapshot) (l : List Snapshot)
    → IsOrdered later l
    → 0 < count_of (is_like s) l
    → contains (first_names n l) s.name ≡ false
    → (length (first n l) ≡ n) × EverySnapshot (λ t. s.created ≤ t.created) (first n l)
first-no_older n s [] order here absent = absurd (omega arith)
first-no_older n s (t ∷ l) order here absent = elim (Bool-cases (nat_eq n 0)) [
  | inl none_left ↦ rw none_left (ground (arith, none_left), tt)
  | inr some_left ↦
      let there : 0 < count_of (is_like s) l = ground (arith, some_left, absent, here) in
      let rest = first-no_older (n - 1) s l order.1 there (ground (arith, some_left, absent)) in
      rw some_left (ground (arith, some_left, rest.0), (not_older s t l order.0 there, rest.1))
]

-- For every push snapshot of a component that goes there are as many other push snapshots of the
-- component as the minimum says, none of them older, and none of their names is that of a snapshot
-- that goes.
pub get_snapshots_for_removal-minimum :
    (libs : Libraries) (now : ℕ) (l : List Snapshot) (pr_limit non_pr_limit minimum : ℤ)
    (s : Snapshot) (k : String)
    → IsSorting libs
    → IsOrdering libs
    → IsIn s (get_snapshots_for_removal libs now l pr_limit non_pr_limit minimum)
    → component_of libs s ≡ some k
    → (kept : List Snapshot) × (length kept ≡ to_ℕ minimum)
      × ((test : Snapshot → Bool) → count_of test kept ≤ count_of test (group_of libs k l))
      × EverySnapshot (λ t. s.created ≤ t.created) kept
      × EverySnapshot
          (λ gone. contains (snapshot_names kept) gone.name ≡ false)
          (get_snapshots_for_removal libs now l pr_limit non_pr_limit minimum)
unfolding newest_first newest_of_component
get_snapshots_for_removal-minimum libs now l pr_limit non_pr_limit minimum s k sorting ordering goes
      of_k =
    let sorted = newest_first libs l in
    let group = group_of libs k sorted in
    let newest = newest_of_component libs group in
    let n = to_ℕ minimum in
    let spared = spared_names libs now l pr_limit non_pr_limit minimum k sorting in
    let this = Every-at _ s _ spared goes in
    let there : 0 < count_of (is_like s) newest = ground (
      arith,
      sorting.keeps_count later (is_like s) group,
      count-of_IsIn s group (IsIn-group_of libs k s sorted (rw (is_of, of_k) (==_self k)) this.0),
    ) in
    let result =
      first-no_older n s newest (ordering.orders later later-IsWeakOrder group) there this.1 in
    (
      first n newest,
      result.0,
      (λ test. ground (
        arith,
        first-count-le test n newest,
        sorting.keeps_count later test group,
        group_of-count libs k test sorted,
        group_of-count libs k test l,
        sorting.keeps_count later (λ t. is_of libs k t && test t) l,
      )),
      result.1,
      EverySnapshot-map _ _ _
          (λ gone h.
            subst (λ x. contains x gone.name ≡ false) (sym (snapshot_names-first n newest)) h.1)
          spared,
    )
