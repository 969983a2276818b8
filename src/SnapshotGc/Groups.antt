-- ===== src/SnapshotGc/Groups.antt =====
-- The push snapshots of a component, as the code's map groups them and among the snapshots of a list.
use integration_service.Base.{
  Bool, Bool-cases, List, Option-cases, String, [], ap, arith, eq_of_==, false, if◌then◌else◌, inl,
  inr, none, refl, some, subst, sym, true, ◌&&◌, ◌++◌, ◌+◌, ◌==◌, ◌∙◌, ◌∷◌, ◌≡◌,
}
use integration_service.Base.Dict.{Dict, insert, lookup-insert}
use integration_service.Base.Sort.{IsIn}
use integration_service.SnapshotGc.{Libraries, Snapshot, count_of}
use integration_service.SnapshotGc.Removal.{component_of, group_at, group_by_component}

-- The push snapshots of a component, in the order of a list.
abbrev pub group_of : Libraries → String → List Snapshot → List Snapshot
group_of libs k [] = []
group_of libs k (s ∷ l) =
    let rest = group_of libs k l in
    elim (component_of libs s) [ some c ↦ if c == k then s ∷ rest else rest | none ↦ rest ]

append_assoc :
    (a : List Snapshot) (s : Snapshot) (b : List Snapshot) → ((a ++ s ∷ []) ++ b) ≡ (a ++ s ∷ b)
append_assoc [] s b = refl
append_assoc (x ∷ a) s b = ap (λ l. x ∷ l) (append_assoc a s b)

append-nil : (a : List Snapshot) → (a ++ []) ≡ a
append-nil [] = refl
append-nil (x ∷ a) = ap (λ l. x ∷ l) (append-nil a)

group_at-insert :
    (j k : String) (v : List Snapshot) (m : Dict (List Snapshot))
    → group_at k (insert j v m) ≡ (if j == k then v else group_at k m)
group_at-insert j k v m = elim (Bool-cases (j == k)) [
  | inl e ↦ rw (lookup-insert j k v m, group_at) (rw e refl)
  | inr e ↦ rw (lookup-insert j k v m, group_at) (rw e refl)
]

pub group_at-group_by_component :
    (libs : Libraries) (k : String) (groups : Dict (List Snapshot)) (l : List Snapshot)
    → group_at k (group_by_component libs groups l) ≡ (group_at k groups ++ group_of libs k l)
unfolding group_by_component
group_at-group_by_component libs k groups [] = sym (append-nil (group_at k groups))
group_at-group_by_component libs k groups (s ∷ l) = elim (Option-cases (component_of libs s)) [
  | inl e ↦ rw (e, group_by_component, group_of) (group_at-group_by_component libs k groups l)
  | inr (c, e) ↦
      rw (e, group_by_component, group_of)
        (group_at-group_by_component libs k (insert c (group_at c groups ++ s ∷ []) groups) l
          ∙ elim (Bool-cases (c == k)) [
            | inl same ↦ rw (group_at-insert c k (group_at c groups ++ s ∷ []) groups) (
                rw same (
                  subst
                    (λ x.
                      ((group_at x groups ++ s ∷ []) ++ group_of libs k l)
                      ≡ (group_at k groups ++ s ∷ group_of libs k l))
                    (sym (eq_of_== c k same))
                    (append_assoc (group_at k groups) s (group_of libs k l))))
            | inr other ↦
                rw (group_at-insert c k (group_at c groups ++ s ∷ []) groups) (rw other refl)
          ])
]

abbrev pub is_of : Libraries → String → Snapshot → Bool
is_of libs k s = elim (component_of libs s) [ some c ↦ c == k | none ↦ false ]

group_of-cons :
    (libs : Libraries) (k : String) (s : Snapshot) (l : List Snapshot)
    → group_of libs k (s ∷ l)
      ≡ (if is_of libs k s then s ∷ group_of libs k l else group_of libs k l)
group_of-cons libs k s l = elim (Option-cases (component_of libs s)) [
  | inl e ↦ rw (group_of, is_of, e) refl
  | inr (c, e) ↦ rw (group_of, is_of, e) refl
]

pub IsIn-group_of :
    (libs : Libraries) (k : String) (s : Snapshot) (l : List Snapshot)
    → is_of libs k s ≡ true
    → IsIn s l
    → IsIn s (group_of libs k l)
IsIn-group_of libs k s [] of_k i = i
IsIn-group_of libs k s (t ∷ l) of_k (inl e) =
    rw (group_of-cons libs k t l, subst (λ x. is_of libs k x ≡ true) e of_k) (inl e)
IsIn-group_of libs k s (t ∷ l) of_k (inr i) = elim (Bool-cases (is_of libs k t)) [
  | inl same ↦ rw (group_of-cons libs k t l, same) (inr (IsIn-group_of libs k s l of_k i))
  | inr other ↦ rw (group_of-cons libs k t l, other) (IsIn-group_of libs k s l of_k i)
]

-- The order of the snapshots does not matter to how many a component has.
pub group_of-count :
    (libs : Libraries) (k : String) (test : Snapshot → Bool) (l : List Snapshot)
    → count_of test (group_of libs k l) ≡ count_of (λ s. is_of libs k s && test s) l
group_of-count libs k test [] = refl
group_of-count libs k test (s ∷ l) = elim (Bool-cases (is_of libs k s)) [
  | inl same ↦
      rw (group_of-cons libs k s l, same)
        (ap (λ n. (if test s then 1 else 0) + n) (group_of-count libs k test l))
  | inr other ↦ rw (group_of-cons libs k s l, other) (ground (arith, group_of-count libs k test l))
]
