-- ===== src/Conditions/Tests.antt =====
-- A library that does what it promises, and a Snapshot that passes its tests.
use integration_service.Base.{
  Bool, Bool-cases, List, Option, String, [], arith, eq_iff, eq_of_==, false, if◌then◌else◌, inl,
  inr, none, not, refl, some, true, ◌==◌, ◌∷◌, ◌≡◌,
}
use integration_service.Base.Dict.{has_key, lookup}
use integration_service.Conditions.{
  Condition, Library, mark_snapshot_as_failed, mark_snapshot_as_passed,
  mark_snapshot_integration_status_as_finished, mark_snapshot_integration_status_as_in_progress,
  reset_snapshot_status_conditions,
}
use integration_service.Conditions.Machine.{
  IsLibrary, Mark, apply_marks, begin, fail, finish, fresh, marks_of, pass, reset, run,
}
use integration_service.Conditions.Agreement.{Agrees, apply_marks-Agrees}
use integration_service.Conditions.Promotion.{
  Meta, can_snapshot_be_promoted, event_type_label, is_context_valid_for_snapshot,
}
use integration_service.Conditions.Decision.{
  IsExact, can_snapshot_be_promoted-IsExact, is_context_valid_for_snapshot-push,
}

abbrev find : List Condition → String → Option Condition
find [] t = none
find (c ∷ l) t = let rest = find l t in if c.type == t then some c else rest

abbrev set : Condition → List Condition → List Condition
set c [] = c ∷ []
set c (d ∷ l) = let rest = set c l in if d.type == c.type then c ∷ l else d ∷ rest

abbrev status_is_true : Option Condition → Bool
status_is_true c = elim c [ none ↦ false | some d ↦ d.status == "True" ]

abbrev library : Library
library = record {
  find_status_condition = find;
  set_status_condition = set;
  is_status_condition_true = λ l t. status_is_true (find l t);
  has_label = λ labels k. has_key k labels;
  has_label_with_value = λ labels k v. elim (lookup k labels) [ none ↦ false | some w ↦ w == v ];
}

find-set_lem :
    (c : Condition) (l : List Condition) (t : String)
    → find (set c l) t ≡ (if c.type == t then some c else find l t)
find-set_lem c [] t = refl
find-set_lem c (d ∷ l) t = elim (Bool-cases (d.type == c.type)) [
  | inr other ↦
      rw (other, find-set_lem c l t)
        (ground (arith, eq_iff d.type c.type, eq_iff d.type t, eq_iff c.type t))
  | inl same ↦ rw (same, eq_of_== d.type c.type same) (ground arith)
]

library-IsLibrary : IsLibrary library
library-IsLibrary = record {
  find-empty = λ t. refl;
  find-set = find-set_lem;
  true-find = λ l t. refl;
}

-- The tests fail, run again, and pass; the patch of the first verdict is refused.
abbrev marks : List (Mark × Bool)
marks =
    (begin "started", true)
    ∷ (fail "red", false)
    ∷ (reset "again", true)
    ∷ (pass "green", true)
    ∷ (finish "done", true)
    ∷ []

abbrev push_meta : Meta
push_meta = record { labels = (event_type_label, "push") ∷ []; annotations = [] }

promoted-reasons :
    (can_snapshot_be_promoted library push_meta (apply_marks library marks []) ≡ (true, []))
    × (can_snapshot_be_promoted library push_meta []
        ≡ (false, "the Snapshot has not yet finished testing" ∷ []))
unfolding can_snapshot_be_promoted mark_snapshot_integration_status_as_finished
    mark_snapshot_as_passed reset_snapshot_status_conditions mark_snapshot_as_failed
    mark_snapshot_integration_status_as_in_progress
promoted-reasons = (refl, refl)

apply_marks-Agrees_example :
    Agrees library (apply_marks library marks []) (run (marks_of marks) fresh)
apply_marks-Agrees_example = apply_marks-Agrees library marks library-IsLibrary

can_snapshot_be_promoted-IsExact_example :
    IsExact library push_meta
      (run (marks_of marks) fresh)
      (can_snapshot_be_promoted library push_meta (apply_marks library marks []))
can_snapshot_be_promoted-IsExact_example =
    can_snapshot_be_promoted-IsExact library push_meta marks library-IsLibrary

is_context_valid_for_snapshot-push_example :
    is_context_valid_for_snapshot library "pull_request" push_meta
    ≡ not (is_context_valid_for_snapshot library "push" push_meta)
is_context_valid_for_snapshot-push_example = is_context_valid_for_snapshot-push library push_meta
