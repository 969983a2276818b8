-- ===== src/Dag/Validation.antt =====
-- The two validators accept exactly the relations without a cycle.
use Prim.Native.String.{◌++◌ as text_append}
use mathlib.Core.Option
use integration_service.Base.{
  Bool, Bool-cases, List, String, [], arith, contains, contains-append, eq_of_==, false,
  if◌then◌else◌, inl, inr, none, refl, some, subst, sym, true, ◌&&◌, ◌++◌, ◌==◌, ◌||◌, ◌↔◌, ◌∙◌,
  ◌∷◌, ◌≡◌,
}
use integration_service.Base.Dict.{has_key, insert, lookup, lookup-eq_of_absent, lookup-insert}
use integration_service.Dag.{
  Graph, NudgeRelationship, Outcome, TestGraph, add_scenarios, append_edge, check_graph_for_cycles,
  clean, cycle, ensure_key, exhausted, find_cycle, format_cycle_path, neighbors, node_names,
  nudge_adjacency, test_adjacency, validate_nudge_graph, validate_test_graph,
}
use integration_service.Dag.Walks.{IsCycle-Walk, Walk, edge, step}
use integration_service.Dag.Verdict.{Verdict, find_cycle-Verdict}

-- A chain of one step or more in a relation.
pub data Reaches (R : String → String → Bool) : String → String → Type 0 where
  one : {x y : String} → R x y ≡ true → Reaches R x y
  more : {x y z : String} → R x y ≡ true → Reaches R y z → Reaches R x z

abbrev pub HasNoCycle : (String → String → Bool) → Type 0
HasNoCycle R = (x : String) → ¬ Reaches R x x

abbrev Describes : (String → String → Bool) → Graph → Type 0
Describes R adj = (x y : String) → contains (neighbors adj x) y ≡ R x y

Walk-Reaches :
    (R : String → String → Bool) (adj : Graph) {x y : String}
    → Describes R adj
    → Walk adj x y
    → Reaches R x y
Walk-Reaches R adj {x} {y} d (edge n) = one (sym (d x y) ∙ n)
Walk-Reaches R adj {x} d (step {y = m} n w) = more (sym (d x m) ∙ n) (Walk-Reaches R adj d w)

Reaches-Walk :
    (R : String → String → Bool) (adj : Graph) {x y : String}
    → Describes R adj
    → Reaches R x y
    → Walk adj x y
Reaches-Walk R adj {x} {y} d (one n) = edge (d x y ∙ n)
Reaches-Walk R adj {x} d (more {y = m} n w) = step (d x m ∙ n) (Reaches-Walk R adj d w)

check_iff :
    (R : String → String → Bool) (adj : Graph) (prefix : String → String)
    → Describes R adj
    → (Option.map prefix (check_graph_for_cycles adj) ≡ none) ↔ HasNoCycle R
unfolding check_graph_for_cycles
check_iff R adj prefix d = verdict (find_cycle adj) (find_cycle-Verdict adj)
  where
    verdict :
        (o : Outcome)
        → Verdict adj o
        → (Option.map prefix (elim o [
          | cycle path ↦ some (format_cycle_path path)
          | clean s ↦ none
          | exhausted ↦ some ""
        ])
            ≡ none)
          ↔ HasNoCycle R
    verdict (cycle c) k = (
      (λ e. cc),
      (λ acyclic. let (x, w) = IsCycle-Walk adj c k in absurd (acyclic x (Walk-Reaches R adj d w))),
    )
    verdict (clean s) k = ((λ e x r. k x (Reaches-Walk R adj d r)), (λ acyclic. refl))
    verdict exhausted k = elim k [ ]

-- Whether one of the relationships goes from `x` to `y`.
abbrev pub nudges_to : List NudgeRelationship → String → String → Bool
nudges_to [] x y = false
nudges_to (n ∷ nudges) x y = n.from == x && n.to == y || nudges_to nudges x y

neighbors-insert :
    (k x : String) (l : List String) (adj : Graph)
    → neighbors (insert k l adj) x ≡ (if k == x then l else neighbors adj x)
neighbors-insert k x l adj = elim (Bool-cases (k == x)) [
  | inl same ↦ rw (lookup-insert k x l adj, same, neighbors) refl
  | inr other ↦ rw (lookup-insert k x l adj, other, neighbors) refl
]

neighbors-ensure_key :
    (k x : String) (adj : Graph) → neighbors (ensure_key k adj) x ≡ neighbors adj x
neighbors-ensure_key k x adj = elim (Bool-cases (has_key k adj)) [
  | inl there ↦ rw there refl
  | inr absent ↦ rw absent (
      rw neighbors-insert (elim (Bool-cases (k == x)) [
        | inl same ↦ rw same (sym (empty (eq_of_== k x same) absent))
        | inr other ↦ rw other refl
      ]))
]
  where
    empty : k ≡ x → has_key k adj ≡ false → neighbors adj x ≡ []
    empty e a =
        rw (lookup-eq_of_absent x adj (subst (λ j. has_key j adj ≡ false) e a), neighbors) refl

append_edge-contains :
    (k t : String) (adj : Graph) (x y : String)
    → contains (neighbors (append_edge k t adj) x) y
      ≡ (contains (neighbors adj x) y || k == x && t == y)
append_edge-contains k t adj x y = rw neighbors-insert (elim (Bool-cases (k == x)) [
  | inl same ↦ rw same (
      subst (λ j. contains (neighbors adj j ++ t ∷ []) y ≡ (contains (neighbors adj x) y || t == y))
        (sym (eq_of_== k x same)) (ground (arith, contains-append (neighbors adj x) (t ∷ []) y)))
  | inr other ↦ rw other (ground arith)
])

nudge_adjacency-neighbors :
    (nudges : List NudgeRelationship) (adj : Graph) (x y : String)
    → contains (neighbors (nudge_adjacency nudges adj) x) y
      ≡ (contains (neighbors adj x) y || nudges_to nudges x y)
unfolding nudge_adjacency
nudge_adjacency-neighbors [] adj x y = ground arith
nudge_adjacency-neighbors (n ∷ nudges) adj x y =
    nudge_adjacency-neighbors nudges (ensure_key n.to (append_edge n.from n.to adj)) x y
    ∙ rw neighbors-ensure_key (ground (arith, append_edge-contains n.from n.to adj x y))

-- A list of nudge relationships is accepted exactly when no component comes back to itself by one
-- nudge or more.
pub validate_nudge_graph_iff :
    (nudges : List NudgeRelationship)
    → (validate_nudge_graph nudges ≡ none) ↔ HasNoCycle (nudges_to nudges)
unfolding validate_nudge_graph
validate_nudge_graph_iff [] = ((λ e x r. no_nudge r), (λ acyclic. refl))
  where
    no_nudge : {x y : String} → Reaches (nudges_to []) x y → ⊥
    no_nudge (one n) = cc
    no_nudge (more n r) = cc
validate_nudge_graph_iff (n ∷ nudges) =
    check_iff (nudges_to (n ∷ nudges)) (nudge_adjacency (n ∷ nudges) [])
      (λ path. text_append "invalid NudgeGraph - cycle detected: " path)
      (nudge_adjacency-neighbors (n ∷ nudges) [])

-- Whether `y` is a declared parent of `x`.
abbrev pub has_declared_parent : TestGraph → String → String → Bool
has_declared_parent graph x y = elim (lookup x graph) [
  | some parents ↦ contains (node_names parents) y
  | none ↦ false
]

test_adjacency-neighbors :
    (graph : TestGraph) (x y : String)
    → contains (neighbors (test_adjacency graph) x) y ≡ has_declared_parent graph x y
unfolding test_adjacency
test_adjacency-neighbors [] x y = refl
test_adjacency-neighbors ((k, parents) ∷ graph) x y =
    ground (arith, test_adjacency-neighbors graph x y)

insert-parents :
    (k : String) (graph : TestGraph) (x y : String)
    → has_key k graph ≡ false
    → has_declared_parent (insert k [] graph) x y ≡ has_declared_parent graph x y
insert-parents k graph x y absent = elim (Bool-cases (k == x)) [
  | inl same ↦
      let missing =
        lookup-eq_of_absent x graph
          (subst (λ j. has_key j graph ≡ false) (eq_of_== k x same) absent) in
      rw (missing, has_declared_parent)
        (rw (lookup-insert k x [] graph, same, has_declared_parent) refl)
  | inr other ↦ rw (lookup-insert k x [] graph, other, has_declared_parent) refl
]

add_scenarios-parents :
    (scenarios : List String) (graph : TestGraph) (x y : String)
    → has_declared_parent (add_scenarios scenarios graph) x y ≡ has_declared_parent graph x y
unfolding add_scenarios
add_scenarios-parents [] graph x y = refl
add_scenarios-parents (scenario ∷ scenarios) graph x y =
    elim (Bool-cases (has_key scenario graph)) [
      | inl there ↦ rw there (add_scenarios-parents scenarios graph x y)
      | inr absent ↦ rw absent (
          add_scenarios-parents scenarios (insert scenario [] graph) x y
          ∙ insert-parents scenario graph x y absent)
    ]

-- A test graph is accepted exactly when no scenario comes back to itself by one declared parent or
-- more, whatever scenarios the graph is checked with.
pub validate_test_graph_iff :
    (graph : TestGraph) (scenarios : List String)
    → (validate_test_graph graph scenarios ≡ none) ↔ HasNoCycle (has_declared_parent graph)
unfolding validate_test_graph
validate_test_graph_iff graph scenarios =
    check_iff (has_declared_parent graph) (test_adjacency (add_scenarios scenarios graph))
      (λ path. text_append "invalid TestGraph - cycle detected: " path)
      (λ x y.
        test_adjacency-neighbors (add_scenarios scenarios graph) x y
        ∙ add_scenarios-parents scenarios graph x y)
