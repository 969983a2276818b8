-- ===== src/Cascade/Reach.antt =====
-- The walk ends, and it fails only tests that a chain of fail-fast edges leads to.
use integration_service.Base.{
  ==_self, Bool-cases, List, Option-cases, String, [], ap, arith, contains, contains-append, eq_iff,
  eq_of_==, false, if◌then◌else◌, inl, inr, length, refl, some, subst, suc, sym, true, zero, ℕ,
  ◌++◌, ◌+◌, ◌<◌, ◌==◌, ◌∙◌, ◌∷◌, ◌≡◌, ◌≤◌, ◌⊎◌,
}
use integration_service.Base.Dict.{has_key}
use integration_service.Dag.{TestGraph, TestGraphNode}
use integration_service.TestStatus.{
  Detail, Statuses, get_scenario_status, is_final, test_fail, update_test_status_if_changed,
}
use integration_service.TestStatus.Updates.{update_sets}
use integration_service.Cascade.{
  Walk, cancelled_message, cascade_fail_fast_dependents, drain, first_walk, has_parent, mark_child,
  should_fail_fast_for_scenarios_parent, visit_child, visit_children,
}

-- A test that the failed one reaches by fail-fast edges.
pub data IsReached (graph : TestGraph) (failed : String) : String → Type 0 where
  here : IsReached graph failed failed
  next :
      (parent child : String)
      → IsReached graph failed parent
      → should_fail_fast_for_scenarios_parent graph child parent ≡ true
      → IsReached graph failed child

-- The test has an entry that is not final.
abbrev pub WasOpen : String → Statuses → Type 0
WasOpen k s = (d : Detail) × (get_scenario_status k s ≡ some d) × (is_final d.status ≡ false)

-- What the statuses say of a test in comparison with those before.
abbrev pub IsExplained : TestGraph → String → Statuses → Statuses → String → Type 0
IsExplained graph failed before after k =
    (get_scenario_status k after ≡ get_scenario_status k before)
    ⊎ (IsReached graph failed k
        × WasOpen k before
        × ((d : Detail) × (get_scenario_status k after ≡ some d) × (d.status ≡ test_fail)))

abbrev pub IsSoundWalk : TestGraph → String → Statuses → Walk → Type 0
IsSoundWalk graph failed before w =
    ((k : String) → contains w.queue k ≡ true → IsReached graph failed k)
    × ((k : String) → IsExplained graph failed before w.statuses k)

queue-cases : (l : List String) → (l ≡ []) ⊎ ((x : String) × (rest : List String) × (l ≡ x ∷ rest))
queue-cases [] = inl refl
queue-cases (x ∷ rest) = inr (x, rest, refl)

module _ (graph : TestGraph) (now : ℕ) (failed : String) (before : Statuses) where
  mark_child-IsSoundWalk :
      (parent child : String) (w : Walk)
      → IsReached graph failed child
      → WasOpen child w.statuses
      → IsSoundWalk graph failed before w
      → IsSoundWalk graph failed before (mark_child now parent child w)
  unfolding mark_child
  mark_child-IsSoundWalk parent child w reached open_now (queued, explained) =
      let (d, at, status, text, others) =
        update_sets child test_fail (cancelled_message parent) now w.statuses in
      (
        (λ k. elim (Bool-cases (contains w.seen child)) [
          | inl e ↦ rw e (queued k)
          | inr e ↦ rw e (λ h. elim (Bool-cases (child == k)) [
            | inl same ↦ subst (IsReached graph failed) (eq_of_== child k same) reached
            | inr other ↦
                queued k (ground (arith, h, other, contains-append w.queue (child ∷ []) k))
          ])
        ]),
        (λ k. elim (Bool-cases (child == k)) [
          | inl same ↦ inr (
            subst (IsReached graph failed) (eq_of_== child k same) reached,
            subst (λ x. WasOpen x before) (eq_of_== child k same) (was_open (explained child)),
            (
              d,
              subst
                  (λ x.
                    get_scenario_status x (
                      update_test_status_if_changed child test_fail (cancelled_message parent) now
                        w.statuses)
                    ≡ some d)
                  (eq_of_== child k same) at,
              status,
            ),
          )
          | inr other ↦ elim (explained k) [
            | inl same ↦ inl (others k other ∙ same)
            | inr (r, prior, (d', at', status')) ↦
                inr (r, prior, (d', others k other ∙ at', status'))
          ]
        ]),
      )
    where
      was_open : IsExplained graph failed before w.statuses child → WasOpen child before
      was_open (inl same) = (open_now.0, sym same ∙ open_now.1, open_now.2)
      was_open (inr (r, prior, rest)) = prior

  visit_child-IsSoundWalk :
      (parent child : String) (parents : List TestGraphNode) (w : Walk)
      → IsReached graph failed parent
      → IsSoundWalk graph failed before w
      → IsSoundWalk graph failed before (visit_child graph now parent child parents w)
  unfolding visit_child
  visit_child-IsSoundWalk parent child parents w reached sound =
      elim (Bool-cases (has_parent parents parent)) [
        | inr e ↦ rw (e, visit_child) sound
        | inl e ↦
            rw (e, visit_child)
              (elim (Bool-cases (should_fail_fast_for_scenarios_parent graph child parent)) [
                | inr f ↦ rw f sound
                | inl f ↦ rw f (elim (Option-cases (get_scenario_status child w.statuses)) [
                  | inl g ↦ rw g sound
                  | inr (d, g) ↦ rw g (elim (Bool-cases (is_final d.status)) [
                    | inl h ↦ rw h sound
                    | inr h ↦ rw h (
                        mark_child-IsSoundWalk parent child w (next parent child reached f)
                          (d, g, h) sound)
                  ])
                ])
              ])
      ]

  visit_children-IsSoundWalk :
      (parent : String) (rest : TestGraph) (w : Walk)
      → IsReached graph failed parent
      → IsSoundWalk graph failed before w
      → IsSoundWalk graph failed before (visit_children graph now parent rest w)
  unfolding visit_children
  visit_children-IsSoundWalk parent [] w reached sound = sound
  visit_children-IsSoundWalk parent ((child, parents) ∷ rest) w reached sound =
      visit_children-IsSoundWalk parent rest (visit_child graph now parent child parents w) reached
        (visit_child-IsSoundWalk parent child parents w reached sound)

  drain-IsSoundWalk :
      (fuel : ℕ) (w : Walk)
      → IsSoundWalk graph failed before w
      → IsSoundWalk graph failed before (drain graph now fuel w)
  unfolding drain
  drain-IsSoundWalk zero w sound = sound
  drain-IsSoundWalk (suc f) w sound = elim (queue-cases w.queue) [
    | inl e ↦ rw (e, drain) sound
    | inr (parent, rest, e) ↦
        rw (e, drain)
          (drain-IsSoundWalk f (visit_children graph now parent graph (record w { queue = rest })) (
            visit_children-IsSoundWalk parent graph (record w { queue = rest })
              (sound.0 parent (rw e (ground (arith, ==_self parent))))
              ((λ k h. sound.0 k (rw e (ground (arith, h)))), sound.1)))
  ]

-- The keys of the graph that the walk has not seen.
abbrev pub unseen : TestGraph → List String → ℕ
unseen [] seen = 0
unseen ((k, parents) ∷ graph) seen = (if contains seen k then 0 else 1) + unseen graph seen

unseen-more :
    (graph : TestGraph) (seen : List String) (k : String)
    → unseen graph (k ∷ seen) ≤ unseen graph seen
unseen-more [] seen k = omega arith
unseen-more ((j, parents) ∷ graph) seen k = ground (arith, unseen-more graph seen k)

unseen-fewer :
    (graph : TestGraph) (seen : List String) (k : String)
    → has_key k graph ≡ true
    → contains seen k ≡ false
    → unseen graph (k ∷ seen) < unseen graph seen
unseen-fewer [] seen k = λ h. cc
unseen-fewer ((j, parents) ∷ graph) seen k = λ h e.
    ground
      (arith, h, e, unseen-fewer graph seen k, unseen-more graph seen k, eq_iff j k, eq_iff k j)

unseen-le : (graph : TestGraph) (seen : List String) → unseen graph seen ≤ length graph
unseen-le [] seen = omega arith
unseen-le ((j, parents) ∷ graph) seen = ground (arith, unseen-le graph seen)

length-snoc : (l : List String) (x : String) → length (l ++ x ∷ []) ≡ length l + 1
length-snoc [] x = refl
length-snoc (y ∷ l) x = rw (length-snoc l x) (omega arith)

-- The rounds that a walk has left, at most.
abbrev pub work : TestGraph → Walk → ℕ
work graph w = unseen graph w.seen + length w.queue

module _ (graph : TestGraph) (now : ℕ) where
  visit_child-work :
      (parent child : String) (parents : List TestGraphNode) (w : Walk)
      → has_key child graph ≡ true
      → work graph (visit_child graph now parent child parents w) ≤ work graph w
  unfolding visit_child mark_child
  visit_child-work parent child parents w key = elim (Bool-cases (has_parent parents parent)) [
    | inr e ↦ rw (e, visit_child) (omega arith)
    | inl e ↦
        rw (e, visit_child)
          (elim (Bool-cases (should_fail_fast_for_scenarios_parent graph child parent)) [
            | inr f ↦ rw f (omega arith)
            | inl f ↦ rw f (elim (Option-cases (get_scenario_status child w.statuses)) [
              | inl g ↦ rw g (omega arith)
              | inr (d, g) ↦ rw g (elim (Bool-cases (is_final d.status)) [
                | inl h ↦ rw h (omega arith)
                | inr h ↦ rw h (elim (Bool-cases (contains w.seen child)) [
                  | inl i ↦ rw i (omega arith)
                  | inr i ↦ rw i (
                      ground
                        (arith, unseen-fewer graph w.seen child key i, length-snoc w.queue child))
                ])
              ])
            ])
          ])
  ]

  visit_children-work :
      (parent : String) (rest : TestGraph) (w : Walk)
      → ((k : String) → has_key k rest ≡ true → has_key k graph ≡ true)
      → work graph (visit_children graph now parent rest w) ≤ work graph w
  unfolding visit_children
  visit_children-work parent [] w part = omega arith
  visit_children-work parent ((child, parents) ∷ rest) w part = ground (
    arith,
    visit_children-work parent rest (visit_child graph now parent child parents w)
        (λ k h. part k (ground (arith, h))),
    visit_child-work parent child parents w (part child (ground (arith, ==_self child))),
  )

  drain-finishes : (fuel : ℕ) (w : Walk) → work graph w ≤ fuel → (drain graph now fuel w).queue ≡ []
  unfolding drain
  drain-finishes zero w h = elim (queue-cases w.queue) [
    | inl e ↦ e
    | inr (parent, rest, e) ↦ ground (arith, h, ap (λ l. length l) e)
  ]
  drain-finishes (suc f) w h = elim (queue-cases w.queue) [
    | inl e ↦ rw (e, drain) e
    | inr (parent, rest, e) ↦
        rw (e, drain)
          (drain-finishes f (visit_children graph now parent graph (record w { queue = rest })) (
            ground (
              arith,
              h,
              ap (λ l. length l) e,
              visit_children-work parent graph (record w { queue = rest }) (λ k x. x),
            )))
  ]

-- The walk empties its queue within its fuel. Afterwards, for every test, either its entry is what it
-- was, or it is one that the failed test reaches by fail-fast edges, it was there and not final, and
-- now it has failed.
pub cascade_fail_fast_dependents-IsExplained :
    (graph : TestGraph) (now : ℕ) (failed : String) (s : Statuses)
    → ((drain graph now (length graph + 1) (first_walk failed s)).queue ≡ [])
      × ((k : String)
          → IsExplained graph failed s (cascade_fail_fast_dependents graph now failed s) k)
unfolding cascade_fail_fast_dependents
cascade_fail_fast_dependents-IsExplained graph now failed s = (
  drain-finishes graph now (length graph + 1) (first_walk failed s)
      (ground (arith, unseen-le graph (failed ∷ []))),
  (drain-IsSoundWalk graph now failed s (length graph + 1) (first_walk failed s) (
    (λ k h. elim (Bool-cases (failed == k)) [
      | inl e ↦ subst (IsReached graph failed) (eq_of_== failed k e) here
      | inr e ↦ ground (arith, h, e)
    ]),
    (λ k. inl refl),
  )).1,
)
