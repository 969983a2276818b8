-- ===== src/Dag/Trace.antt =====
-- `traceCycle` on the chain of parents.
use integration_service.Base.{
  Bool-cases, List, String, [], arith, contains, eq_of_==, inl, inr, length, refl, subst, suc, true,
  zero, ℕ, ◌++◌, ◌==◌, ◌∷◌, ◌≡◌, ◌≤◌,
}
use integration_service.Dag.{Graph, Outcome, cycle, neighbors, trace_cycle, trace_loop}
use integration_service.Dag.Walks.{IsCycle, IsPath}

-- Each text was reached from the next one, its parent.
abbrev pub IsChain : Graph → (String → String) → List String → Type 0
IsChain adj parent [] = Unit
IsChain adj parent (x ∷ []) = Unit
IsChain adj parent (x ∷ p ∷ rest) =
    (parent x ≡ p) × (contains (neighbors adj p) x ≡ true) × IsChain adj parent (p ∷ rest)

abbrev pub FindsCycle : Graph → Outcome → Type 0
FindsCycle adj (cycle c) = IsCycle adj c
FindsCycle adj _ = ⊥

closes :
    (adj : Graph) (to cur : String) (path : List String)
    → (cur == to) ≡ true
    → IsPath adj (cur ∷ (path ++ to ∷ []))
    → IsCycle adj (to ∷ (path ++ to ∷ []))
closes adj to cur path same p = record {
  start = to;
  middle = path;
  closed = refl;
  path = subst (λ x. IsPath adj (x ∷ (path ++ to ∷ []))) (eq_of_== cur to same) p;
}

-- From a text on the chain the loop comes to every text further up within the chain's length.
trace_loop-FindsCycle :
    (adj : Graph) (to : String) (parent : String → String) (f : ℕ) (cur : String)
    (rest path : List String)
    → IsChain adj parent (cur ∷ rest)
    → contains (cur ∷ rest) to ≡ true
    → length (cur ∷ rest) ≤ f
    → IsPath adj (cur ∷ (path ++ to ∷ []))
    → FindsCycle adj (trace_loop f cur to parent path)
unfolding trace_loop
trace_loop-FindsCycle adj to parent zero cur rest path ch h fits p = absurd (omega arith)
trace_loop-FindsCycle adj to parent (suc f) cur [] path ch h fits p =
    let same : (cur == to) ≡ true = ground arith in rw same (closes adj to cur path same p)
trace_loop-FindsCycle adj to parent (suc f) cur (q ∷ l) path ch h fits p =
    elim (Bool-cases (cur == to)) [
      | inl same ↦ rw same (closes adj to cur path same p)
      | inr other ↦ rw other (
          rw ch.0 (
            trace_loop-FindsCycle adj to parent f q l (cur ∷ path) ch.2 (ground arith) (omega arith)
              (ch.1, p)))
    ]

pub trace_cycle-FindsCycle :
    (adj : Graph) (bound : ℕ) (from to : String) (parent : String → String) (rest : List String)
    → IsChain adj parent (from ∷ rest)
    → contains (from ∷ rest) to ≡ true
    → length (from ∷ rest) ≤ bound
    → contains (neighbors adj from) to ≡ true
    → FindsCycle adj (trace_cycle bound from to parent)
unfolding trace_cycle
trace_cycle-FindsCycle adj bound from to parent rest ch h fits n =
    trace_loop-FindsCycle adj to parent bound from rest [] ch h fits (n, tt)
